-- ===== src/Tool.antt =====
-- The program that runs the machine, tools/yeti_main.cxx. What it prints is not modelled.
pub mod Loader
pub mod Syscalls
pub mod RunVm
pub mod Safety
pub mod Fill
pub mod Listing
pub mod Prepare
pub mod Programs
pub mod Boot
pub mod Buffer
pub mod Answers
pub mod Bytes
pub mod Execution
pub mod Main
pub mod Sound
pub mod ViewHex
pub mod MakeDummy
