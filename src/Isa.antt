-- ===== src/Isa.antt =====
-- The instruction set RV32IM as a step relation on registers and a map of bytes, and the machine of
-- src/yeti-vm/vm_basic.cxx against it.
pub mod Encoding
pub mod Manual
pub mod Decoding
pub mod Arch
pub mod Bounds
pub mod Fetch
pub mod Calls
pub mod Represents
pub mod Body
pub mod Simulation
pub mod Traces
pub mod Trap
pub mod Access
pub mod Traps
pub mod Cases
pub mod Sound
