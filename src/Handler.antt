-- ===== src/Handler.antt =====
-- The instruction handlers: src/yeti-vm/vm_handler.hxx and vm_handler.cxx, vm_handlers_rv32i.hxx and
-- vm_handlers_rv32i.cxx, vm_handlers_rv32m.hxx and vm_handlers_rv32m.cxx.
pub mod Kinds
pub mod Rv32i
pub mod Csr
pub mod Rv32m
pub mod Dispatch
pub mod Registry
pub mod Alu
pub mod Compare
pub mod Immediate
pub mod Muldiv
pub mod Lookup
pub mod Sound
pub mod Keeps
