-- ===== src/Vm.antt =====
-- `basic_vm` of src/yeti-vm/vm_basic.hxx and vm_basic.cxx.
pub mod State
pub mod Access
pub mod Setup
pub mod Load
pub mod Program
pub mod Binary
pub mod Step
pub mod Words
pub mod Memory
pub mod Invariant
pub mod Safety
pub mod Registers
pub mod Instruction
pub mod Arithmetic
pub mod Target
pub mod Jumps
pub mod Bytes
pub mod Transfers
pub mod Errors
pub mod Cycle
pub mod Csr
pub mod Fuel
pub mod Start
