-- ===== src/Vm/Csr.antt =====
-- The control registers that `basic_vm` does not have: `control_get` and `control_set` of vm_basic.cxx
-- under `csr::exec` of vm_handlers_rv32i.hxx.
use yeti_vm.Base.{ℕ, ◌≡◌, inl, inr, refl, arith, List}
use yeti_vm.Base.{◌!=◌, Bool-cases}
use yeti_vm.Base.Exec.{err, control_access_error}
use yeti_vm.Syscall.{SyscallFunctor}
use yeti_vm.Opcode.Decoder.{get_rd, get_rs1}
use yeti_vm.Opcode.Fields.{get_rs1_lem}
use yeti_vm.Handler.Kinds
use yeti_vm.Handler.Csr.{
  exec_csr, exec_csrrw, exec_csrrs, exec_csrrc, exec_csrrwi, exec_csrrsi, exec_csrrci,
}
use yeti_vm.Vm.State.{Vm}
use yeti_vm.Vm.Step.{basic_machine}
use yeti_vm.Vm.Registers.{get_register_lem}

-- Each of the six instructions throws, whichever registers it names, and leaves the machine as it is.
pub exec_csr_error :
    (syscalls : List (SyscallFunctor Vm)) (vm : Vm) (kind : Kinds.Csr) (code : ℕ)
    → exec_csr (basic_machine syscalls) kind code vm ≡ (err control_access_error, vm)
unfolding exec_csr exec_csrrw exec_csrrs exec_csrrc exec_csrrwi exec_csrrsi exec_csrrci
exec_csr_error syscalls vm Kinds.csrrw code = elim (Bool-cases (get_rd code != 0)) [
  | inl e ↦ rw e refl
  | inr e ↦ rw e (rw (get_register_lem (get_rs1 code) vm (omega (arith, get_rs1_lem code))) refl)
]
exec_csr_error syscalls vm Kinds.csrrs code = refl
exec_csr_error syscalls vm Kinds.csrrc code = refl
exec_csr_error syscalls vm Kinds.csrrwi code = elim (Bool-cases (get_rd code != 0)) [
  | inl e ↦ rw e refl
  | inr e ↦ rw e refl
]
exec_csr_error syscalls vm Kinds.csrrsi code = refl
exec_csr_error syscalls vm Kinds.csrrci code = refl
