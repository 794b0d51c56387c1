-- ===== src/Isa/Calls.antt =====
-- A whole cycle on an ecall: `run_step` and `syscall` of vm_basic.cxx, `env_call::exec` of
-- vm_handlers_rv32i.hxx, over any system calls.
use yeti_vm.Base.{ℕ, ◌/◌, ◌%◌, ◌^◌, ◌≡◌, refl, ap, arith, Bool, true, false, none, some, List}
use yeti_vm.Base.{◌!=◌, if◌then◌else◌}
use yeti_vm.Base.Exec.{Result, ok, err, unknown_syscall}
use yeti_vm.Syscall
use yeti_vm.Syscall.{SyscallFunctor}
use yeti_vm.Opcode.Decoder
use yeti_vm.Opcode.Fields.{decode_i_u_lem}
use yeti_vm.Handler.Kinds.{env_call, skip}
use yeti_vm.Handler.Rv32i.{exec_env_call}
use yeti_vm.Handler.Dispatch.{exec}
use yeti_vm.Vm.State.{Vm}
use yeti_vm.Vm.Access.{inc_pc}
use yeti_vm.Vm.Step.{get_syscall_id, call_handler, syscall, run_step}
use yeti_vm.Vm.Registers.{writing, get_register_lem}
use yeti_vm.Vm.Jumps.{Decoded, find_handler-Decoded}
use yeti_vm.Isa.Arch.{answer}

module _ (syscalls : List (SyscallFunctor Vm)) (vm vm' : Vm) (f : SyscallFunctor Vm) where
  syscall_lem :
      Syscall.find_handler syscalls (vm.registers 17) ≡ some f
      → f.callback vm ≡ (ok tt, vm')
      → syscall syscalls vm ≡ (ok tt, vm')
  unfolding syscall get_syscall_id call_handler
  syscall_lem e c = rw (get_register_lem 17 vm (omega arith)) (rw e c)

  -- An ecall whose callback returns goes on to the next word of the machine that it leaves.
  pub run_step-ecall :
      (code : ℕ)
      → Decoded vm code env_call
      → code / 2 ^ 20 % 2 ^ 12 ≡ 0
      → Syscall.find_handler syscalls (vm.registers 17) ≡ some f
      → f.callback vm ≡ (ok tt, vm')
      → run_step syscalls vm ≡ inc_pc vm'
  unfolding run_step exec exec_env_call skip
  run_step-ecall code d z e c =
      let i : (Decoder.decode_i_u code != 0) ≡ false = ground (arith, decode_i_u_lem code, z) in
      rw d.current (rw (find_handler-Decoded vm code env_call d) (rw i (rw (syscall_lem e c) refl)))

call_handler-none :
    (vm : Vm) → vm.syscall_throw_on_error ≡ true → call_handler none vm ≡ (err unknown_syscall, vm)
unfolding call_handler
call_handler-none vm throws =
    let result : Bool → Result (Unit {0}) × Vm =
      λ b. if b then (err unknown_syscall, vm) else (ok tt, vm) in
    ap result throws

-- An ecall that has no callback.
pub run_step-denied :
    (syscalls : List (SyscallFunctor Vm)) (vm : Vm) (code : ℕ)
    → Decoded vm code env_call
    → code / 2 ^ 20 % 2 ^ 12 ≡ 0
    → Syscall.find_handler syscalls (vm.registers 17) ≡ none
    → vm.syscall_throw_on_error ≡ true
    → run_step syscalls vm ≡ (err unknown_syscall, vm)
unfolding run_step exec exec_env_call syscall get_syscall_id
run_step-denied syscalls vm code d z e throws =
    let i : (Decoder.decode_i_u code != 0) ≡ false = ground (arith, decode_i_u_lem code, z) in
    rw d.current (
      rw (find_handler-Decoded vm code env_call d) (
        rw i (
          rw (get_register_lem 17 vm (omega arith))
            (rw e (rw (call_handler-none vm throws) refl)))))

-- The callback of this system call halts the machine, and answers 0.
pub record Halts (number : ℕ) (syscalls : List (SyscallFunctor Vm)) : Type 0 where
  pub functor : SyscallFunctor Vm
  pub found : Syscall.find_handler syscalls number ≡ some functor
  pub halts :
      (vm : Vm) → functor.callback vm ≡ (ok tt, writing (record vm { running = false }) answer 0)
