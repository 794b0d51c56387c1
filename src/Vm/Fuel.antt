-- ===== src/Vm/Fuel.antt =====
-- The loop `run` of vm_basic.cxx and its fuel.
use yeti_vm.Base.{ℕ, zero, suc, ◌≡◌, ap, Bool, true, false, List}
use yeti_vm.Base.{if◌then◌else◌}
use yeti_vm.Base.Exec.{Result, ok, err, continue}
use yeti_vm.Syscall.{SyscallFunctor}
use yeti_vm.Vm.State.{Vm}
use yeti_vm.Vm.Step.{run, run_step}

-- The two ways in which a run ends before its fuel does.
abbrev pub IsEnd : Result Bool → Type 0
IsEnd (ok b) = b ≡ true
IsEnd (err e) = Unit

module _ (syscalls : List (SyscallFunctor Vm)) where
  pub stopped : (fuel : ℕ) (vm : Vm) → vm.running ≡ false → run syscalls fuel vm ≡ (ok true, vm)
  unfolding run
  stopped zero vm e = ap (λ b. (ok (if b then false else true), vm)) e
  stopped (suc fuel) vm e =
      ap
        (λ b. if b then continue (run_step syscalls vm) (λ _. run syscalls fuel) else (ok true, vm))
        e

  pub running :
      (fuel : ℕ) (vm : Vm)
      → vm.running ≡ true
      → run syscalls (suc fuel) vm ≡ continue (run_step syscalls vm) (λ _. run syscalls fuel)
  unfolding run
  running fuel vm e =
      ap
        (λ b. if b then continue (run_step syscalls vm) (λ _. run syscalls fuel) else (ok true, vm))
        e
