-- ===== src/Tool/RunVm.antt =====
-- `run_vm` of tools/yeti_main.cxx.
use yeti_vm.Base.{ℕ, Bool, true, false, ◌&&◌, List, []}
use yeti_vm.Base.{if◌then◌else◌}
use yeti_vm.Base.Exec.{Exec, Result, ok, err, pure, ◌>>=◌, ◌>>◌}
use yeti_vm.Syscall.{SyscallFunctor}
use yeti_vm.Vm.State.{Vm, new_vm}
use yeti_vm.Vm.Setup.{init_isa, init_memory, start}
use yeti_vm.Vm.Step.{run}
use yeti_vm.Tool.Loader.{ProgramData, set_program}
use yeti_vm.Tool.Syscalls.{init_syscalls}

-- How it returns: a message that the machine is not ready, one that the program is not loaded, or
-- the end of the run, with `false` where the fuel ran out.
pub data Outcome : Type 0 where
  not_initialized not_loaded : Outcome
  ran : Bool → Outcome

-- `start` and `run`; `run_vm` throws again what they throw.
unfoldable pub start_and_run : List (SyscallFunctor Vm) → ℕ → Exec Vm Outcome
start_and_run syscalls fuel = do start; stopped ← run syscalls fuel; pure (ran stopped)

abbrev pub if_loaded : Exec Vm Outcome → Bool → Exec Vm Outcome
if_loaded next true = next
if_loaded next false = pure not_loaded

-- The machine with its instructions and its memory, and whether both are ready.
unfoldable pub prepare : Bool → Vm × Bool
prepare debug =
    let vm : Vm = record new_vm { debugging = debug } in
    let (vm₁, isa_ok) = init_isa vm in
    let (vm₂, mem_ok) = init_memory vm₁ in (vm₂, isa_ok && mem_ok)

-- With the system calls that `init_syscalls` leaves.
unfoldable pub run_with :
    List (SyscallFunctor Vm) → Bool → ProgramData → Bool → ℕ → Result Outcome × Vm
run_with syscalls null code debug fuel =
    let (vm, ready) = prepare debug in
    if ready
    then (set_program null code 0 >>= if_loaded (start_and_run syscalls fuel)) vm
    else (ok not_initialized, vm)

unfoldable pub run_vm : Bool → ProgramData → Bool → ℕ → Result Outcome × Vm
run_vm null code debug fuel =
    let (result, syscalls) = init_syscalls [] in
    elim result [
      | ok _ ↦ run_with syscalls null code debug fuel
      | err e ↦ (err e, record new_vm { debugging = debug })
    ]
