-- ===== src/Vm/Cycle.antt =====
-- A whole cycle of `basic_vm` on a decoded word whose handler returns: `run_step` and `inc_pc` of
-- vm_basic.cxx, whether or not the next word is in memory.
use yeti_vm.Base.{ℕ, ◌+◌, ◌%◌, ◌^◌, ◌<◌, ◌≡◌, ap, ◌∙◌, arith, false, List}
use yeti_vm.Base.Exec.{ok}
use yeti_vm.Syscall.{SyscallFunctor}
use yeti_vm.Handler.Kinds.{Handler, skip}
use yeti_vm.Handler.Dispatch.{exec}
use yeti_vm.Isa.Manual.{next_pc}
use yeti_vm.Vm.State.{Vm, register_count}
use yeti_vm.Vm.Step.{basic_machine, run_step}
use yeti_vm.Vm.Registers.{writing}
use yeti_vm.Vm.Jumps.{Decoded, find_handler-Decoded}
use yeti_vm.Vm.Target.{arrive, inc_pc_lem}

module _ (syscalls : List (SyscallFunctor Vm)) (vm : Vm) (code : ℕ) where
  pub advancing :
      (h : Handler) (vm' : Vm)
      → Decoded vm code h
      → skip h ≡ false
      → exec (basic_machine syscalls) h code vm ≡ (ok tt, vm')
      → vm'.registers register_count ≡ vm.registers register_count
      → run_step syscalls vm ≡ arrive vm' (next_pc vm.registers)
  unfolding run_step
  advancing h vm' d s e pc =
      let al : vm'.registers register_count % 4 ≡ 0 = ap (λ (x : ℕ). x % 4) pc ∙ d.aligned in
      rw d.current (
        rw (find_handler-Decoded vm code h d)
          (rw e (rw s (inc_pc_lem vm' al ∙ ap (λ (x : ℕ). arrive vm' ((x + 4) % 2 ^ 32)) pc))))

-- A general register is not the program counter.
pub pc-writing :
    (vm : Vm) (r v : ℕ)
    → r < 32
    → (writing vm r v).registers register_count ≡ vm.registers register_count
pc-writing vm r v lt = ground arith
