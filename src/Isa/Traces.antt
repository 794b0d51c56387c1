-- ===== src/Isa/Traces.antt =====
-- Runs of many instructions: the loop `run` of vm_basic.cxx along the step relation.
use yeti_vm.Base.{ℕ, suc, ◌+◌, ◌≡◌, refl, ap, ◌∙◌, arith, true, false, List}
use yeti_vm.Base.Exec.{ok, continue}
use yeti_vm.Syscall.{SyscallFunctor}
use yeti_vm.Memory.Params.{Params}
use yeti_vm.Memory.Mmu.{Mmu}
use yeti_vm.Memory.Image.{Image, peek}
use yeti_vm.Vm.State.{Vm}
use yeti_vm.Vm.Step.{run}
use yeti_vm.Vm.Fuel.{running, stopped}
use yeti_vm.Vm.Program.{Agree}
use yeti_vm.Isa.Manual.{write, next_pc, at_pc}
use yeti_vm.Isa.Calls.{Halts}
use yeti_vm.Isa.Body.{Answers}
use yeti_vm.Isa.Represents.{Represents, arch, moved}
use yeti_vm.Isa.Simulation.{run_step-IsaStep, run_step-Asks}
use yeti_vm.Isa.Arch.{Arch, IsaStep, Asks, answer}

-- So many steps, from a state to the last one.
pub data Trace (calls : Arch → Arch → Type 0) (ps : List Params) (last : Arch)
    : ℕ → Arch → Type 0 where
  there : Trace calls ps last 0 last
  step :
      (n : ℕ) (s t : Arch)
      → IsaStep calls ps s t
      → Trace calls ps last n t
      → Trace calls ps last (suc n) s

-- The registers behind a system call that is answered with 0.
abbrev pub answered : (ℕ → ℕ) → ℕ → ℕ
answered regs = at_pc (write regs answer 0) (next_pc regs)

module _ (syscalls : List (SyscallFunctor Vm)) (calls : Arch → Arch → Type 0) (ps : List Params)
    (last : Arch) (env : Answers calls ps syscalls) where
  -- A run as far as the last state: what is left of the fuel goes on from there.
  abbrev pub RunsTo : ℕ → Vm → Type 0
  RunsTo n vm =
      (mmu : Mmu) × ((fuel : ℕ)
        → run syscalls (n + fuel) vm ≡ run syscalls fuel (moved vm mmu last.registers))
      × Represents ps (moved vm mmu last.registers) last.memory

  -- From a running machine with both instruction sets, whose registers hold words and whose memory
  -- is well formed, with the regions and the bytes of a state of the instruction set: along any
  -- trace of n steps from that state, a run with n + k cycles of fuel comes to what a run with k
  -- does from a machine in the last state of the trace, for every k. The callbacks of
  -- the machine do what the environment of the relation says of them.
  pub run-Trace :
      (vm : Vm) (m : Image) (n : ℕ)
      → Represents ps vm m
      → vm.running ≡ true
      → Trace calls ps last n (arch vm m)
      → RunsTo n vm
  run-Trace vm m _ r on there =
      (vm.mmu, λ fuel. let e : 0 + fuel ≡ fuel = omega arith in ap (λ k. run syscalls k vm) e, r)
  run-Trace vm m _ r on (step n _ t s more) =
      let (mmu, e, r') = run_step-IsaStep syscalls ps vm m r calls t env s in
      let (mmu', go, r'') = run-Trace (moved vm mmu t.registers) t.memory n r' on more in
      (
        mmu',
        λ fuel.
            let k : suc n + fuel ≡ suc (n + fuel) = omega arith in
            ap (λ k. run syscalls k vm) k
            ∙ running syscalls (n + fuel) vm on
            ∙ ap (λ x. continue x (λ _. run syscalls (n + fuel))) e
            ∙ go fuel,
        r'',
      )

  -- The machine behind the system call that has halted it.
  abbrev pub halted : Vm → Mmu → Vm
  halted vm mmu = record vm { mmu = mmu; registers = answered last.registers; running = false }

  abbrev pub Finishes : ℕ → Vm → Type 0
  Finishes n vm =
      (mmu : Mmu) × ((fuel : ℕ) → run syscalls (n + suc fuel) vm ≡ (ok true, halted vm mmu))
      × Agree (peek mmu) last.memory

  pub run-Asks :
      (vm : Vm) (m : Image) (n number : ℕ)
      → Represents ps vm m
      → vm.running ≡ true
      → Trace calls ps last n (arch vm m)
      → Asks ps number last
      → Halts number syscalls
      → Finishes n vm
  run-Asks vm m n number r on t a h =
      let (mmu, go, r') = run-Trace vm m n r on t in
      let e = run_step-Asks syscalls ps (moved vm mmu last.registers) last.memory r' number h a in
      (
        mmu,
        λ fuel.
            go (suc fuel)
            ∙ running syscalls fuel (moved vm mmu last.registers) on
            ∙ ap (λ x. continue x (λ _. run syscalls fuel)) e
            ∙ stopped syscalls fuel (halted vm mmu) refl,
        r'.same,
      )
