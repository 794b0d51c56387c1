-- ===== src/Isa/Simulation.antt =====
-- The cycle of vm_basic.cxx as an implementation of the step relation.
use yeti_vm.Base.{ℕ, ◌+◌, ◌%◌, ◌^◌, ◌≡◌, refl, sym, ap, ◌∙◌, arith, true, false, List}
use yeti_vm.Base.{◌==◌}
use yeti_vm.Base.Exec.{ok}
use yeti_vm.Syscall.{SyscallFunctor, find_handler}
use yeti_vm.Handler.Kinds.{env_call}
use yeti_vm.Memory.Params.{Params}
use yeti_vm.Memory.Mmu.{Mmu}
use yeti_vm.Memory.Image.{Image}
use yeti_vm.Vm.State.{Vm, register_count}
use yeti_vm.Vm.Step.{run_step}
use yeti_vm.Vm.Memory.{found}
use yeti_vm.Vm.Registers.{writing}
use yeti_vm.Vm.Target.{with_registers, inc_pc_lem}
use yeti_vm.Vm.Jumps.{run_step-destination}
use yeti_vm.Isa.Manual.{write, next_pc, at_pc}
use yeti_vm.Isa.Bounds.{at_pc-IsWords, destination_with-lt}
use yeti_vm.Isa.Decoding.{destination_by_lem}
use yeti_vm.Isa.Arch.{Arch, InRegion, Effect, IsaStep, word, goes, advances, answer, Asks}
use yeti_vm.Isa.Calls.{Halts, run_step-ecall}
use yeti_vm.Isa.Body.{Answers, Carries-Body}
use yeti_vm.Isa.Represents.{Represents, arch, moved, kept, at, decoded, arrive_lem}

-- A cycle that returns, to a machine in the state.
abbrev pub Simulates : List (SyscallFunctor Vm) → List Params → Vm → Arch → Type 0
Simulates syscalls ps vm t =
    (mmu : Mmu) × (run_step syscalls vm ≡ (ok tt, moved vm mmu t.registers))
    × Represents ps (moved vm mmu t.registers) t.memory

module _ (syscalls : List (SyscallFunctor Vm)) (ps : List Params) (vm : Vm) (m : Image)
    (r : Represents ps vm m) where
  abbrev state : Arch
  state = arch vm m

  abbrev code : ℕ
  code = word state

  module _ (al : vm.registers register_count % 4 ≡ 0)
      (here : InRegion ps (vm.registers register_count) 4) where
    Simulates-Effect :
        (calls : Arch → Arch → Type 0) (t : Arch)
        → Answers calls ps syscalls
        → Effect calls ps state t
        → Simulates syscalls ps vm t
    Simulates-Effect calls _ env (advances t b next) =
        let (mmu, e, r') = Carries-Body syscalls ps vm m r al here calls t env b in
        let vm' = moved vm mmu t.registers in
        (
          mmu,
          e
              ∙ arrive_lem ps vm' t.memory r' t.registers (next_pc vm.registers) (omega (arith, al))
                  next,
          kept ps vm' t.memory r' _ (at_pc-IsWords t.registers _ r'.words (omega arith)),
        )
    Simulates-Effect calls _ env (goes h regs t matches e even i) =
        let d = ap (λ o. with_registers vm o) (sym (destination_by_lem h vm.registers code) ∙ e) in
        let (w, lt) = destination_with-lt h vm.registers regs code _ _ _ t r.words e in
        (
          vm.mmu,
          run_step-destination syscalls vm code h (record vm { registers = regs }) t
                (decoded ps vm m r al here h matches) d
              ∙ arrive_lem ps vm m r regs t even i,
          kept ps vm m r _ (at_pc-IsWords regs t w lt),
        )

  -- For every step of the instruction set RV32IM from the state of a machine, a cycle returns and
  -- leaves a machine in the state that the step leads to. The machine has both instruction sets,
  -- its registers hold words, and its memory is well formed, with the regions and the bytes of the
  -- state. The callbacks of the machine do what the environment of the relation says of them. No step is a register
  -- shift by 32 or more, a mul whose product does not fit a signed word, an access to a control
  -- register, or goes to or accesses an address that is not aligned or in no region.
  pub run_step-IsaStep :
      (calls : Arch → Arch → Type 0) (t : Arch)
      → Answers calls ps syscalls
      → IsaStep calls ps (arch vm m) t
      → Simulates syscalls ps vm t
  run_step-IsaStep calls t env s = Simulates-Effect s.aligned s.mapped calls t env s.effect

  -- At a system call that halts, a cycle halts with its answer behind the word.
  pub run_step-Asks :
      (number : ℕ)
      → Halts number syscalls
      → Asks ps number (arch vm m)
      → run_step syscalls vm ≡ (
        ok tt,
        record vm {
          registers = at_pc (write vm.registers answer 0) (next_pc vm.registers);
          running = false;
        },
      )
  run_step-Asks number h a =
      let vm' : Vm = writing (record vm { running = false }) answer 0 in
      let x = at ps vm m r _ 4 (omega arith, omega arith) (omega (arith, a.aligned)) a.next in
      let t : ((vm.registers register_count + 4) % 2 ^ 32 % 4 == 0) ≡ true =
        ground (arith, a.aligned) in
      run_step-ecall syscalls vm vm' h.functor code
        (decoded ps vm m r a.aligned a.mapped env_call a.ecall.matches) a.ecall.immediate
        (ap (λ n. find_handler syscalls n) a.asked ∙ h.found) (h.halts vm)
      ∙ inc_pc_lem vm' a.aligned
      ∙ rw (t, found _ 4 vm r.mmu x) refl
