-- ===== src/Isa/Sound.antt =====
-- The cycle and the loop of vm_basic.cxx do nothing but what the instruction set does.
use yeti_vm.Base.{
  ℕ, zero, suc, ◌+◌, ◌%◌, ◌≡◌, inl, inr, refl, sym, subst, ap, ◌∙◌, arith, Bool, true, false, List,
}
use yeti_vm.Base.{if◌then◌else◌}
use yeti_vm.Base.Exec.{Error, Result, ok, err, continue}
use yeti_vm.Syscall.{SyscallFunctor}
use yeti_vm.Memory.Params.{Params}
use yeti_vm.Memory.Mmu.{Mmu}
use yeti_vm.Memory.Image.{Image}
use yeti_vm.Vm.State.{Vm}
use yeti_vm.Vm.Step.{run_step, run}
use yeti_vm.Vm.Fuel.{running}
use yeti_vm.Isa.Arch.{Arch, InRegion, IsaStep, Effect, advances, goes, pc}
use yeti_vm.Isa.Body.{Answers}
use yeti_vm.Isa.Represents.{Represents, arch, moved}
use yeti_vm.Isa.Simulation.{run_step-IsaStep}
use yeti_vm.Isa.Traces.{Trace, there, step}
use yeti_vm.Isa.Trap.{Trap, IsSystem, Service, Serves, Denies}
use yeti_vm.Isa.Traps.{run_step-Trap}
use yeti_vm.Isa.Cases.{word-cases}

-- A machine that the first one comes to, in this state.
abbrev pub Reaches : List Params → Vm → Vm → Arch → Type 0
Reaches ps vm vm' t =
    (mmu : Mmu) × (vm' ≡ moved vm mmu t.registers)
    × Represents ps (moved vm mmu t.registers) t.memory

-- What a cycle comes to is what the instruction set says of the word.
abbrev pub Follows :
    (Arch → Arch → Type 0)
    → (ℕ → Service)
    → List Params
    → Vm
    → Image
    → Result (Unit {0}) × Vm
    → Type 0
Follows calls service ps vm m (ok _, vm') =
    (t : Arch) × IsaStep calls ps (arch vm m) t × Reaches ps vm vm' t
Follows calls service ps vm m (err e, vm') =
    (t : Arch) × Trap calls service ps (arch vm m) e t × Reaches ps vm vm' t

-- The program counter is aligned, and at a word of a region.
pub record AtWord (ps : List Params) (s : Arch) : Type 0 where
  pub aligned : pc s % 4 ≡ 0
  pub mapped : InRegion ps (pc s) 4

AtWord-Effect :
    (calls : Arch → Arch → Type 0) (ps : List Params) (s t : Arch)
    → AtWord ps s
    → Effect calls ps s t
    → AtWord ps t
AtWord-Effect calls ps s _ w (advances t b next) = record {
  aligned = omega (arith, w.aligned);
  mapped = next;
}
AtWord-Effect calls ps s _ w (goes h regs t x e z i) = record { aligned = z; mapped = i }

-- How a run ends along a trace of `n` steps: at the end of its fuel, by an exception, or at a system
-- instruction, from where it goes on with the fuel that is left.
pub data Ending (syscalls : List (SyscallFunctor Vm)) (calls : Arch → Arch → Type 0)
    (service : ℕ → Service) (ps : List Params) (vm : Vm) (last : Arch) (fuel n : ℕ)
    (r : Result Bool × Vm) : Type 0 where
  spent :
      (mmu : Mmu)
      → n ≡ fuel
      → r ≡ (ok false, moved vm mmu last.registers)
      → Represents ps (moved vm mmu last.registers) last.memory
      → Ending syscalls calls service ps vm last fuel n r
  trapped :
      (e : Error) (t : Arch) (mmu : Mmu)
      → Trap calls service ps last e t
      → r ≡ (err e, moved vm mmu t.registers)
      → Represents ps (moved vm mmu t.registers) t.memory
      → Ending syscalls calls service ps vm last fuel n r
  waits :
      (mmu : Mmu) (k : ℕ)
      → IsSystem service last
      → AtWord ps last
      → fuel ≡ n + suc k
      → r ≡ run syscalls (suc k) (moved vm mmu last.registers)
      → Represents ps (moved vm mmu last.registers) last.memory
      → Ending syscalls calls service ps vm last fuel n r

module _ (syscalls : List (SyscallFunctor Vm)) (calls : Arch → Arch → Type 0)
    (service : ℕ → Service) (ps : List Params) (env : Answers calls ps syscalls)
    (serves : Serves calls service) (absent : Denies service syscalls) where
  -- In a machine with both instruction sets, whose registers hold words, whose memory is well formed
  -- and holds bytes, and whose program counter is at an aligned word in memory, whatever a cycle
  -- does is what the instruction set says: where it returns, the instruction set takes a step to the
  -- state of the machine; where it throws, the word raises that exception, and the machine is in the
  -- state that it leaves. The word is not an ecall of a number that is left open, nor one that the
  -- manual gives to the system group beside ecall, ebreak and the control registers. The machine
  -- throws on unknown system calls. The callbacks of the machine do what the environment of the
  -- relation says of them.
  pub run_step-Follows :
      (vm : Vm) (m : Image)
      → Represents ps vm m
      → AtWord ps (arch vm m)
      → vm.syscall_throw_on_error ≡ true
      → ¬ IsSystem service (arch vm m)
      → Follows calls service ps vm m (run_step syscalls vm)
  run_step-Follows vm m r w throws plain =
      elim (word-cases calls service ps vm m r serves w.aligned) [
        | inl (t, f) ↦
            let s : IsaStep calls ps (arch vm m) t = record {
              aligned = w.aligned;
              mapped = w.mapped;
              effect = f;
            } in
            let (mmu, e, r') = run_step-IsaStep syscalls ps vm m r calls t env s in
            subst (Follows calls service ps vm m) (sym e) (t, s, (mmu, refl, r'))
        | inr (inl (x, t, f)) ↦
            let (mmu, e, r') =
              run_step-Trap syscalls ps vm m r w.aligned w.mapped calls service x t env absent
                throws f in
            subst (Follows calls service ps vm m) (sym e) (t, f, (mmu, refl, r'))
        | inr (inr y) ↦ absurd (plain y)
      ]

  -- A run after a step.
  later :
      (vm : Vm) (mmu₀ : Mmu) (regs₀ : ℕ → ℕ) (last : Arch) (fuel n : ℕ) (r r' : Result Bool × Vm)
      → r ≡ r'
      → Ending syscalls calls service ps (moved vm mmu₀ regs₀) last fuel n r'
      → Ending syscalls calls service ps vm last (suc fuel) (suc n) r
  later vm mmu₀ regs₀ last fuel n r r' e (spent mmu k q h) = spent mmu (ap suc k) (e ∙ q) h
  later vm mmu₀ regs₀ last fuel n r r' e (trapped x t mmu f q h) = trapped x t mmu f (e ∙ q) h
  later vm mmu₀ regs₀ last fuel n r r' e (waits mmu k y w f q h) =
      waits mmu k y w (omega (arith, f)) (e ∙ q) h

  abbrev pub FollowsTrace : ℕ → Vm → Image → Type 0
  FollowsTrace fuel vm m =
      (n : ℕ) × (last : Arch) × Trace calls ps last n (arch vm m)
      × Ending syscalls calls service ps vm last fuel n (run syscalls fuel vm)

  out_of_fuel : (vm : Vm) → vm.running ≡ true → run syscalls zero vm ≡ (ok false, vm)
  unfolding run
  out_of_fuel vm on = ap (λ b. (ok (if b then false else true), vm)) on

  -- From a running machine with both instruction sets, whose registers hold words, whose memory is
  -- well formed and holds bytes, and whose program counter is at an aligned word in memory, any run
  -- follows the instruction set: along a trace of steps to the state where its fuel ends, the word
  -- raises the exception that the run throws, or a system instruction stands, from where it goes on
  -- with the fuel that is left. The machine is in the state that is reached. A system instruction is
  -- here an ecall of a number that is left open, or one of the system group beside ecall, ebreak and
  -- the control registers. The machine throws on unknown system calls. The callbacks of the
  -- machine do what the environment of the relation says of them.
  pub run-Follows :
      (fuel : ℕ) (vm : Vm) (m : Image)
      → Represents ps vm m
      → vm.running ≡ true
      → vm.syscall_throw_on_error ≡ true
      → AtWord ps (arch vm m)
      → FollowsTrace fuel vm m
  run-Follows zero vm m r on throws w =
      (0, arch vm m, there, spent vm.mmu refl (out_of_fuel vm on) r)
  run-Follows (suc fuel) vm m r on throws w =
      elim (word-cases calls service ps vm m r serves w.aligned) [
        | inl (t, f) ↦
            let s : IsaStep calls ps (arch vm m) t = record {
              aligned = w.aligned;
              mapped = w.mapped;
              effect = f;
            } in
            let (mmu, e, r') = run_step-IsaStep syscalls ps vm m r calls t env s in
            let vm' = moved vm mmu t.registers in
            let (n, last, trace, end) =
              run-Follows fuel vm' t.memory r' on throws
                (AtWord-Effect calls ps (arch vm m) t w f) in
            (
              suc n,
              last,
              step n _ t s trace,
              later vm mmu t.registers last fuel n _ _
                  (running syscalls fuel vm on ∙ ap (λ x. continue x (λ _. run syscalls fuel)) e)
                  end,
            )
        | inr (inl (x, t, f)) ↦
            let (mmu, e, r') =
              run_step-Trap syscalls ps vm m r w.aligned w.mapped calls service x t env absent
                throws f in
            (
              0,
              arch vm m,
              there,
              trapped x t mmu f
                  (running syscalls fuel vm on ∙ ap (λ x. continue x (λ _. run syscalls fuel)) e)
                  r',
            )
        | inr (inr y) ↦ (0, arch vm m, there, waits vm.mmu fuel y w (omega arith) refl r)
      ]
