-- ===== src/Tool/Sound.antt =====
-- Every run of tools/yeti_main.cxx, from a program file to the end of its fuel, to an
-- exception or to a system call that is left open.
use yeti_vm.Base.{
  ℕ, ◌≡◌, sym, subst, ap, ◌∙◌, Bool, List, ◌∷◌, suc, ◌+◌, ◌/◌, ◌%◌, ◌^◌, ◌<◌, ◌⊎◌, inl, inr, refl,
  arith, true, false, ◌==◌, Bool-cases,
}
use yeti_vm.Base.Exec.{Result, pure, continue, Error, ok, err}
use yeti_vm.Memory.Block.{done}
use yeti_vm.Vm.State.{Vm}
use yeti_vm.Vm.Step.{run}
use yeti_vm.Tool.RunVm.{Outcome, ran}
use yeti_vm.Tool.Safety.{tool_syscalls}
use yeti_vm.Tool.Answers.{
  ToolCall, tool_service, tool-Answers, tool-Serves, tool-Denies, exit_number, tool-Halts,
}
use yeti_vm.Hex.Files.{FilePath}
use yeti_vm.Tool.Prepare.{tool_regions}
use yeti_vm.Tool.Loader.{ProgramData}
use yeti_vm.Tool.Programs.{ProgramFile, ProgramFile-Ready, program_image}
use yeti_vm.Tool.Execution.{entry_state, started}
use yeti_vm.Tool.Main.{main, main_lem, run_option, has_run}
use yeti_vm.Isa.Arch.{Arch, Asks, call_number, word}
use yeti_vm.Isa.Traces.{Trace, there, answered, run-Asks}
use yeti_vm.Isa.Represents.{arch, Represents, moved}
use yeti_vm.Isa.Sound.{AtWord, Ending, run-Follows}
use yeti_vm.Memory.Mmu.{Mmu}
use yeti_vm.Memory.Image.{peek}
use yeti_vm.Vm.Program.{Agree}
use yeti_vm.Isa.Manual.{next_pc}
use yeti_vm.Isa.Trap.{Trap, IsSystem}
use yeti_vm.Isa.Cases.{mapped-cases}

-- How `run_vm` returns from what `run` comes to.
abbrev pub outcome_of : Result Bool × Vm → Result Outcome × Vm
outcome_of r = continue r (λ stopped. pure (ran stopped))

-- How the run of a program ends along a trace of `n` steps: at the end of its fuel, by an exception,
-- with the call of exit, or at another system instruction, from where it goes on with the fuel that
-- is left.
pub data ToolEnding (machine : Vm) (last : Arch) (fuel n : ℕ) (r : Result Bool × Vm) : Type 0 where
  spent :
      (mmu : Mmu)
      → n ≡ fuel
      → r ≡ (ok false, moved machine mmu last.registers)
      → Represents tool_regions (moved machine mmu last.registers) last.memory
      → ToolEnding machine last fuel n r
  trapped :
      (e : Error) (t : Arch) (mmu : Mmu)
      → Trap (ToolCall tool_regions) tool_service tool_regions last e t
      → r ≡ (err e, moved machine mmu t.registers)
      → Represents tool_regions (moved machine mmu t.registers) t.memory
      → ToolEnding machine last fuel n r
  exits :
      (vm : Vm)
      → Asks tool_regions exit_number last
      → n < fuel
      → r ≡ (ok true, vm)
      → vm.registers ≡ answered last.registers
      → Agree (peek vm.mmu) last.memory
      → ToolEnding machine last fuel n r
  waits :
      (mmu : Mmu) (k : ℕ)
      → IsSystem tool_service last
      → ¬ Asks tool_regions exit_number last
      → fuel ≡ n + suc k
      → r ≡ run tool_syscalls (suc k) (moved machine mmu last.registers)
      → Represents tool_regions (moved machine mmu last.registers) last.memory
      → ToolEnding machine last fuel n r

-- A run whose machine started in the first state of the program, and follows the instruction set.
pub record ToolRun (program : ProgramData) (fuel : ℕ) (r : Result Bool × Vm) : Type 0 where
  pub machine : Vm
  pub steps : ℕ
  pub last : Arch
  pub trace : Trace (ToolCall tool_regions) tool_regions last steps (entry_state program)
  pub ending : ToolEnding machine last fuel steps r

module _ (vm : Vm) (last : Arch) (on : vm.running ≡ true) (mmu : Mmu)
    (h : Represents tool_regions (moved vm mmu last.registers) last.memory) where
  -- A system instruction of the tool is a call of exit, or not.
  exit-cases :
      IsSystem tool_service last
      → AtWord tool_regions last
      → Asks tool_regions exit_number last ⊎ (¬ Asks tool_regions exit_number last)
  exit-cases y w = elim (Bool-cases (call_number last == exit_number)) [
    | inr c ↦ inr (λ a. ground (arith, c, a.asked))
    | inl c ↦ elim (Bool-cases (word last / 2 ^ 20 % 2 ^ 12 == 0)) [
      | inr d ↦ inr (λ a. ground (arith, d, a.ecall.immediate))
      | inl d ↦
          elim (mapped-cases (ToolCall tool_regions) tool_service tool_regions
            (moved vm mmu last.registers) last.memory h (next_pc last.registers) 4 (omega arith)
            (omega arith, omega arith) (omega (arith, w.aligned))) [
              | inr miss ↦ inr (λ a. miss a.next)
              | inl i ↦ inl (record {
                aligned = w.aligned;
                mapped = w.mapped;
                ecall = record { matches = y.matches; immediate = ground (arith, d) };
                asked = ground (arith, c);
                next = i;
              })
            ]
    ]
  ]

  at_system :
      (fuel n k : ℕ) (r : Result Bool × Vm)
      → IsSystem tool_service last
      → AtWord tool_regions last
      → fuel ≡ n + suc k
      → r ≡ run tool_syscalls (suc k) (moved vm mmu last.registers)
      → ToolEnding vm last fuel n r
  at_system fuel n k r y w f e = elim (exit-cases y w) [
    | inr other ↦ waits mmu k y other f e h
    | inl a ↦
        let (mmu', go, agree) =
          run-Asks tool_syscalls (ToolCall tool_regions) tool_regions last
            (tool-Answers tool_regions) (moved vm mmu last.registers) last.memory 0 exit_number h on
            there a tool-Halts in
        let z : suc k ≡ 0 + suc k = omega arith in
        exits _ a (omega (arith, f))
          (e ∙ ap (λ j. run tool_syscalls j (moved vm mmu last.registers)) z ∙ go k) refl agree
  ]

tool_ending :
    (vm : Vm) (last : Arch) (fuel n : ℕ) (r : Result Bool × Vm)
    → vm.running ≡ true
    → Ending tool_syscalls (ToolCall tool_regions) tool_service tool_regions vm last fuel n r
    → ToolEnding vm last fuel n r
tool_ending vm last fuel n r on (Ending.spent mmu e q h) = spent mmu e q h
tool_ending vm last fuel n r on (Ending.trapped e t mmu f q h) = trapped e t mmu f q h
tool_ending vm last fuel n r on (Ending.waits mmu k y w f e h) =
    at_system vm last on mmu h fuel n k r y w f e

module _ (null debug : Bool) (file : FilePath) (program : ProgramData) (name more path : List ℕ)
    (rest : List (List ℕ)) where
  -- For every program of plain bytes or HEX records that fits the two regions of the tool and whose
  -- entry point is an aligned word in one of them, and every fuel, yeti_main with the option v or V
  -- reads, loads and runs the program along the instruction set: from registers of 0, the entry
  -- point and the bytes of the program, to the state where the fuel ends, the word raises the
  -- exception that the run throws, exit is called, or another system instruction stands, from
  -- where the run goes on with the fuel that is left. The machine is in the state that is reached;
  -- where exit is called before the fuel ends, the run has stopped, and the machine is in that state
  -- with the answer of exit. The other system instructions are exit before a word that is not in
  -- memory, read, and those of the system group beside ecall, ebreak and the control registers.
  pub main-Follows :
      (fuel : ℕ)
      → ProgramFile file program
      → AtWord tool_regions (entry_state program)
      → (r : Result Bool × Vm) × (main null fuel file
            (name ∷ (run_option debug ∷ more) ∷ path ∷ rest)
          ≡ done (has_run (outcome_of r)))
        × ToolRun program fuel r
  main-Follows fuel fits w =
      let b = started null debug file program fits w.aligned w.mapped in
      let m = program_image program in
      let same : arch b.machine m ≡ entry_state program =
        ap (λ regs. record { registers = regs; memory = m }) b.registers in
      let (n, last, trace, end) =
        run-Follows tool_syscalls (ToolCall tool_regions) tool_service tool_regions
          (tool-Answers tool_regions) (tool-Serves tool_regions) tool-Denies fuel b.machine m
          b.represents b.is_running b.throws (subst (AtWord tool_regions) (sym same) w) in
      (
        run tool_syscalls fuel b.machine,
        main_lem null debug fuel file program name more path rest
              (ProgramFile-Ready file program fits)
            ∙ ap (λ x. done (has_run x)) (b.runs fuel),
        record {
          machine = b.machine;
          steps = n;
          last = last;
          trace = subst (Trace (ToolCall tool_regions) tool_regions last n) same trace;
          ending = tool_ending b.machine last fuel n _ b.is_running end;
        },
      )
