-- ===== src/Tool/Main.antt =====
-- `main` of tools/yeti_main.cxx. The arguments are those of the program, its own name first;
-- the file is what the path `argv[2]` names.
use yeti_vm.Base.{
  ℕ, suc, ◌+◌, ◌≡◌, refl, ap, ◌∙◌, arith, Bool, true, false, Option, none, some, List, ◌∷◌,
}
use yeti_vm.Base.{ltb, ◌==◌, if◌then◌else◌, length}
use yeti_vm.Base.Exec.{Result, ok, err}
use yeti_vm.Memory.Block.{Access, done, refused, undefined}
use yeti_vm.Memory.Image.{peek}
use yeti_vm.Vm.State.{Vm}
use yeti_vm.Vm.Program.{Agree}
use yeti_vm.Isa.Arch.{Arch, Asks}
use yeti_vm.Isa.Traces.{Trace, answered}
use yeti_vm.Tool.Loader.{ProgramData, bin_data, is_null, is_empty, load_file}
use yeti_vm.Tool.RunVm.{Outcome, ran, run_vm}
use yeti_vm.Tool.Listing.{Line, disasm}
use yeti_vm.Tool.Answers.{ToolCall, exit_number}
use yeti_vm.Hex.Files.{FilePath}
use yeti_vm.Tool.Prepare.{tool_regions}
use yeti_vm.Tool.Programs.{ProgramFile, ProgramFile-Ready, Ready}
use yeti_vm.Tool.Execution.{entry_state, run_vm-Asks}

-- How it returns: the messages, the listing, or the run.
pub data MainResult : Type 0 where
  usage not_loaded empty_program not_bin unknown_option : MainResult
  listed : List Line → MainResult
  has_run : Result Outcome × Vm → MainResult

-- `EXIT_SUCCESS` and `EXIT_FAILURE`; an exception that the run throws is not caught.
unfoldable pub exit_code : MainResult → Option ℕ
exit_code usage = some 0
exit_code (listed ls) = some 0
exit_code (has_run (ok outcome, vm)) = some 0
exit_code (has_run (err e, vm)) = none
exit_code _ = some 1

-- `*argv[1]`: the first character, or the one that ends an empty argument.
abbrev pub option_of : List (List ℕ) → ℕ
option_of (name ∷ (c ∷ cs) ∷ rest) = c
option_of _ = 0

abbrev pub of_listing : Access (List Line) → Access MainResult
of_listing (done ls) = done (listed ls)
of_listing refused = refused
of_listing undefined = undefined

unfoldable pub list_program : ProgramData → Access MainResult
list_program (bin_data code) = of_listing (disasm code)
list_program _ = done not_bin

module _ (null : Bool) (fuel : ℕ) where
  -- The cases of the option.
  unfoldable pub dispatch : ℕ → ProgramData → Access MainResult
  dispatch option program =
      if option == b'd'
      then list_program program
      else if option == b'v'
      then done (has_run (run_vm null program false fuel))
      else if option == b'V'
      then done (has_run (run_vm null program true fuel))
      else done unknown_option

  -- From the tests of the program on.
  unfoldable pub main_with : ℕ → Access ProgramData → Access MainResult
  main_with option (done program) =
      if is_null program
      then done not_loaded
      else if is_empty program
      then done empty_program
      else dispatch option program
  main_with option refused = refused
  main_with option undefined = undefined

  unfoldable pub main : FilePath → List (List ℕ) → Access MainResult
  main file argv =
      if ltb (length argv) 3 then done usage else main_with (option_of argv) (load_file file)

-- The option that runs a program, with debug output or without.
abbrev pub run_option : Bool → ℕ
run_option debug = if debug then b'V' else b'v'

pub main_lem :
    (null debug : Bool) (fuel : ℕ) (file : FilePath) (program : ProgramData)
    (name more path : List ℕ) (rest : List (List ℕ))
    → Ready file program
    → main null fuel file (name ∷ (run_option debug ∷ more) ∷ path ∷ rest)
      ≡ done (has_run (run_vm null program debug fuel))
unfolding main main_with dispatch
main_lem null true fuel file program name more path rest r =
    let few : ltb (length (name ∷ (b'V' ∷ more) ∷ path ∷ rest)) 3 ≡ false = ground arith in
    rw (few, r.loads, r.present, r.not_empty) refl
main_lem null false fuel file program name more path rest r =
    let few : ltb (length (name ∷ (b'v' ∷ more) ∷ path ∷ rest)) 3 ≡ false = ground arith in
    rw (few, r.loads, r.present, r.not_empty) refl

module _ (null debug : Bool) (file : FilePath) (program : ProgramData) (last : Arch) (n : ℕ)
    (name more path : List ℕ) (rest : List (List ℕ)) where
  -- If the instruction set, from registers of 0, the entry point and the bytes of a program, comes
  -- in n steps to the system call exit, yeti_main with the option v or V and the file of the program
  -- reads, loads and runs it to its end: with n + 1 cycles of fuel or more the run has stopped, and
  -- leaves the registers and the bytes of the memory as the instruction set does, with the answer of
  -- exit. The file has plain bytes or the text of HEX records, and the program fits the two regions
  -- of the tool; the system calls before exit answer 0, and read fills the words of its buffer,
  -- which are aligned and in memory, with the squares of their offsets.
  pub main-Asks :
      ProgramFile file program
      → Trace (ToolCall tool_regions) tool_regions last n (entry_state program)
      → Asks tool_regions exit_number last
      → (vm : Vm) × ((fuel : ℕ)
          → main null (n + suc fuel) file (name ∷ (run_option debug ∷ more) ∷ path ∷ rest)
            ≡ done (has_run (ok (ran true), vm)))
        × (vm.registers ≡ answered last.registers)
        × Agree (peek vm.mmu) last.memory
  main-Asks fits trace asks =
      let (vm, go, regs, agree) = run_vm-Asks null debug file program fits last n trace asks in
      (
        vm,
        λ fuel.
            main_lem null debug (n + suc fuel) file program name more path rest
              (ProgramFile-Ready file program fits)
            ∙ ap (λ r. done (has_run r)) (go fuel),
        regs,
        agree,
      )
