-- ===== src/Tool/Boot.antt =====
-- From a program file to the running machine: the whole of tools/yeti_main.cxx.
use mathlib.Core.List.{Memᴰ}
use yeti_vm.Base.{ℕ, ◌%◌, ◌^◌, ◌<◌, ◌≡◌, refl, sym, ap, subst, ◌∙◌, arith, Bool, true, Option, some}
use yeti_vm.Base.Exec.{Result, ok, err, pure, continue, ◌>>=◌}
use yeti_vm.Memory.Params.{Params}
use yeti_vm.Memory.Block.{Block, done}
use yeti_vm.Memory.Mmu.{find_block}
use yeti_vm.Memory.Contents.{Within}
use yeti_vm.Memory.Image.{peek}
use yeti_vm.Memory.Regions.{find_block-regions}
use yeti_vm.Vm.State.{Vm, register_count}
use yeti_vm.Vm.Setup
use yeti_vm.Vm.Setup.{start}
use yeti_vm.Vm.Step.{run, get_current}
use yeti_vm.Vm.Start.{at_start, start-IsVm}
use yeti_vm.Vm.Program.{Loaded, loaded}
use yeti_vm.Vm.Safety.{run-get_current}
use yeti_vm.Vm.Invariant.{IsVm}
use yeti_vm.Tool.Loader
use yeti_vm.Tool.Loader.{ProgramData, hex_data, load_file, is_empty}
use yeti_vm.Tool.RunVm.{ran, if_loaded, run_with, run_vm, start_and_run}
use yeti_vm.Tool.Safety.{tool_syscalls, init_syscalls_lem, tool-Keeps}
use yeti_vm.Hex.Files.{FilePath}
use yeti_vm.Tool.Prepare.{tool_regions, tool_vm, prepare_lem}
use yeti_vm.Tool.Programs.{ProgramFile, ProgramFile-Ready, entry_point, program_image}

-- The machine at the first instruction of its program.
pub record Booted (entry : ℕ) (image : ℕ → Option ℕ) (vm : Vm) : Type 0 where
  pub well_formed : IsVm vm
  pub is_running : vm.running ≡ true
  pub at_entry : vm.registers register_count ≡ entry
  pub image_loaded : (a : ℕ) → a < 2 ^ 32 → peek vm.mmu a ≡ image a

-- `run_vm` after its preparations.
run_vm_lem :
    (null debug : Bool) (code : ProgramData) (fuel : ℕ)
    → run_vm null code debug fuel
      ≡ (Loader.set_program null code 0 >>= if_loaded (start_and_run tool_syscalls fuel))
          (tool_vm debug)
unfolding run_vm run_with
run_vm_lem null debug code fuel =
    rw (run_vm, ap (λ r. r.0) init_syscalls_lem, ap (λ r. r.1) init_syscalls_lem)
      (rw (run_with, prepare_lem debug) refl)

state_of : (r : Result Bool × Vm) → (continue r (λ stopped. pure (ran stopped))).1 ≡ r.1
state_of (ok b, vm) = refl
state_of (err e, vm) = refl

module _ (null debug : Bool) (program : ProgramData)
    (l : Loaded
      (Loader.set_program null program 0)
      (entry_point program)
      (program_image program)
      (tool_vm debug))
    (p : Params) (aligned : entry_point program % 4 ≡ 0) (member : Memᴰ p tool_regions)
    (within : Within p (entry_point program) 4) where
  abbrev pub ready : Vm
  ready = loaded (entry_point program) l.mmu (tool_vm debug)

  entry_block : (b : Block) × (find_block l.mmu (entry_point program) 4 ≡ some b)
  entry_block =
      find_block-regions l.mmu p (entry_point program) 4 l.IsMmu_after
        (subst (λ qs. Memᴰ p qs) (sym l.regions_after) member) (omega arith) within

  pub ready-started : (start ready ≡ (ok tt, at_start ready)) × IsVm (at_start ready)
  unfolding Setup.set_flag
  ready-started = start-IsVm ready entry_block.0 l.IsMmu_after aligned entry_block.1

  pub run_vm-ready :
      (fuel : ℕ)
      → run_vm null program debug fuel
        ≡ (run tool_syscalls fuel >>= λ stopped. pure (ran stopped)) (at_start ready)
  unfolding start_and_run
  run_vm-ready fuel = run_vm_lem null debug program fuel ∙ rw l.returns (rw ready-started.0 refl)

module _ (null debug : Bool) (file : FilePath) (program : ProgramData) (p : Params)
    (aligned : entry_point program % 4 ≡ 0) (member : Memᴰ p tool_regions)
    (within : Within p (entry_point program) 4) where
  -- The tool loads a program file, of plain bytes or of HEX records, whose bytes fit its two regions
  -- of 4 MiB and whose entry point is aligned and within one of them, and then runs it: from a
  -- well-formed machine, running, at the entry point, whose memory has the program's bytes and is
  -- 0 elsewhere, whatever the fuel is. Plain bytes are below 256, not empty and within the first
  -- region; the entry point of plain bytes is 0.
  pub run_vm-Booted :
      ProgramFile file program
      → (load_file file ≡ done program)
        × (vm : Vm) × Booted (entry_point program) (program_image program) vm
        × ((fuel : ℕ)
            → run_vm null program debug fuel
              ≡ (run tool_syscalls fuel >>= λ stopped. pure (ran stopped)) vm)
  unfolding Setup.set_flag Setup.is_initialized
  run_vm-Booted fits =
      let r = ProgramFile-Ready file program fits in
      let l = r.fits null debug in
      (
        r.loads,
        at_start (ready null debug program l p aligned member within),
        record {
          well_formed = (ready-started null debug program l p aligned member within).1;
          is_running = refl;
          at_entry = refl;
          image_loaded = l.image_after;
        },
        run_vm-ready null debug program l p aligned member within,
      )

  -- However far the tool has run a program file, of plain bytes or of HEX records, that fits its
  -- memory and starts at an aligned address in it, and however the run ended, the next fetch returns
  -- a word, with the system calls of the tool and no condition on them.
  pub run_vm-get_current :
      ProgramFile file program
      → (fuel : ℕ)
      → (word : ℕ) × (get_current (run_vm null program debug fuel).1
          ≡ (ok word, (run_vm null program debug fuel).1))
  run_vm-get_current fits fuel =
      let l = (ProgramFile-Ready file program fits).fits null debug in
      let vm = at_start (ready null debug program l p aligned member within) in
      let same =
        ap (λ r. r.1) (run_vm-ready null debug program l p aligned member within fuel)
        ∙ state_of (run tool_syscalls fuel vm) in
      subst (λ v. (word : ℕ) × (get_current v ≡ (ok word, v))) (sym same)
        (run-get_current tool_syscalls tool-Keeps vm fuel
          (ready-started null debug program l p aligned member within).1)
