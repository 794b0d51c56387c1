-- ===== src/Tests/Traps.antt =====
-- The cycle, the loop and the tool against the instruction set, whatever they do.
use yeti_vm.Base.{ℕ, ◌≡◌, refl, arith, inl, Bool, true, [], ◌∷◌}
use yeti_vm.Base.Exec.{Result, data_access_error}
use yeti_vm.Handler.Kinds
use yeti_vm.Memory.Block.{done}
use yeti_vm.Memory.Params
use yeti_vm.Memory.Image.{peek, byte_of, value_at}
use yeti_vm.Memory.Mmu.{find_block}
use yeti_vm.Vm.State.{Vm}
use yeti_vm.Vm.Step.{run_step}
use yeti_vm.Isa.Arch.{Arch}
use yeti_vm.Isa.Trap.{Service, open_call, Serves, Denies, Trap, accesses}
use yeti_vm.Isa.Traps.{run_step-Trap, Throws}
use yeti_vm.Isa.Sound.{AtWord, Follows, FollowsTrace, run_step-Follows, run-Follows}
use yeti_vm.Tool.Execution.{entry_state}
use yeti_vm.Tool.Prepare.{tool_regions}
use yeti_vm.Tool.Loader.{bin_data}
use yeti_vm.Tool.Main.{main, has_run}
use yeti_vm.Tool.Sound.{outcome_of, ToolRun, main-Follows}
use yeti_vm.Tests.Data.{vm_at}
use yeti_vm.Tests.Executions.{
  pages, running_at, running_at-Represents, in_page, state_at, none-Answers, in_code_block,
}
use yeti_vm.Tests.Hex.{addi_bytes, addi_path, addi_file}

abbrev NoCalls : Arch → Arch → Type 0
NoCalls s t = ⊥

abbrev all_open : ℕ → Service
all_open id = open_call

all_open-Serves : Serves NoCalls all_open
all_open-Serves s e h = cc

all_open-Denies : Denies all_open []
all_open-Denies id h = cc

-- At `addi x3, x1, -1`.
run_step-Follows_example :
    Follows NoCalls all_open pages
      (running_at 12)
      (peek (vm_at 0).mmu)
      (run_step [] (running_at 12))
unfolding value_at peek byte_of find_block Params.in_range_size Params.in_range Params.offset
run_step-Follows_example =
    run_step-Follows [] NoCalls all_open pages none-Answers all_open-Serves all_open-Denies
      (running_at 12) (peek (vm_at 0).mmu) (running_at-Represents 12 (omega arith))
      (record { aligned = refl; mapped = in_page 12 4 (omega arith) (omega arith) }) refl
      (λ y. omega (arith, y.matches.opcode))

run-Follows_example :
    FollowsTrace [] NoCalls all_open pages none-Answers all_open-Serves all_open-Denies 3
      (running_at 12)
      (peek (vm_at 0).mmu)
run-Follows_example =
    run-Follows [] NoCalls all_open pages none-Answers all_open-Serves all_open-Denies 3
      (running_at 12) (peek (vm_at 0).mmu) (running_at-Represents 12 (omega arith)) refl refl
      (record { aligned = refl; mapped = in_page 12 4 (omega arith) (omega arith) })

-- `lw x3, 4(x1)`, where `x1` is 5.
lw_Trap : Trap NoCalls all_open pages (state_at 28) data_access_error (state_at 28)
unfolding value_at peek byte_of find_block Params.in_range_size Params.in_range Params.offset
lw_Trap =
    accesses (Kinds.load Kinds.lw) 9 4 (record { opcode = refl; func3 = refl; func7 = tt }) refl
      (inl (λ e. omega (arith, e)))

run_step-Trap_example : Throws [] pages (running_at 28) data_access_error (state_at 28)
run_step-Trap_example =
    run_step-Trap [] pages (running_at 28) (peek (vm_at 0).mmu)
      (running_at-Represents 28 (omega arith)) refl (in_page 28 4 (omega arith) (omega arith))
      NoCalls all_open data_access_error (state_at 28) none-Answers all_open-Denies refl lw_Trap

at_entry : AtWord tool_regions (entry_state (bin_data addi_bytes))
at_entry = record { aligned = refl; mapped = in_code_block 0 4 (omega arith) (omega arith) }

-- `yeti_main V a.bin`.
main-Follows_example :
    (r : Result Bool × Vm) × (main true 3 addi_path ([] ∷ (b'V' ∷ []) ∷ (b'a' ∷ []) ∷ [])
      ≡ done (has_run (outcome_of r)))
    × ToolRun (bin_data addi_bytes) 3 r
main-Follows_example =
    main-Follows true true addi_path (bin_data addi_bytes) [] [] (b'a' ∷ []) [] 3 addi_file at_entry
