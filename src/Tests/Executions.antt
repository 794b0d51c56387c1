-- ===== src/Tests/Executions.antt =====
-- The step relation on the machine of the tests, and a HEX program that runs to its end.
use mathlib.Core.List.Memᴰ.{head}
use yeti_vm.Base.{
  ℕ, ◌+◌, ◌*◌, ◌^◌, ◌<◌, ◌≤◌, ◌≡◌, refl, arith, true, false, some, suc, List, [], ◌∷◌,
}
use yeti_vm.Base.Exec.{ok}
use yeti_vm.Handler.Kinds
use yeti_vm.Hex.Record
use yeti_vm.Hex.Printer.{to_record}
use yeti_vm.Memory.Block.{done}
use yeti_vm.Memory.Params
use yeti_vm.Memory.Params.{Params}
use yeti_vm.Memory.Image.{peek, byte_of, value_at, patch}
use yeti_vm.Memory.Mmu.{find_block}
use yeti_vm.Vm.State.{Vm}
use yeti_vm.Vm.Access.{to_bytes}
use yeti_vm.Vm.Program.{Agree, image_of, entry_of}
use yeti_vm.Tool.RunVm.{ran}
use yeti_vm.Tool.Answers.{ToolCall, exit_number}
use yeti_vm.Tool.Main.{main, main-Asks, has_run}
use yeti_vm.Tool.Buffer.{filled}
use yeti_vm.Tool.Execution.{entry_state}
use yeti_vm.Tool.Prepare.{tool_regions}
use yeti_vm.Tool.Loader.{hex_data}
use yeti_vm.Isa.Manual.{at_pc}
use yeti_vm.Isa.Body.{Answers}
use yeti_vm.Isa.Represents.{Represents, arch}
use yeti_vm.Isa.Simulation.{Simulates, run_step-IsaStep}
use yeti_vm.Isa.Traces.{there, step, run-Trace, RunsTo, answered}
use yeti_vm.Isa.Arch.{Arch, InRegion, Asks, IsaStep, computes, advances, goes, stores, after_word}
use yeti_vm.Tests.Data.{vm_at, code_page, data_page}
use yeti_vm.Tests.Machines.{words, pages-IsMmu}
use yeti_vm.Tests.Cycles.{page_byte-lt}
use yeti_vm.Tests.Hex.{exit_path, exit_records, exit_file}

abbrev pub pages : List Params
pages = code_page.params ∷ data_page.params ∷ []

abbrev pub running_at : ℕ → Vm
running_at pc = record (vm_at pc) { running = true }

pub running_at-Represents :
    (pc : ℕ) → pc < 2 ^ 32 → Represents pages (running_at pc) (peek (vm_at 0).mmu)
running_at-Represents pc lt = record {
  mmu = pages-IsMmu;
  layout = refl;
  opcodes = refl;
  words = λ i. words pc i lt;
  bytes = λ a l. page_byte-lt a;
  same = λ a l. refl;
}

pub in_page : (a n : ℕ) → a < 4096 → a + n ≤ 4096 → InRegion pages a n
in_page a n lt le = record {
  region = code_page.params;
  member = head refl;
  within = (omega arith, omega arith, omega arith);
}

abbrev pub state_at : ℕ → Arch
state_at pc = arch (running_at pc) (peek (vm_at 0).mmu)

pub none-Answers : Answers (λ _ _. ⊥) pages []
none-Answers = record { answers = λ vm m t r e. absurd e }

-- `sb x2, 40(x0)`.
abbrev after_sb : Arch
after_sb = record {
  registers = at_pc (state_at 24).registers 28;
  memory = patch (peek (vm_at 0).mmu) 40 (to_bytes 1 7);
}

sb_IsaStep : IsaStep (λ _ _. ⊥) pages (state_at 24) after_sb
unfolding value_at peek byte_of find_block Params.in_range_size Params.in_range Params.offset
sb_IsaStep = record {
  aligned = refl;
  mapped = in_page 24 4 (omega arith) (omega arith);
  effect =
      advances _
        (stores Kinds.sb (record { opcode = refl; func3 = refl; func7 = tt }) refl
          (in_page 40 1 (omega arith) (omega arith)))
        (in_page 28 4 (omega arith) (omega arith));
}

run_step-IsaStep_example : Simulates [] pages (running_at 24) after_sb
run_step-IsaStep_example =
    run_step-IsaStep [] pages (running_at 24) (peek (vm_at 0).mmu)
      (running_at-Represents 24 (omega arith)) (λ _ _. ⊥) after_sb none-Answers sb_IsaStep

-- `addi x3, x1, -1` and `blt x1, x2, 8`.
abbrev after_addi : Arch
after_addi = after_word (state_at 12) 4

abbrev after_blt : Arch
after_blt = record after_addi { registers = at_pc after_addi.registers 24 }

addi_IsaStep : IsaStep (λ _ _. ⊥) pages (state_at 12) after_addi
unfolding value_at peek byte_of find_block Params.in_range_size Params.in_range Params.offset
addi_IsaStep = record {
  aligned = refl;
  mapped = in_page 12 4 (omega arith) (omega arith);
  effect =
      advances _
        (computes (Kinds.int_imm Kinds.addi) 4 (record { opcode = refl; func3 = refl; func7 = tt })
          refl)
        (in_page 16 4 (omega arith) (omega arith));
}

blt_IsaStep : IsaStep (λ _ _. ⊥) pages after_addi after_blt
unfolding value_at peek byte_of find_block Params.in_range_size Params.in_range Params.offset
blt_IsaStep = record {
  aligned = refl;
  mapped = in_page 16 4 (omega arith) (omega arith);
  effect =
      goes (Kinds.branch Kinds.blt) after_addi.registers 24
        (record { opcode = refl; func3 = refl; func7 = tt }) refl refl
        (in_page 24 4 (omega arith) (omega arith));
}

run-Trace_example : RunsTo [] (λ _ _. ⊥) pages after_blt none-Answers 2 (running_at 12)
run-Trace_example =
    run-Trace [] (λ _ _. ⊥) pages after_blt none-Answers (running_at 12) (peek (vm_at 0).mmu) 2
      (running_at-Represents 12 (omega arith)) refl
      (step 1 _ _ addi_IsaStep (step 0 _ _ blt_IsaStep there))

pub in_code_block : (a n : ℕ) → a < 4096 → a + n ≤ 4096 → InRegion tool_regions a n
in_code_block a n lt le = record {
  region = record { block_start = 0; block_size = 4 * 1024 * 1024 };
  member = head refl;
  within = (omega arith, omega arith, omega arith);
}

-- The second word that `read` writes.
filled_second : value_at (filled 2 (λ _. some 0) 40 0) 44 4 ≡ 16
unfolding value_at filled patch to_bytes
filled_second = refl

-- Behind `addi a7, x0, 10`, at the ecall.
abbrev at_exit : Arch
at_exit = after_word (entry_state (hex_data exit_records)) 10

load_exit_IsaStep :
    IsaStep (ToolCall tool_regions) tool_regions (entry_state (hex_data exit_records)) at_exit
unfolding value_at image_of entry_of patch to_record Record.get_type Record.type_of Record.get_start
    Record.is_start_linear
load_exit_IsaStep = record {
  aligned = refl;
  mapped = in_code_block 0 4 (omega arith) (omega arith);
  effect =
      advances _
        (computes (Kinds.int_imm Kinds.addi) 10 (record { opcode = refl; func3 = refl; func7 = tt })
          refl)
        (in_code_block 4 4 (omega arith) (omega arith));
}

exit_Asks : Asks tool_regions exit_number at_exit
unfolding value_at image_of entry_of patch to_record Record.get_type Record.type_of Record.get_start
    Record.is_start_linear
exit_Asks = record {
  aligned = refl;
  mapped = in_code_block 4 4 (omega arith) (omega arith);
  ecall = record { matches = record { opcode = refl; func3 = refl; func7 = tt }; immediate = refl };
  asked = refl;
  next = in_code_block 8 4 (omega arith) (omega arith);
}

-- `yeti_main v exit.hex`.
abbrev exit_argv : List (List ℕ)
exit_argv = [] ∷ (b'v' ∷ []) ∷ (b'e' ∷ b'x' ∷ b'i' ∷ b't' ∷ []) ∷ []

main-Asks_example :
    (vm : Vm) × ((fuel : ℕ)
      → main true (1 + suc fuel) exit_path exit_argv ≡ done (has_run (ok (ran true), vm)))
    × (vm.registers ≡ answered at_exit.registers)
    × Agree (peek vm.mmu) at_exit.memory
main-Asks_example =
    main-Asks true false exit_path (hex_data exit_records) at_exit 1 [] []
      (b'e' ∷ b'x' ∷ b'i' ∷ b't' ∷ []) [] exit_file (step 0 _ _ load_exit_IsaStep there) exit_Asks
