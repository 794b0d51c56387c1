-- ===== src/Tool/Prepare.antt =====
-- The machine that tools/yeti_main.cxx prepares for a program.
use yeti_vm.Base.{ℕ, ◌≡◌, refl, arith, Bool, true, List, [], ◌∷◌}
use yeti_vm.Handler.Lookup.{isa, isa_ok}
use yeti_vm.Handler.Registry.{HandlerRegistry, empty_registry}
use yeti_vm.Memory.Params
use yeti_vm.Memory.Params.{Params}
use yeti_vm.Memory.Block
use yeti_vm.Memory.Block.{Block, done}
use yeti_vm.Memory.Mmu
use yeti_vm.Memory.Mmu.{Mmu, find_block}
use yeti_vm.Memory.Layout.{IsMmu}
use yeti_vm.Memory.Regions.{regions}
use yeti_vm.Vm.State.{Vm, new_vm, def_code_base, def_data_base, def_code_size, def_data_size}
use yeti_vm.Vm.Setup
use yeti_vm.Vm.Setup.{start}
use yeti_vm.Tool.RunVm.{prepare}

abbrev pub code_block : Block
code_block = record {
  params = record { block_start = def_code_base; block_size = def_code_size };
  bytes = λ _. 0;
}

abbrev pub data_block : Block
data_block = record {
  params = record { block_start = def_data_base; block_size = def_data_size };
  bytes = λ _. 0;
}

abbrev pub tool_mmu : Mmu
tool_mmu = code_block ∷ data_block ∷ []

pub tool_mmu-IsMmu : IsMmu tool_mmu
tool_mmu-IsMmu = (
  record { size_pos = omega arith; end_lt = omega arith; small = omega arith },
  (omega arith, tt),
  (record { size_pos = omega arith; end_lt = omega arith; small = omega arith }, tt, tt),
)

-- A machine as its constructor leaves it, but for the parts that are set up.
abbrev machine : ℕ → HandlerRegistry → Mmu → Bool → Vm
machine flags opcodes mmu debug = record new_vm {
  init_flags = flags;
  opcodes = opcodes;
  mmu = mmu;
  debugging = debug;
}

-- The machine that `run_vm` prepares.
abbrev pub tool_vm : Bool → Vm
tool_vm debug = machine 7 isa tool_mmu debug

init_isa_lem :
    (debug : Bool)
    → Setup.init_isa (machine 0 empty_registry [] debug) ≡ (machine 4 isa [] debug, true)
unfolding Setup.init_isa Setup.set_flag
init_isa_lem debug = rw (isa_ok.0, isa_ok.1) refl

module _ (r : HandlerRegistry) (debug : Bool) where
  code_added :
      Setup.add_code_block def_code_base def_code_size (machine 4 r [] debug)
      ≡ (machine 5 r (code_block ∷ []) debug, true)
  unfolding Setup.add_code_block Setup.add_memory Setup.is_flag_set Setup.set_flag Mmu.add_block
      Mmu.overlaps_any Mmu.try_emplace Block.generic_memory
  code_added = refl

  data_added :
      Setup.add_data_block def_data_base def_data_size (machine 5 r (code_block ∷ []) debug)
      ≡ (machine 7 r tool_mmu debug, true)
  unfolding Setup.add_data_block Setup.add_memory Setup.is_flag_set Setup.set_flag Mmu.add_block
      Mmu.overlaps_any Mmu.try_emplace Params.is_overlap Params.in_range Block.generic_memory
  data_added = refl

  init_memory_lem : Setup.init_memory (machine 4 r [] debug) ≡ (machine 7 r tool_mmu debug, true)
  unfolding Setup.init_memory Setup.init_memory_sizes Setup.set_ro_size Setup.set_rw_size
      Setup.is_flag_set
  init_memory_lem = rw code_added (rw data_added refl)

pub prepare_lem : (debug : Bool) → prepare debug ≡ (tool_vm debug, true)
unfolding prepare
prepare_lem debug = rw (init_isa_lem debug) (rw (init_memory_lem isa debug) refl)

abbrev pub tool_regions : List Params
tool_regions = regions tool_mmu
