-- ===== src/Vm/Binary.antt =====
-- What the loader of plain programs in vm_basic.cxx promises, on the byte map of the memory.
use mathlib.Core.List.{Memᴰ}
use yeti_vm.Base.{ℕ, ◌<◌, ◌≡◌, refl, ap, ◌∙◌, Bool, true, false, none, some, List}
use yeti_vm.Base.{if◌then◌else◌, length}
use yeti_vm.Base.Exec.{Result, ok}
use yeti_vm.Memory.Block
use yeti_vm.Memory.Params.{Params}
use yeti_vm.Memory.Contents.{Within}
use yeti_vm.Memory.Layout.{IsMmu}
use yeti_vm.Memory.Mmu.{find_block, replace_block}
use yeti_vm.Memory.Image.{peek, patch, peek-store}
use yeti_vm.Memory.Regions.{regions, store-regions}
use yeti_vm.Vm.State.{Vm}
use yeti_vm.Vm.Setup
use yeti_vm.Vm.Setup.{have_code_flag, pc_initialized, is_flag_set, set_flag, init_pc, stored}
use yeti_vm.Vm.Program.{Loaded}

-- The machine with an initial program counter.
abbrev with_pc : ℕ → Vm → Vm
with_pc address vm = set_flag pc_initialized (record vm { initial_pc = address })

init_pc_lem :
    (address : ℕ) (vm : Vm)
    → is_flag_set pc_initialized vm ≡ false
    → init_pc address vm ≡ (with_pc address vm, true)
unfolding init_pc
init_pc_lem address vm pc = rw pc refl

-- `set_program` from the test of `init_pc` on.
abbrev store_program : List ℕ → Vm × Bool → Result Bool × Vm
store_program bin r =
    if r.1
    then elim (find_block r.0.mmu r.0.code_base (length bin)) [
      | none ↦ (ok false, r.0)
      | some code ↦ stored r.0 (Block.store code r.0.code_base bin)
    ]
    else (ok false, r.0)

-- In a machine that has its code block, a well-formed memory unit and no program yet, `set_program`
-- of bytes, one at least, that are within one region from the base of the code on returns true. The
-- memory keeps its regions, and its byte at every address is the program's, or else the one before;
-- the initial program counter is the one that is given. Nothing else changes but the flag of the
-- program counter.
pub set_program-Loaded :
    (bin : List ℕ) (pc_value : ℕ) (p : Params) (vm : Vm)
    → is_flag_set have_code_flag vm ≡ true
    → is_flag_set pc_initialized vm ≡ false
    → IsMmu vm.mmu
    → Memᴰ p (regions vm.mmu)
    → 0 < length bin
    → Within p vm.code_base (length bin)
    → Loaded (Setup.set_program bin pc_value) pc_value (patch (peek vm.mmu) vm.code_base bin) vm
unfolding Setup.set_program set_flag
set_program-Loaded bin pc_value p vm code pc w m pos within =
    let x = store-regions vm.mmu p vm.code_base bin w m pos within in
    record {
      mmu = replace_block vm.mmu x.block';
      returns = rw code (
          ap (store_program bin) (init_pc_lem pc_value vm pc)
          ∙ rw x.found (ap (stored (with_pc pc_value vm)) x.stores));
      IsMmu_after = x.IsMmu_after;
      regions_after = x.regions_after;
      image_after =
          peek-store vm.mmu vm.code_base bin x.block x.block' w x.address_lt x.found x.stores;
    }
