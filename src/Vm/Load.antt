-- ===== src/Vm/Load.antt =====
-- `set_program(hex_file)` of vm_basic.cxx.
use yeti_vm.Base.{ℕ, ◌+◌, ◌%◌, ◌^◌, Bool, true, false, ◌&&◌, not, none, some, List, [], ◌∷◌}
use yeti_vm.Base.{◌==◌, if◌then◌else◌, length}
use yeti_vm.Base.Exec.{Exec, ok, pure, ◌>>=◌}
use yeti_vm.Memory.Block
use yeti_vm.Memory.Mmu.{find_block}
use yeti_vm.Hex.Record.{HexRecord, get_type, is_valid, get_extend, get_start}
use yeti_vm.Hex.Record.{
  hex_data, hex_eof, hex_segment_extend, hex_segment_start, hex_linear_extend, hex_linear_start,
  hex_unknown,
}
use yeti_vm.Vm.State.{Vm}
use yeti_vm.Vm.Setup.{have_code_flag, pc_initialized, is_flag_set, init_pc, stored}

-- `std::vector::data` of an empty vector may be a null pointer or not.
module _ (null_data : Bool) where
  abbrev pub has_data : List ℕ → Bool
  has_data bytes = not (length bytes == 0 && null_data)

  -- The case of a data record: whether its bytes are stored.
  unfoldable pub load_data : ℕ → List ℕ → Exec Vm Bool
  load_data address bytes vm = elim (find_block vm.mmu address (length bytes)) [
    | none ↦ (ok false, vm)
    | some block ↦
        if has_data bytes then stored vm (Block.store block address bytes) else (ok false, vm)
  ]

  -- The rest of the loop is run where the record is loaded.
  abbrev pub if_ok : Exec Vm Bool → Bool → Exec Vm Bool
  if_ok rest true = rest
  if_ok rest false = pure false

  abbrev pub init_pc_of : ℕ → Exec Vm Bool
  init_pc_of pc_value vm = let (vm', result) = init_pc pc_value vm in (ok result, vm')

  -- The loop, with the offset of the next data and the entry point so far.
  unfoldable pub load_records : ℕ → ℕ → List HexRecord → Exec Vm Bool
  load_records offset pc_value [] = pure false
  load_records offset pc_value (r ∷ rs) =
      if is_valid r
      then elim (get_type r) [
        | hex_data ↦
            load_data ((offset + r.offset) % 2 ^ 32) r.bytes
            >>= if_ok (load_records offset pc_value rs)
        | hex_eof ↦ init_pc_of pc_value
        | hex_segment_start ↦ load_records offset (get_start r) rs
        | hex_linear_start ↦ load_records offset (get_start r) rs
        | hex_segment_extend ↦ load_records (get_extend r) pc_value rs
        | hex_linear_extend ↦ load_records (get_extend r) pc_value rs
        | hex_unknown ↦ pure false
      ]
      else pure false

  unfoldable pub set_program_hex : List HexRecord → Exec Vm Bool
  set_program_hex hex vm =
      if is_flag_set have_code_flag vm
      then if is_flag_set pc_initialized vm then (ok false, vm) else load_records 0 0 hex vm
      else (ok false, vm)
