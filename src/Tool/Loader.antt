-- ===== src/Tool/Loader.antt =====
-- `load_helper` of tools/yeti_main.cxx.
use Prim.Native.Nat.{Ordering}
use Prim.Native.String.{compare}
use yeti_vm.Base.{ℕ, String, Bool, true, false, Option, none, some, List, [], ◌∷◌}
use yeti_vm.Base.{if◌then◌else◌}
use yeti_vm.Base.Exec.{Exec, pure}
use yeti_vm.Memory.Block.{Access, done, refused, undefined}
use yeti_vm.Hex.Record.{HexRecord}
use yeti_vm.Hex.Files.{FilePath, load_program, parse_hex_path}
use yeti_vm.Vm.State.{Vm}
use yeti_vm.Vm.Setup
use yeti_vm.Vm.Load

-- `program_data`
pub data ProgramData : Type 0 where
  bin_data : List ℕ → ProgramData
  hex_data : List HexRecord → ProgramData
  null_data : ProgramData

unfoldable pub is_bin : ProgramData → Bool
is_bin (bin_data bytes) = true
is_bin _ = false

unfoldable pub is_hex : ProgramData → Bool
is_hex (hex_data records) = true
is_hex _ = false

unfoldable pub is_null : ProgramData → Bool
is_null null_data = true
is_null _ = false

unfoldable pub is_empty : ProgramData → Bool
is_empty (bin_data []) = true
is_empty (bin_data (b ∷ bs)) = false
is_empty (hex_data []) = true
is_empty (hex_data (r ∷ rs)) = false
is_empty null_data = true

abbrev pub is_extension : String → String → Bool
is_extension s t = elim (compare s t) [ Ordering.eq ↦ true | _ ↦ false ]

abbrev pub of_code : Option (List ℕ) → ProgramData
of_code none = null_data
of_code (some code) = bin_data code

abbrev pub of_records : Access (List HexRecord) → Access ProgramData
of_records (done records) = done (hex_data records)
of_records refused = done null_data
of_records undefined = undefined

-- The data that `load_file` leaves; it returns whether they are not null.
unfoldable pub load_file : FilePath → Access ProgramData
load_file file =
    if is_extension file.extension ".bin"
    then done (of_code (load_program file))
    else if is_extension file.extension ".hex"
    then of_records (parse_hex_path file)
    else done null_data

-- The first argument is what `data()` of an empty vector is, as in `set_program` of a HEX program.
unfoldable pub set_program : Bool → ProgramData → ℕ → Exec Vm Bool
set_program null program pc_value = if is_empty program then pure false else elim program [
  | bin_data bytes ↦ Setup.set_program bytes pc_value
  | hex_data records ↦ Load.set_program_hex null records
  | null_data ↦ pure false
]
