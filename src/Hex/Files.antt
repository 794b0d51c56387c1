-- ===== src/Hex/Files.antt =====
-- The parts of vm_utility.cxx that open a file: `load_program`, and `parse_hex` of a path. What the
-- path names is a parameter, as the file system and the streams of the library give it.
use yeti_vm.Base.{
  ℕ, zero, suc, ◌≡◌, refl, Bool, true, false, Option, none, some, List, [], ◌∷◌, String,
}
use yeti_vm.Base.{◌==◌, if◌then◌else◌, length}
use yeti_vm.Memory.Block.{Access, refused}
use yeti_vm.Hex.Record.{HexRecord}
use yeti_vm.Hex.File.{parse_hex}

-- The bytes are those that the stream gives until it ends. `read_fails` says that reading ends in
-- an error that is not the end of the file; `is_regular` and `opens` are the results of the tests.
pub record FilePath : Type 0 where
  pub extension : String
  pub is_regular : Bool
  pub file_size : ℕ
  pub opens : Bool
  pub bytes : List ℕ
  pub read_fails : Bool

-- A vector of that size and of zeros, after `read` of that many bytes at most.
unfoldable pub read_into : ℕ → List ℕ → List ℕ
read_into zero bytes = []
read_into (suc size) [] = 0 ∷ read_into size []
read_into (suc size) (byte ∷ bytes) = byte ∷ read_into size bytes

unfoldable pub load_program : FilePath → Option (List ℕ)
load_program file =
    if file.is_regular
    then if file.opens
      then if file.read_fails then none else some (read_into file.file_size file.bytes)
      else none
    else none

-- A character before the lines of what follows it.
abbrev pub cons_char : ℕ → List (List ℕ) → List (List ℕ)
cons_char c [] = (c ∷ []) ∷ []
cons_char c (line ∷ lines) = (c ∷ line) ∷ lines

-- The lines that `std::getline` gives, one after another.
unfoldable pub get_lines : List ℕ → List (List ℕ)
get_lines [] = []
get_lines (c ∷ cs) = let rest = get_lines cs in if c == b'\n' then [] ∷ rest else cons_char c rest

unfoldable pub parse_hex_path : FilePath → Access (List HexRecord)
parse_hex_path file =
    if file.is_regular
    then if file.opens then parse_hex (get_lines file.bytes) else refused
    else refused

-- A file that can be read, of a given extension and with given bytes.
pub record IsFile (extension : String) (bytes : List ℕ) (file : FilePath) : Type 0 where
  pub has_extension : file.extension ≡ extension
  pub regular : file.is_regular ≡ true
  pub size : file.file_size ≡ length bytes
  pub can_open : file.opens ≡ true
  pub has_bytes : file.bytes ≡ bytes
  pub can_read : file.read_fails ≡ false

read_into-length : (bytes : List ℕ) → read_into (length bytes) bytes ≡ bytes
unfolding read_into
read_into-length [] = refl
read_into-length (b ∷ bs) = rw (read_into-length bs) refl

-- The bytes of a file are its program.
pub load_program-IsFile :
    (extension : String) (bytes : List ℕ) (file : FilePath)
    → IsFile extension bytes file
    → load_program file ≡ some bytes
unfolding load_program
load_program-IsFile extension bytes file i =
    rw (i.regular, i.can_open, i.can_read, i.size, i.has_bytes) (rw (read_into-length bytes) refl)

pub parse_hex_path-IsFile :
    (extension : String) (bytes : List ℕ) (file : FilePath)
    → IsFile extension bytes file
    → parse_hex_path file ≡ parse_hex (get_lines bytes)
unfolding parse_hex_path
parse_hex_path-IsFile extension bytes file i = rw (i.regular, i.can_open, i.has_bytes) refl
