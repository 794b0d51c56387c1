-- ===== src/Tool/ViewHex.antt =====
-- tools/view_hex.cxx: the lines that it shows of a HEX file, without the padding of their columns.
use yeti_vm.Base.{
  ℕ, suc, ◌+◌, ◌/◌, ◌%◌, ◌≡◌, refl, ap, arith, Bool, true, false, List, [], ◌∷◌, ◌++◌, String,
}
use yeti_vm.Base.{ltb, if◌then◌else◌, length}
use yeti_vm.Memory.Block.{Access, done, refused, undefined}
use yeti_vm.Hex.Digits.{from_hex}
use yeti_vm.Hex.Record.{HexRecord, get_type, get_type_name, is_valid}
use yeti_vm.Hex.Files.{FilePath, IsFile, get_lines, parse_hex_path, parse_hex_path-IsFile}
use yeti_vm.Hex.Addresses.{name_of, get_type_name_lem}
use yeti_vm.Hex.Printer.{Frame, IsFrame, to_record, print_digit, print_bytes}
use yeti_vm.Hex.RoundTrip.{HexText, parse_hex-HexText, from_hex-print_bytes}

-- `std::format("{:02X}", byte)`
abbrev pub byte_text : ℕ → List ℕ
byte_text byte = print_digit (byte / 16) ∷ print_digit (byte % 16) ∷ []

-- `to_hex(record)`
unfoldable pub data_text : List ℕ → List ℕ
data_text [] = []
data_text (byte ∷ bytes) = byte_text byte ++ data_text bytes

-- The columns; the offset is shown by its hexadecimal digits.
pub record Row : Type 0 where
  pub no : ℕ
  pub type : String
  pub count : ℕ
  pub offset : ℕ
  pub valid : Bool
  pub text : List ℕ

unfoldable pub row_of : ℕ → HexRecord → Row
row_of idx r = record {
  no = idx;
  type = get_type_name (get_type r);
  count = r.count;
  offset = r.offset;
  valid = is_valid r;
  text = data_text r.bytes;
}

-- The loop, from a number on.
unfoldable pub rows_of : ℕ → List HexRecord → List Row
rows_of idx [] = []
rows_of idx (r ∷ rs) = row_of idx r ∷ rows_of (idx + 1) rs

-- How it returns: two messages, or the rows.
pub data ViewResult : Type 0 where
  usage unable_load : ViewResult
  shown : List Row → ViewResult

abbrev pub view_records : Access (List HexRecord) → Access ViewResult
view_records (done records) = done (shown (rows_of 1 records))
view_records refused = done unable_load
view_records undefined = undefined

abbrev pub view_file : FilePath → Access ViewResult
view_file file = view_records (parse_hex_path file)

-- `main`, with what the path `argv[1]` names.
unfoldable pub view_hex : FilePath → List (List ℕ) → Access ViewResult
view_hex file argv = if ltb (length argv) 2 then done usage else view_file file

data_text-print_bytes : (bytes : List ℕ) → data_text bytes ≡ print_bytes bytes
unfolding data_text print_bytes
data_text-print_bytes [] = refl
data_text-print_bytes (b ∷ bs) = ap (λ (t : List ℕ). byte_text b ++ t) (data_text-print_bytes bs)

-- The row of a record shows its number, the name of its type, its size, its offset, that it is
-- valid, and its bytes.
pub record Shows (num : ℕ) (r : HexRecord) (row : Row) : Type 0 where
  pub numbered : row.no ≡ num
  pub named : row.type ≡ name_of r.type
  pub counted : row.count ≡ length r.bytes
  pub placed : row.offset ≡ r.offset
  pub valid : row.valid ≡ true
  pub text : from_hex row.text ≡ r.bytes

-- The rows show the records, in their order, numbered from a number on.
abbrev pub AllShow : ℕ → List HexRecord → List Row → Type 0
AllShow num [] [] = Unit
AllShow num [] (row ∷ rows) = ⊥
AllShow num (r ∷ rs) [] = ⊥
AllShow num (r ∷ rs) (row ∷ rows) = Shows num r row × AllShow (suc num) rs rows

row_of-Shows :
    (idx num : ℕ) (f : Frame)
    → IsFrame f
    → idx ≡ num
    → Shows num (to_record f) (row_of idx (to_record f))
unfolding row_of to_record is_valid get_type
row_of-Shows idx num f v e = record {
  numbered = e;
  named = get_type_name_lem f.type;
  counted = refl;
  placed = refl;
  valid = ground arith;
  text = rw (data_text-print_bytes f.bytes) (from_hex-print_bytes f.bytes v.bytes_lt);
}

rows_of-AllShow :
    (idx num : ℕ) (lines : List (List ℕ)) (rs : List HexRecord)
    → HexText lines rs
    → idx ≡ num
    → AllShow num rs (rows_of idx rs)
unfolding rows_of
rows_of-AllShow idx num _ _ (HexText.comment line ls rs e t) k = rows_of-AllShow idx num ls rs t k
rows_of-AllShow idx num _ _ (HexText.frame f ls rs v ne t) k =
    (row_of-Shows idx num f v k, rows_of-AllShow (idx + 1) (suc num) ls rs t (omega (arith, k)))
rows_of-AllShow idx num _ _ (HexText.end_of_file f rest v e) k = (row_of-Shows idx num f v k, tt)

-- Of a file that can be read and whose lines are a HEX text view_hex shows a row for each record,
-- in their order and numbered from 1, with the name of its type, the number of its bytes, its
-- offset, that it is valid, and digits that are read back as its bytes.
pub view_hex-HexText :
    (extension : String) (bytes : List ℕ) (file : FilePath) (rs : List HexRecord)
    (name path : List ℕ) (rest : List (List ℕ))
    → IsFile extension bytes file
    → HexText (get_lines bytes) rs
    → (rows : List Row) × (view_hex file (name ∷ path ∷ rest) ≡ done (shown rows))
      × AllShow 1 rs rows
unfolding view_hex
view_hex-HexText extension bytes file rs name path rest i t =
    let few : ltb (length (name ∷ path ∷ rest)) 2 ≡ false = ground arith in
    (
      rows_of 1 rs,
      rw (few, parse_hex_path-IsFile extension bytes file i)
          (rw (parse_hex-HexText (get_lines bytes) rs t) refl),
      rows_of-AllShow 1 1 (get_lines bytes) rs t refl,
    )
