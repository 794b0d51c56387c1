-- ===== src/Hex/Printer.antt =====
-- The text of a record by the Intel HEX format, as a description to hold the reader against.
use yeti_vm.Base.{ℕ, ◌+◌, ◌-◌, ◌/◌, ◌%◌, ◌<◌, ◌^◌, List, [], ◌∷◌, ◌++◌}
use yeti_vm.Base.{ltb, if◌then◌else◌, length, All}
use yeti_vm.Hex.Record.{HexRecord}

-- What a line carries. Its count and its checksum follow from this.
pub record Frame : Type 0 where
  pub offset : ℕ
  pub type : ℕ
  pub bytes : List ℕ

abbrev pub IsByte : ℕ → Type 0
IsByte b = b < 2 ^ 8

pub record IsFrame (f : Frame) : Type 0 where
  pub offset_lt : f.offset < 2 ^ 16
  pub type_lt : IsByte f.type
  pub bytes_lt : All IsByte f.bytes
  pub length_lt : IsByte (length f.bytes)

unfoldable pub print_digit : ℕ → ℕ
print_digit d = if ltb d 10 then b'0' + d else b'A' + (d - 10)

unfoldable pub print_bytes : List ℕ → List ℕ
print_bytes [] = []
print_bytes (b ∷ bs) = print_digit (b / 16) ∷ print_digit (b % 16) ∷ print_bytes bs

unfoldable pub sum_of : List ℕ → ℕ
sum_of [] = 0
sum_of (b ∷ bs) = b + sum_of bs

abbrev pub frame_bytes : Frame → List ℕ
frame_bytes f = length f.bytes ∷ f.offset / 2 ^ 8 ∷ f.offset % 2 ^ 8 ∷ f.type ∷ f.bytes

-- The byte that brings the sum of a line to a multiple of 256.
unfoldable pub checksum : List ℕ → ℕ
checksum bytes = (2 ^ 8 - sum_of bytes % 2 ^ 8) % 2 ^ 8

unfoldable pub print_frame : Frame → List ℕ
print_frame f = b':' ∷ print_bytes (frame_bytes f ++ (checksum (frame_bytes f) ∷ []))

-- The record of a frame.
unfoldable pub to_record : Frame → HexRecord
to_record f = record {
  count = length f.bytes;
  type = f.type;
  sum_expected = checksum (frame_bytes f);
  sum_actual = checksum (frame_bytes f);
  offset = f.offset;
  bytes = f.bytes;
}
