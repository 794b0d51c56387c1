-- ===== src/Hex/RoundTrip.antt =====
-- The reader of vm_utility.cxx on printed records.
use yeti_vm.Base.{ℕ, ◌+◌, ◌*◌, ◌/◌, ◌%◌, ◌^◌, ◌<◌, ◌≡◌, refl, ap, arith, List, [], ◌∷◌, ◌++◌}
use yeti_vm.Base.{
  length, drop, All, All-append, init-append, last_or-append, take-append, length-append, le→leb,
  none, some, le→ltb_false, ≢→==_false, ◌≢◌,
}
use yeti_vm.BitTools.Fields.{bit_or_above}
use yeti_vm.Hex.Digits.{from_hex_digit, join_digits, from_hex}
use yeti_vm.Hex.Record.{HexRecord, is_eof, parse_hex_record, read_record}
use yeti_vm.Hex.File.{
  from_colon, record_size, min_record_size, to_access, parse_from_colon, parse_line, next_record,
  cons_record, parse_hex,
}
use yeti_vm.Memory.Block.{done}
use yeti_vm.Hex.Printer.{
  Frame, IsFrame, IsByte, print_digit, print_bytes, frame_bytes, checksum, print_frame, to_record,
}
use yeti_vm.Hex.Sums.{hex_checksum_lem, checksum-lt}

pub from_hex_digit-print_digit : (d : ℕ) → d < 16 → from_hex_digit (print_digit d) ≡ d
unfolding from_hex_digit print_digit
from_hex_digit-print_digit d h = ground arith

pub join_digits-print :
    (b : ℕ)
    → IsByte b
    → join_digits (from_hex_digit (print_digit (b / 16))) (from_hex_digit (print_digit (b % 16)))
      ≡ b
join_digits-print b h =
    rw
      (
        from_hex_digit-print_digit (b / 16) (omega arith),
        from_hex_digit-print_digit (b % 16) (omega arith),
      )
      (omega (arith, bit_or_above 4 (b / 16) (b % 16) (omega arith)))

pub from_hex-print_bytes : (bs : List ℕ) → All IsByte bs → from_hex (print_bytes bs) ≡ bs
unfolding from_hex print_bytes
from_hex-print_bytes [] p = refl
from_hex-print_bytes (b ∷ bs) (p, ps) =
    rw (join_digits-print b p, from_hex-print_bytes bs ps) (ap (λ (t : ℕ). t ∷ bs) (omega arith))

frame_bytes-IsByte : (f : Frame) → IsFrame f → All IsByte (frame_bytes f)
frame_bytes-IsByte f v =
    (v.length_lt, (omega (arith, v.offset_lt), (omega arith, (v.type_lt, v.bytes_lt))))

read_record-print :
    (f : Frame)
    → IsFrame f
    → read_record (frame_bytes f ++ (checksum (frame_bytes f) ∷ [])) ≡ some (to_record f)
unfolding read_record to_record
read_record-print f v =
    let bs = frame_bytes f in
    let c = checksum bs in
    rw
      (
        le→leb 4 (length (bs ++ (c ∷ []))) (omega (arith, length-append bs (c ∷ []))),
        le→leb (4 + length f.bytes) (length (bs ++ (c ∷ [])))
            (omega (arith, length-append bs (c ∷ []))),
        last_or-append bs c 0,
        init-append bs c,
        hex_checksum_lem bs,
        take-append f.bytes (c ∷ []),
        bit_or_above 8 (f.offset / 2 ^ 8) (f.offset % 2 ^ 8) (omega arith),
      )
      (ap (λ (o : ℕ). some (record (to_record f) { offset = o })) (omega arith))

pub parse_hex_record-print :
    (f : Frame) → IsFrame f → parse_hex_record (drop 1 (print_frame f)) ≡ some (to_record f)
unfolding parse_hex_record print_frame
parse_hex_record-print f v =
    let bs = frame_bytes f in
    let c = checksum bs in
    rw
      (from_hex-print_bytes (bs ++ (c ∷ []))
        (All-append IsByte bs (c ∷ []) (frame_bytes-IsByte f v) (checksum-lt bs, tt)))
      (read_record-print f v)

length-print_bytes : (bs : List ℕ) → length (print_bytes bs) ≡ 2 * length bs
unfolding print_bytes
length-print_bytes [] = refl
length-print_bytes (b ∷ bs) = omega (arith, length-print_bytes bs)

length-print_frame : (f : Frame) → length (print_frame f) ≡ 11 + 2 * length f.bytes
unfolding print_frame print_bytes
length-print_frame f =
    let c = checksum (frame_bytes f) in
    omega (
      arith,
      length-print_bytes (frame_bytes f ++ (c ∷ [])),
      length-append (frame_bytes f) (c ∷ []),
    )

record_size-print : (f : Frame) → IsFrame f → record_size (print_frame f) ≡ 11 + length f.bytes
unfolding print_frame print_bytes
record_size-print f v = rw (join_digits-print (length f.bytes) v.length_lt) refl

pub parse_line-print :
    (f : Frame) → IsFrame f → parse_line (print_frame f) ≡ some (done (to_record f))
unfolding parse_line parse_from_colon from_colon to_access print_frame
parse_line-print f v =
    let n : ℕ = length (print_frame f) in
    rw
      (
        le→ltb_false n min_record_size (omega (arith, length-print_frame f)),
        le→ltb_false n 3 (omega (arith, length-print_frame f)),
        le→ltb_false n (record_size (print_frame f))
            (omega (arith, length-print_frame f, record_size-print f v)),
        parse_hex_record-print f v,
      )
      refl

-- The lines of a file and the records they carry: lines without a colon stand for nothing, and
-- what follows the record of type 1 is not read.
pub data HexText : List (List ℕ) → List HexRecord → Type 0 where
  comment :
      (line : List ℕ) (ls : List (List ℕ)) (rs : List HexRecord)
      → from_colon line ≡ none
      → HexText ls rs
      → HexText (line ∷ ls) rs
  frame :
      (f : Frame) (ls : List (List ℕ)) (rs : List HexRecord)
      → IsFrame f
      → f.type ≢ 1
      → HexText ls rs
      → HexText (print_frame f ∷ ls) (to_record f ∷ rs)
  end_of_file :
      (f : Frame) (rest : List (List ℕ))
      → IsFrame f
      → f.type ≡ 1
      → HexText (print_frame f ∷ rest) (to_record f ∷ [])

parse_line-comment : (line : List ℕ) → from_colon line ≡ none → parse_line line ≡ none
unfolding parse_line
parse_line-comment line e = rw (parse_line, e) refl

-- The lines of a HEX text, which print records by the format, mixed with lines without a colon, up
-- to a record of type EOF, are read back as those records; what follows the EOF record is not
-- read.
pub parse_hex-HexText :
    (lines : List (List ℕ)) (records : List HexRecord)
    → HexText lines records
    → parse_hex lines ≡ done records
unfolding parse_hex next_record cons_record is_eof to_record
parse_hex-HexText _ _ (comment line ls rs e t) =
    rw (parse_line-comment line e) (parse_hex-HexText ls rs t)
parse_hex-HexText _ _ (frame f ls rs v ne t) =
    rw (parse_line-print f v, ≢→==_false f.type 1 ne, parse_hex-HexText ls rs t) refl
parse_hex-HexText _ _ (end_of_file f rest v e) = rw (parse_line-print f v, e) refl
