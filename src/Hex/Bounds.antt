-- ===== src/Hex/Bounds.antt =====
-- What `parse_hex_record` and `parse_hex` read of a line, and what they make of its checksum.
use yeti_vm.Base.{
  ℕ, suc, zero, ◌+◌, ◌-◌, ◌/◌, ◌%◌, ◌^◌, ◌<◌, ◌≤◌, ◌≡◌, ◌↔◌, refl, sym, subst, ap, arith, List, [],
  ◌∷◌, true,
}
use yeti_vm.Base.{length, drop, take, init, last_or, get_or, All, le→ltb_false, some}
use yeti_vm.Memory.Block.{undefined}
use yeti_vm.Hex.Digits.{from_hex_digit, join_digits, from_hex}
use yeti_vm.Hex.Record.{HexRecord, is_valid, parse_hex_record, read_record, read_fields}
use yeti_vm.Hex.File.{record_size, to_access, parse_from_colon}
use yeti_vm.Hex.Printer.{IsByte, sum_of, checksum}
use yeti_vm.Hex.Sums.{hex_checksum_lem}

length-from_hex : (hex : List ℕ) → length (from_hex hex) ≡ length hex / 2
unfolding from_hex
length-from_hex [] = omega arith
length-from_hex (c ∷ []) = omega arith
length-from_hex (hi ∷ lo ∷ rest) = omega (arith, length-from_hex rest)

from_hex-IsByte : (hex : List ℕ) → All IsByte (from_hex hex)
unfolding from_hex
from_hex-IsByte [] = tt
from_hex-IsByte (c ∷ []) = tt
from_hex-IsByte (hi ∷ lo ∷ rest) = (omega arith, from_hex-IsByte rest)

-- The count that the characters of a line from its colon on spell, which may be above 255 where
-- they are no digits.
abbrev pub count_of : List ℕ → ℕ
count_of line = join_digits (from_hex_digit (get_or line 1 0)) (from_hex_digit (get_or line 2 0))

read_record-undefined_iff :
    (bytes : List ℕ)
    → 4 ≤ length bytes
    → (to_access (read_record bytes) ≡ undefined) ↔ (length bytes < 4 + get_or bytes 0 0)
unfolding read_record to_access
read_record-undefined_iff bytes h = ground arith

first-from_hex :
    (line : List ℕ) → 3 ≤ length line → get_or (from_hex (drop 1 line)) 0 0 ≡ count_of line % 2 ^ 8
unfolding from_hex
first-from_hex [] h = absurd (omega arith)
first-from_hex (a ∷ []) h = absurd (omega arith)
first-from_hex (a ∷ b ∷ []) h = absurd (omega arith)
first-from_hex (a ∷ b ∷ c ∷ line) h = refl

length-drop_one : (line : List ℕ) → length (drop 1 line) ≡ length line - 1
length-drop_one [] = omega arith
length-drop_one (a ∷ line) = omega arith

-- For a line from its colon on that passes the size test, parse_hex reads outside the vector of
-- the bytes of the line exactly when these are fewer than the count and the four bytes before the
-- data.
pub parse_from_colon-undefined_iff :
    (line : List ℕ)
    → record_size line ≤ length line
    → (parse_from_colon line ≡ undefined) ↔ ((length line - 1) / 2 < 4 + count_of line % 2 ^ 8)
unfolding parse_from_colon parse_hex_record
parse_from_colon-undefined_iff line h =
    let d = from_hex (drop 1 line) in
    let e : length d ≡ (length line - 1) / 2 =
      omega (arith, length-from_hex (drop 1 line), length-drop_one line) in
    rw
      (
        le→ltb_false (length line) 3 (omega arith),
        le→ltb_false (length line) (record_size line) h,
        sym e,
        sym (first-from_hex line (omega arith)),
      )
      (read_record-undefined_iff d (omega arith))

sum_of-last : (b : ℕ) (bs : List ℕ) → sum_of (b ∷ bs) ≡ sum_of (init (b ∷ bs)) + last_or (b ∷ bs) 0
unfolding sum_of
sum_of-last b [] = omega arith
sum_of-last b (c ∷ bs) = omega (arith, sum_of-last c bs)

last_or-IsByte : (b : ℕ) (bs : List ℕ) → IsByte b → All IsByte bs → IsByte (last_or (b ∷ bs) 0)
last_or-IsByte b [] p ps = p
last_or-IsByte b (c ∷ bs) p (q, ps) = last_or-IsByte c bs q ps

length-take-drop : (n k : ℕ) (bs : List ℕ) → k + n ≤ length bs → length (take n (drop k bs)) ≡ n
length-take-drop zero zero bs h = refl
length-take-drop (suc n) zero [] h = absurd (omega arith)
length-take-drop (suc n) zero (b ∷ bs) h = ap suc (length-take-drop n zero bs (omega arith))
length-take-drop zero (suc k) [] h = refl
length-take-drop (suc n) (suc k) [] h = absurd (omega arith)
length-take-drop n (suc k) (b ∷ bs) h = length-take-drop n k bs (omega arith)

checksum_iff :
    (bs : List ℕ)
    → 1 ≤ length bs
    → All IsByte bs
    → (checksum (init bs) ≡ last_or bs 0) ↔ (sum_of bs % 2 ^ 8 ≡ 0)
unfolding checksum
checksum_iff [] h ps = absurd (omega arith)
checksum_iff (b ∷ bs) h (p, ps) = ground (arith, sum_of-last b bs, last_or-IsByte b bs p ps)

read_record-some :
    (bytes : List ℕ) (r : HexRecord)
    → read_record bytes ≡ some r
    → (4 + get_or bytes 0 0 ≤ length bytes) × (read_fields bytes ≡ r)
unfolding read_record
read_record-some bytes r e = ground arith

read_fields-is_valid_iff :
    (bytes : List ℕ)
    → 4 + get_or bytes 0 0 ≤ length bytes
    → All IsByte bytes
    → (is_valid (read_fields bytes) ≡ true) ↔ (sum_of bytes % 2 ^ 8 ≡ 0)
unfolding is_valid read_fields
read_fields-is_valid_iff bytes h p = ground (
  arith,
  hex_checksum_lem (init bytes),
  length-take-drop (get_or bytes 0 0) 4 bytes h,
  checksum_iff bytes (omega arith) p,
)

-- A record that is parsed is valid exactly when the sum of all bytes of its line is a multiple of
-- 256.
pub parse_hex_record-is_valid_iff :
    (line : List ℕ) (r : HexRecord)
    → parse_hex_record line ≡ some r
    → (is_valid r ≡ true) ↔ (sum_of (from_hex line) % 2 ^ 8 ≡ 0)
unfolding parse_hex_record
parse_hex_record-is_valid_iff line r e =
    let (h, q) = read_record-some (from_hex line) r e in
    subst (λ (s : HexRecord). (is_valid s ≡ true) ↔ (sum_of (from_hex line) % 2 ^ 8 ≡ 0)) q
      (read_fields-is_valid_iff (from_hex line) h (from_hex-IsByte line))
