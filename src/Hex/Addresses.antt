-- ===== src/Hex/Addresses.antt =====
-- What the format of Intel HEX says of the types and the address bytes of a record, to hold
-- `get_type`, `get_extend` and `get_start` of vm_utility.cxx against.
use yeti_vm.Base.{
  ℕ, zero, suc, ◌+◌, ◌*◌, ◌^◌, ◌≡◌, ◌⊎◌, inl, inr, refl, arith, true, false, ◌||◌, bit_or, List, [],
  ◌∷◌, String, All, ◌∙◌,
}
use yeti_vm.Base.{◌==◌, if◌then◌else◌, length, Bool-cases}
use yeti_vm.BitTools.Fields.{bit_or_above}
use yeti_vm.Hex.Printer.{IsByte}
use yeti_vm.Hex.Record.{HexRecord, type_of, get_type_name, get_extend, get_start}
use yeti_vm.Hex.Record.{is_extend_segment, is_extend_linear, is_start_segment, is_start_linear}

-- What an address of two bytes is multiplied by, by the type of the record: 2 for segments, 4 for
-- the upper half of linear addresses.
abbrev pub unit_of : ℕ → ℕ
unit_of type = if type == 2 then 16 else if type == 4 then 65536 else 0

-- The two bytes, the high one first.
abbrev pub base_of : List ℕ → ℕ
base_of (high ∷ low ∷ []) = high * 256 + low
base_of _ = 0

-- The offset of the data after a record of two bytes; 0 where it has not two.
abbrev pub extension_of : HexRecord → ℕ
extension_of r = base_of r.bytes * unit_of r.type

abbrev pub number_of : List ℕ → ℕ
number_of (a ∷ b ∷ c ∷ d ∷ []) = ((a * 256 + b) * 256 + c) * 256 + d
number_of _ = 0

-- The four bytes of a start record as one number, the highest first; 0 where it has not four.
abbrev pub start_of : HexRecord → ℕ
start_of r = number_of r.bytes

-- What the code joins by shifts.
two_bytes : (a b : ℕ) → IsByte b → bit_or (a * 2 ^ 8) b ≡ a * 256 + b
two_bytes a b v = bit_or_above 8 a b v

four_bytes :
    (a b c d : ℕ)
    → IsByte b
    → IsByte c
    → IsByte d
    → bit_or (bit_or (bit_or (a * 2 ^ 24) (b * 2 ^ 16)) (c * 2 ^ 8)) d
      ≡ ((a * 256 + b) * 256 + c) * 256 + d
four_bytes a b c d vb vc vd =
    let e₁ : bit_or (a * 2 ^ 24) (b * 2 ^ 16) ≡ (a * 256 + b) * 2 ^ 16 =
      bit_or_above 24 a (b * 2 ^ 16) (omega (arith, vb)) ∙ omega arith in
    let e₂ : bit_or ((a * 256 + b) * 2 ^ 16) (c * 2 ^ 8) ≡ ((a * 256 + b) * 256 + c) * 2 ^ 8 =
      bit_or_above 16 (a * 256 + b) (c * 2 ^ 8) (omega (arith, vc)) ∙ omega arith in
    rw (e₁, e₂) (bit_or_above 8 ((a * 256 + b) * 256 + c) d vd)

-- A record of these fields.
abbrev of_fields : ℕ → ℕ → ℕ → ℕ → ℕ → List ℕ → HexRecord
of_fields count type expected actual offset bytes = record {
  count = count;
  type = type;
  sum_expected = expected;
  sum_actual = actual;
  offset = offset;
  bytes = bytes;
}

extend_fields :
    (n t e s o : ℕ) (bytes : List ℕ)
    → All IsByte bytes
    → get_extend (of_fields n t e s o bytes) ≡ extension_of (of_fields n t e s o bytes)
unfolding get_extend is_extend_segment is_extend_linear
extend_fields n t e s o [] v = omega arith
extend_fields n t e s o (a ∷ []) v = omega arith
extend_fields n t e s o (a ∷ b ∷ []) (va, (vb, w)) =
    let z = two_bytes a b vb in
    elim (Bool-cases (t == 2)) [
      | inl p ↦ rw (p, z) (omega (arith, va, vb))
      | inr p ↦ elim (Bool-cases (t == 4)) [
        | inl q ↦ rw (p, q, z) (omega (arith, va, vb))
        | inr q ↦ rw (p, q) (omega arith)
      ]
    ]
extend_fields n t e s o (a ∷ b ∷ c ∷ rest) v =
    let long : (suc (suc (suc (length rest))) == 2) ≡ false = ground arith in rw long (omega arith)

-- For records of every type.
pub get_extend_lem : (r : HexRecord) → All IsByte r.bytes → get_extend r ≡ extension_of r
get_extend_lem r v = extend_fields r.count r.type r.sum_expected r.sum_actual r.offset r.bytes v

start_fields :
    (n t e s o : ℕ) (bytes : List ℕ)
    → All IsByte bytes
    → ((t == 5) || (t == 3)) ≡ true
    → get_start (of_fields n t e s o bytes) ≡ start_of (of_fields n t e s o bytes)
unfolding get_start is_start_segment is_start_linear
start_fields n t e s o [] v k = refl
start_fields n t e s o (a ∷ []) v k = refl
start_fields n t e s o (a ∷ b ∷ []) v k = refl
start_fields n t e s o (a ∷ b ∷ c ∷ []) v k = refl
start_fields n t e s o (a ∷ b ∷ c ∷ d ∷ []) (va, (vb, (vc, (vd, w)))) k =
    rw k (four_bytes a b c d vb vc vd)
start_fields n t e s o (a ∷ b ∷ c ∷ d ∷ x ∷ rest) v k =
    let long : (suc (suc (suc (suc (suc (length rest))))) == 4) ≡ false = ground arith in
    rw long refl

pub get_start_lem :
    (r : HexRecord) → All IsByte r.bytes → (r.type ≡ 3) ⊎ (r.type ≡ 5) → get_start r ≡ start_of r
get_start_lem r v k =
    start_fields r.count r.type r.sum_expected r.sum_actual r.offset r.bytes v (ground (arith, k))

-- The name of a type by its number.
abbrev pub name_of : ℕ → String
name_of type =
    if type == 0
    then "HEX_DATA"
    else if type == 1
    then "HEX_EOF"
    else if type == 2
    then "HEX_SEGMENT_EXTEND"
    else if type == 3
    then "HEX_SEGMENT_START"
    else if type == 4
    then "HEX_LINEAR_EXTEND"
    else if type == 5
    then "HEX_LINEAR_START"
    else "HEX_UNKNOWN"

pub get_type_name_lem : (type : ℕ) → get_type_name (type_of type) ≡ name_of type
unfolding get_type_name type_of
get_type_name_lem zero = refl
get_type_name_lem (suc zero) = refl
get_type_name_lem (suc (suc zero)) = refl
get_type_name_lem (suc (suc (suc zero))) = refl
get_type_name_lem (suc (suc (suc (suc zero)))) = refl
get_type_name_lem (suc (suc (suc (suc (suc zero))))) = refl
get_type_name_lem (suc (suc (suc (suc (suc (suc n)))))) =
    let e0 : (suc (suc (suc (suc (suc (suc n))))) == 0) ≡ false = ground arith in
    let e1 : (suc (suc (suc (suc (suc (suc n))))) == 1) ≡ false = ground arith in
    let e2 : (suc (suc (suc (suc (suc (suc n))))) == 2) ≡ false = ground arith in
    let e3 : (suc (suc (suc (suc (suc (suc n))))) == 3) ≡ false = ground arith in
    let e4 : (suc (suc (suc (suc (suc (suc n))))) == 4) ≡ false = ground arith in
    let e5 : (suc (suc (suc (suc (suc (suc n))))) == 5) ≡ false = ground arith in
    rw (e0, e1, e2, e3, e4, e5) refl
