-- ===== src/Disasm/Numbers.antt =====
-- Numbers as the text that disassembly shows: `to_hex` of vm_opcode.hxx and `std::to_string`.
use yeti_vm.Base.{
  ℕ, zero, suc, ◌+◌, ◌-◌, ◌*◌, ◌/◌, ◌%◌, ◌^◌, ◌<◌, ◌≡◌, refl, sym, ap, ◌∙◌, arith, false, inl, inr,
  List, [], ◌∷◌, ◌++◌, All, All-append,
}
use yeti_vm.Base.{ltb, ◌==◌, if◌then◌else◌, Bool-cases}
use yeti_vm.Base.Int.{ℤ, pos, negsuc}
use yeti_vm.BitTools.{to_signed, to_unsigned}
use yeti_vm.Handler.Immediate.{to_unsigned-to_signed}
use yeti_vm.Hex.Digits.{from_hex_digit, in_range}
use native.Mathlib.Nat.{pow-suc}

unfoldable pub digit : ℕ → ℕ
digit d = if ltb d 10 then b'0' + d else b'a' + (d - 10)

-- The lowest digits of a number, as many as said.
unfoldable pub hex : ℕ → ℕ → List ℕ
hex zero num = []
hex (suc count) num = hex count (num / 16) ++ (digit (num % 16) ∷ [])

-- `std::format("{:08x}", num)` of a word.
abbrev pub to_hex : ℕ → List ℕ
to_hex num = hex 8 num

-- The digits of a number, without zeros before them.
unfoldable pub decimal : ℕ → ℕ → List ℕ
decimal zero num = []
decimal (suc count) num =
    let rest = decimal count (num / 10) in
    if ltb num 10 then digit num ∷ [] else rest ++ (digit (num % 10) ∷ [])

-- `std::to_string` of a number of 32 bits, which has ten digits at most.
unfoldable pub to_string : ℤ → List ℕ
to_string (pos n) = decimal 10 n
to_string (negsuc n) = b'-' ∷ decimal 10 (suc n)

-- What the digits stand for.
value : ℕ → ℕ → List ℕ → ℕ
value base acc [] = acc
value base acc (c ∷ cs) = value base (acc * base + from_hex_digit c) cs

value-append :
    (base acc : ℕ) (cs : List ℕ) (c : ℕ)
    → value base acc (cs ++ (c ∷ [])) ≡ value base acc cs * base + from_hex_digit c
unfolding value
value-append base acc [] c = refl
value-append base acc (x ∷ xs) c = value-append base (acc * base + from_hex_digit x) xs c

from_hex_digit-digit : (d : ℕ) → d < 16 → from_hex_digit (digit d) ≡ d
unfolding from_hex_digit in_range digit
from_hex_digit-digit d lt = ground arith

value-hex : (count num : ℕ) → num < 16 ^ count → value 16 0 (hex count num) ≡ num
unfolding hex value
value-hex zero num lt = omega arith
value-hex (suc count) num lt =
    let ih = value-hex count (num / 16) (omega (arith, pow-suc 16 count)) in
    value-append 16 0 (hex count (num / 16)) (digit (num % 16))
    ∙ omega (arith, ih, from_hex_digit-digit (num % 16) (omega arith))

value-decimal : (count num : ℕ) → num < 10 ^ count → value 10 0 (decimal count num) ≡ num
unfolding decimal value
value-decimal zero num lt = omega arith
value-decimal (suc count) num lt = elim (Bool-cases (ltb num 10)) [
  | inl e ↦
      let small : num < 16 = ground (arith, e) in
      rw e (omega (arith, from_hex_digit-digit num small))
  | inr e ↦
      let ih = value-decimal count (num / 10) (omega (arith, pow-suc 10 count)) in
      rw e (
        value-append 10 0 (decimal count (num / 10)) (digit (num % 10))
        ∙ omega (arith, ih, from_hex_digit-digit (num % 10) (omega arith)))
]

-- No comma, and no sign.
abbrev pub IsPlain : ℕ → Type 0
IsPlain c = ((c == b',') ≡ false) × ((c == b'-') ≡ false)

digit-IsPlain : (d : ℕ) → d < 16 → IsPlain (digit d)
unfolding digit
digit-IsPlain d lt = (ground arith, ground arith)

hex-IsPlain : (count num : ℕ) → All IsPlain (hex count num)
unfolding hex
hex-IsPlain zero num = tt
hex-IsPlain (suc count) num =
    All-append IsPlain (hex count (num / 16)) (digit (num % 16) ∷ []) (hex-IsPlain count (num / 16))
      (digit-IsPlain (num % 16) (omega arith), tt)

decimal-IsPlain : (count num : ℕ) → All IsPlain (decimal count num)
unfolding decimal
decimal-IsPlain zero num = tt
decimal-IsPlain (suc count) num = elim (Bool-cases (ltb num 10)) [
  | inl e ↦ let small : num < 16 = ground (arith, e) in rw e (digit-IsPlain num small, tt)
  | inr e ↦ rw e (
      All-append IsPlain (decimal count (num / 10)) (digit (num % 10) ∷ [])
        (decimal-IsPlain count (num / 10)) (digit-IsPlain (num % 10) (omega arith), tt))
]

-- The number that a text shows, a sign before it or not.
negated : ℕ → ℤ
negated zero = pos 0
negated (suc n) = negsuc n

shown : List ℕ → ℤ
shown [] = pos 0
shown (c ∷ cs) = if c == b'-' then negated (value 10 0 cs) else pos (value 10 0 (c ∷ cs))

shown-IsPlain : (cs : List ℕ) → All IsPlain cs → shown cs ≡ pos (value 10 0 cs)
unfolding shown value
shown-IsPlain [] h = refl
shown-IsPlain (c ∷ cs) ((p, q), h) = rw q refl

word_shown : (w : ℕ) → w < 2 ^ 32 → shown (to_string (to_signed 32 w)) ≡ to_signed 32 w
unfolding to_signed to_string shown negated
word_shown w lt = elim (Bool-cases (ltb w (2 ^ 31))) [
  | inl e ↦ rw e (
      shown-IsPlain (decimal 10 w) (decimal-IsPlain 10 w)
      ∙ ap pos (value-decimal 10 w (omega arith)))
  | inr e ↦ rw e (ap negated (value-decimal 10 (suc (2 ^ 32 - 1 - w)) (omega arith)))
]

-- A word is known from either text.
pub to_string-injective :
    (v w : ℕ)
    → v < 2 ^ 32
    → w < 2 ^ 32
    → to_string (to_signed 32 v) ≡ to_string (to_signed 32 w)
    → v ≡ w
to_string-injective v w p q e =
    let s : to_signed 32 v ≡ to_signed 32 w = sym (word_shown v p) ∙ ap shown e ∙ word_shown w q in
    sym (to_unsigned-to_signed v p) ∙ ap (to_unsigned 32) s ∙ to_unsigned-to_signed w q

pub to_hex-injective : (v w : ℕ) → v < 2 ^ 32 → w < 2 ^ 32 → to_hex v ≡ to_hex w → v ≡ w
to_hex-injective v w p q e = sym (value-hex 8 v p) ∙ ap (value 16 0) e ∙ value-hex 8 w q

pub amount-injective : (v w : ℕ) → v < 32 → w < 32 → to_string (pos v) ≡ to_string (pos w) → v ≡ w
unfolding to_string
amount-injective v w p q e =
    sym (value-decimal 10 v (omega arith)) ∙ ap (value 10 0) e ∙ value-decimal 10 w (omega arith)
