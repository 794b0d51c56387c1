-- ===== src/Handler/Muldiv.antt =====
-- The operations of RV32M against the instruction set manual: products, quotients and remainders of
-- the integers that the words stand for.
use yeti_vm.Base.{
  ℕ, suc, ◌+◌, ◌-◌, ◌*◌, ◌/◌, ◌%◌, ◌^◌, ◌≤◌, ◌<◌, ◌≡◌, refl, arith, ap, sym, Bool, true, false, not,
  ◌&&◌, none, some,
}
use yeti_vm.Base.{ltb, ◌==◌, if◌then◌else◌, Bool-cases, inl, inr}
use yeti_vm.Base.Int.{ℤ, eqb_ℤ, pos, negsuc, sub_ℕ, ◌*ℤ◌, shr_ℤ, quot_ℤ, rem_ℤ}
use yeti_vm.BitTools.{to_signed, to_unsigned}
use yeti_vm.BitTools.Fields.{bit_and_ones}
use native.Mathlib.Nat.{div-le_self, mod-le}
use yeti_vm.Handler.Kinds.{Math, mul, mulh, mulhsu, mulhu, div, divu, rem, remu}
use yeti_vm.Handler.Rv32m.{calculate, signed_min, fits_signed, low_word, low_word_u}

-- The low word of a result of 64 bits.
low_word_lem : (z : ℤ) → low_word z ≡ to_unsigned 32 z
unfolding to_unsigned
low_word_lem (pos n) = omega (arith, bit_and_ones 32 (n % 2 ^ 64))
low_word_lem (negsuc n) = omega (arith, bit_and_ones 32 (2 ^ 64 - 1 - n % 2 ^ 64))

low_word_u_lem : (n : ℕ) → n < 2 ^ 32 → low_word_u n ≡ n
low_word_u_lem n h = omega (arith, bit_and_ones 32 n)

-- Congruent differences give the same word.
to_unsigned-sub_ℕ :
    (a b x k j : ℕ) → a + k * 2 ^ 32 ≡ x + b + j * 2 ^ 32 → to_unsigned 32 (sub_ℕ a b) ≡ x % 2 ^ 32
unfolding to_unsigned
to_unsigned-sub_ℕ a b x k j e = ground arith

-- The size of a negative word.
abbrev size : ℕ → ℕ
size v = suc (2 ^ 32 - 1 - v)

size-add : (v : ℕ) → v < 2 ^ 32 → size v + v ≡ 2 ^ 32
size-add v h = omega arith

size-mul : (v t : ℕ) → v < 2 ^ 32 → size v * t + v * t ≡ t * 2 ^ 32
size-mul v t h = omega (arith, ap (λ (x : ℕ). x * t) (size-add v h))

size-size :
    (l r : ℕ)
    → l < 2 ^ 32
    → r < 2 ^ 32
    → size l * size r + (l + r) * 2 ^ 32 ≡ l * r + 2 ^ 32 * 2 ^ 32
size-size l r hl hr =
    let a : size l * size r + l * size r ≡ size r * 2 ^ 32 = size-mul l (size r) hl in
    let b : size r * l + r * l ≡ l * 2 ^ 32 = size-mul r l hr in omega (arith, a, b)

-- The product of the signed readings is congruent to that of the words.
product :
    (l r : ℕ)
    → l < 2 ^ 32
    → r < 2 ^ 32
    → to_unsigned 32 (to_signed 32 l *ℤ to_signed 32 r) ≡ l * r % 2 ^ 32
unfolding ◌*ℤ◌ to_signed
product l r hl hr = elim (Bool-cases (ltb l (2 ^ 31))) [
  | inl p ↦ elim (Bool-cases (ltb r (2 ^ 31))) [
    | inl q ↦
        rw (p, q) (to_unsigned-sub_ℕ (l * r + 0 * 0) (l * 0 + 0 * r) (l * r) 0 0 (omega arith))
    | inr q ↦
        rw (p, q)
          (to_unsigned-sub_ℕ (l * 0 + 0 * size r) (l * size r + 0 * 0) (l * r) l 0
            (omega (arith, size-mul r l hr)))
  ]
  | inr p ↦ elim (Bool-cases (ltb r (2 ^ 31))) [
    | inl q ↦
        rw (p, q)
          (to_unsigned-sub_ℕ (0 * r + size l * 0) (0 * 0 + size l * r) (l * r) r 0
            (omega (arith, size-mul l r hl)))
    | inr q ↦
        rw (p, q)
          (to_unsigned-sub_ℕ (0 * 0 + size l * size r) (0 * size r + size l * 0) (l * r) (l + r)
            (2 ^ 32) (omega (arith, size-size l r hl hr)))
  ]
]

-- What the manual says of each operation, on the integers `l` and `r` of the words.
unfoldable pub muldiv : Math → ℕ → ℕ → ℕ
muldiv mul l r = l * r % 2 ^ 32
muldiv mulh l r = to_unsigned 32 (shr_ℤ (to_signed 32 l *ℤ to_signed 32 r) 32)
muldiv mulhsu l r = to_unsigned 32 (shr_ℤ (to_signed 32 l *ℤ pos r) 32)
muldiv mulhu l r = l * r / 2 ^ 32
muldiv div l r =
    if r == 0 then 2 ^ 32 - 1 else to_unsigned 32 (quot_ℤ (to_signed 32 l) (to_signed 32 r))
muldiv divu l r = if r == 0 then 2 ^ 32 - 1 else l / r
muldiv rem l r = if r == 0 then l else to_unsigned 32 (rem_ℤ (to_signed 32 l) (to_signed 32 r))
muldiv remu l r = if r == 0 then l else l % r

abbrev pub overflows : Math → ℕ → ℕ → Bool
overflows mul l r = not (fits_signed 32 (to_signed 32 l *ℤ to_signed 32 r))
overflows _ l r = false

pub mul-lt-mul : {l r m n : ℕ} → l < m → r < n → l * r < m * n
mul-lt-mul p q = grind arith

mulhu_lem :
    (l r : ℕ) → l < 2 ^ 32 → r < 2 ^ 32 → low_word_u (l * r % 2 ^ 64 / 2 ^ 32) ≡ l * r / 2 ^ 32
mulhu_lem l r hl hr =
    let below : l * r < 2 ^ 32 * 2 ^ 32 = mul-lt-mul hl hr in
    omega (arith, below, bit_and_ones 32 (l * r % 2 ^ 64 / 2 ^ 32))

top : (l : ℕ) → l < 2 ^ 32 → 2 ^ 64 - 1 - (2 ^ 32 - 1 - l) + size l ≡ 2 ^ 64
top l h = omega arith

ltb_false→le : (a b : ℕ) → ltb a b ≡ false → b ≤ a
ltb_false→le a b h = ground arith

mulhsu_lem :
    (l r : ℕ)
    → l < 2 ^ 32
    → r < 2 ^ 32
    → low_word_u (to_unsigned 64 (to_signed 32 l) * r % 2 ^ 64 / 2 ^ 32)
      ≡ to_unsigned 32 (shr_ℤ (to_signed 32 l *ℤ pos r) 32)
unfolding to_unsigned to_signed ◌*ℤ◌ shr_ℤ
mulhsu_lem l r hl hr = elim (Bool-cases (ltb l (2 ^ 31))) [
  | inl p ↦
      let below : l * r < 2 ^ 32 * 2 ^ 32 = mul-lt-mul hl hr in
      rw p (ground (arith, bit_and_ones 32 (l * r % 2 ^ 64 / 2 ^ 32)))
  | inr p ↦
      let below : size l * r < 2 ^ 32 * 2 ^ 32 =
        mul-lt-mul {m = 2 ^ 32} (omega (arith, ltb_false→le l (2 ^ 31))) hr in
      let whole : (2 ^ 64 - 1 - (2 ^ 32 - 1 - l)) * r + size l * r ≡ r * 2 ^ 64 =
        omega (arith, ap (λ (t : ℕ). t * r) (top l hl)) in
      rw p (ground (arith, bit_and_ones 32 ((2 ^ 64 - 1 - (2 ^ 32 - 1 - l)) * r % 2 ^ 64 / 2 ^ 32)))
]

-- The operands of the one quotient that does not fit.
at_overflow :
    (l r : ℕ)
    → l < 2 ^ 32
    → r < 2 ^ 32
    → (eqb_ℤ (to_signed 32 l) signed_min && eqb_ℤ (to_signed 32 r) (negsuc 0)) ≡ true
    → (l ≡ 2 ^ 31) × (r ≡ 2 ^ 32 - 1)
unfolding to_signed
at_overflow l r hl hr e = ground arith

quotient_at_overflow :
    to_unsigned 32 (quot_ℤ (to_signed 32 (2 ^ 31)) (to_signed 32 (2 ^ 32 - 1))) ≡ 2 ^ 31
unfolding to_unsigned to_signed quot_ℤ
quotient_at_overflow = refl

remainder_at_overflow :
    to_unsigned 32 (rem_ℤ (to_signed 32 (2 ^ 31)) (to_signed 32 (2 ^ 32 - 1))) ≡ 0
unfolding to_unsigned to_signed rem_ℤ
remainder_at_overflow = refl

module _ (l r : ℕ) (hl : l < 2 ^ 32) (hr : r < 2 ^ 32) where
  -- Every operation computes what the manual says, but for a product of `mul` that does not fit a
  -- signed word, which is undefined.
  pub calculate-muldiv :
      (op : Math) → calculate op l r ≡ (if overflows op l r then none else some (muldiv op l r))
  unfolding calculate muldiv
  calculate-muldiv mul =
      ground (arith, low_word_lem (to_signed 32 l *ℤ to_signed 32 r), product l r hl hr)
  calculate-muldiv mulh = ap some (low_word_lem _)
  calculate-muldiv mulhsu = ap some (mulhsu_lem l r hl hr)
  calculate-muldiv mulhu = ap some (mulhu_lem l r hl hr)
  calculate-muldiv div =
      elim (Bool-cases (eqb_ℤ (to_signed 32 l) signed_min && eqb_ℤ (to_signed 32 r) (negsuc 0))) [
        | inl o ↦
            let (el, er) = at_overflow l r hl hr o in
            rw o (rw (el, er) (ap some (sym quotient_at_overflow)))
        | inr o ↦ rw (o, low_word_lem)
      ]
  calculate-muldiv divu = ground (arith, low_word_u_lem (l / r), div-le_self l r)
  calculate-muldiv rem =
      elim (Bool-cases (eqb_ℤ (to_signed 32 l) signed_min && eqb_ℤ (to_signed 32 r) (negsuc 0))) [
        | inl o ↦
            let (el, er) = at_overflow l r hl hr o in
            rw o (rw (el, er) (ap some (sym remainder_at_overflow)))
        | inr o ↦ rw (o, low_word_lem)
      ]
  calculate-muldiv remu = ground (arith, low_word_u_lem (l % r), mod-le l r)
