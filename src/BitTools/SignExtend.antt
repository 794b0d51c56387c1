-- ===== src/BitTools/SignExtend.antt =====
-- Sign extension and arithmetic shifts, at every width and position.
use yeti_vm.Base.{ℕ, zero, suc, ◌+◌, ◌-◌, ◌*◌, ◌/◌, ◌%◌, ◌^◌, ◌≤◌, ◌<◌, bit_or}
use yeti_vm.Base.{
  ◌≡◌, arith, ap, sym, ◌∙◌, false, lt→ltb, le→ltb_false, le→leb, lt→leb_false, ltb, leb, ◌==◌,
  if◌then◌else◌,
}
use yeti_vm.Base.Int.{shr_ℤ}
use yeti_vm.BitTools.{
  extend_sign, extend_sign_msb, countl_zero, arithmetic_shift, to_signed, to_unsigned,
}
use yeti_vm.BitTools.Digits.{bit_or-zero}
use yeti_vm.BitTools.Fields.{bit_or-join, bit_or_ones}
use native.Mathlib.Nat.{
  pow-suc, one-le-pow, mod-lt, mod-eq_of_lt, div-add-mod', add-mul-mod_self_right, add-zero,
  add-suc, div-lt_iff_lt-mul, div-eq_of_lt-le, zero-div, zero-mod, zero-mul, mul_comm,
  mul-le-mul_left, pow-le-pow_right, le-div_iff_mul-le,
}

-- 2 ^ (a + b), for the numbers that a tactic takes for unknowns.
pub pow-add : (a b : ℕ) → 2 ^ (a + b) ≡ 2 ^ a * 2 ^ b
pow-add a zero = rw add-zero (omega arith)
pow-add a (suc b) = rw (add-suc, pow-suc, pow-suc, pow-add a b) (omega arith)

pub suc-sub-one : (n : ℕ) → suc n - 1 ≡ n
suc-sub-one n = omega arith

-- The sign word: its top bit is bit `position` of the code, the rest is 0.
sign_word : (w c : ℕ) → c * 2 ^ w % 2 ^ suc w ≡ c % 2 * 2 ^ w
sign_word w c =
    let regroup : (c / 2 * 2 + c % 2) * 2 ^ w ≡ c % 2 * 2 ^ w + c / 2 * 2 ^ suc w =
      rw pow-suc (omega arith) in
    let e : c * 2 ^ w ≡ c % 2 * 2 ^ w + c / 2 * 2 ^ suc w =
      ap (λ (t : ℕ). t * 2 ^ w) (sym (div-add-mod' c 2)) ∙ regroup in
    rw (e, add-mul-mod_self_right) (mod-eq_of_lt (grind (arith, pow-suc 2 w, one-le-pow w 2)))

-- Ones from `p` upwards, as a difference of powers.
pub ones_times : (p k : ℕ) → (2 ^ suc k - 1) * 2 ^ p + 2 ^ p ≡ 2 ^ (p + suc k)
ones_times p k =
    let e : (2 ^ suc k - 1 + 1) * 2 ^ p ≡ 2 ^ p * 2 ^ suc k =
      rw mul_comm (ap (λ (t : ℕ). 2 ^ p * t) (omega (arith, one-le-pow (suc k) 2))) in
    omega (arith, e, pow-add p (suc k))

-- What the shift back to the right leaves of it: ones from `p` upwards.
ones_from :
    (p k : ℕ)
    → to_unsigned (p + suc k) (shr_ℤ (to_signed (p + suc k) (1 * 2 ^ (p + k))) k)
      ≡ (2 ^ suc k - 1) * 2 ^ p
unfolding to_unsigned to_signed shr_ℤ
ones_from p k =
    let P : 0 < 2 ^ p = one-le-pow p 2 (omega arith) in
    let K : 0 < 2 ^ k = one-le-pow k 2 (omega arith) in
    let whole : 2 ^ (p + suc k) ≡ 2 * (2 ^ p * 2 ^ k) =
      omega (arith, pow-add p (suc k), ap (λ (t : ℕ). 2 ^ p * t) (pow-suc 2 k)) in
    let top : 2 ^ (p + suc k - 1) ≡ 2 ^ p * 2 ^ k = rw (add-suc, suc-sub-one) (pow-add p k) in
    let quotient : (2 ^ (p + suc k) - 1 - 1 * 2 ^ (p + k)) / 2 ^ k ≡ 2 ^ p - 1 =
      div-eq_of_lt-le (2 ^ k) (grind (arith, whole, pow-add p k))
        (grind (arith, whole, pow-add p k)) in
    let small : 2 ^ p - 1 < 2 ^ (p + suc k) = grind (arith, whole) in
    rw
      (
        le→ltb_false (1 * 2 ^ (p + k)) (2 ^ (p + suc k - 1)) (omega (arith, top, pow-add p k)),
        quotient,
        mod-eq_of_lt small,
      )
      (omega (arith, ones_times p k))

no_ones :
    (p k : ℕ) → to_unsigned (p + suc k) (shr_ℤ (to_signed (p + suc k) (0 * 2 ^ (p + k))) k) ≡ 0
unfolding to_unsigned to_signed shr_ℤ
no_ones p k =
    rw
      (lt→ltb (0 * 2 ^ (p + k)) (2 ^ (p + suc k - 1)) (omega (arith, one-le-pow (p + suc k - 1) 2)))
      (omega (arith, zero-mul (2 ^ (p + k)), zero-div (2 ^ k), zero-mod (2 ^ (p + suc k))))

or_ones_from :
    (p k code : ℕ)
    → code < 2 ^ (p + suc k)
    → bit_or code ((2 ^ suc k - 1) * 2 ^ p) ≡ (2 ^ suc k - 1) * 2 ^ p + code % 2 ^ p
or_ones_from p k code fits =
    let pos : 0 < 2 ^ p = one-le-pow p 2 (omega arith) in
    let high : code / 2 ^ p < 2 ^ suc k =
      (div-lt_iff_lt-mul pos).1 (omega (arith, pow-add p (suc k))) in
    ground (
      arith,
      bit_or-join p (code / 2 ^ p) (code % 2 ^ p) (2 ^ suc k - 1) 0 (mod-lt code pos) pos,
      bit_or_ones (suc k) (code / 2 ^ p) high,
      bit_or-zero (code % 2 ^ p),
      div-add-mod' code (2 ^ p),
    )

-- A word whose bits from `p` upwards are replaced by bit `p`, if that is set.
pub extend_sign_lem :
    (p k code : ℕ)
    → code < 2 ^ (p + suc k)
    → extend_sign (p + suc k) p code
      ≡ (if code / 2 ^ p % 2 == 1 then (2 ^ suc k - 1) * 2 ^ p + code % 2 ^ p else code)
unfolding extend_sign
extend_sign_lem p k code fits = rw (split, distance) (select (code / 2 ^ p % 2) (omega arith))
  where
    top : p + suc k - 1 ≡ p + k
    top = omega arith

    distance : p + suc k - 1 - p ≡ k
    distance = omega arith

    split : code / 2 ^ p * 2 ^ (p + suc k - 1) % 2 ^ (p + suc k) ≡ code / 2 ^ p % 2 * 2 ^ (p + k)
    split = rw (top, add-suc) (sign_word (p + k) (code / 2 ^ p))

    select :
        (b : ℕ)
        → b < 2
        → bit_or code (to_unsigned (p + suc k) (shr_ℤ (to_signed (p + suc k) (b * 2 ^ (p + k))) k))
          ≡ (if b == 1 then (2 ^ suc k - 1) * 2 ^ p + code % 2 ^ p else code)
    select zero h = rw (no_ones p k) (bit_or-zero code)
    select (suc zero) h = rw (ones_from p k) (or_ones_from p k code fits)
    select (suc (suc b)) h = absurd (omega arith)

-- The top bit of a word is what `countl_zero` finds.
countl_zero_lem :
    (p k code : ℕ) → 2 ^ p ≤ code → code < 2 ^ suc p → countl_zero (p + suc k) code ≡ k
unfolding countl_zero
countl_zero_lem p zero code lo hi = rw (add-suc, le→leb (2 ^ (p + 0)) code (rw add-zero lo))
countl_zero_lem p (suc k) code lo hi =
    let over : code < 2 ^ (p + suc k) =
      omega
        (arith, pow-le-pow_right {n = 2} (omega arith) {i = suc p} {j = p + suc k} (omega arith)) in
    rw (add-suc, lt→leb_false (2 ^ (p + suc k)) code over, countl_zero_lem p k code lo hi)

pub extend_sign_msb_lem :
    (p k code : ℕ)
    → p + suc k < 256
    → 2 ^ p ≤ code
    → code < 2 ^ suc p
    → extend_sign_msb (p + suc k) code ≡ (2 ^ suc k - 1) * 2 ^ p + (code - 2 ^ p)
unfolding extend_sign_msb
extend_sign_msb_lem p k code small lo hi =
    rw (countl_zero_lem p k code lo hi, position, within)
      (rw (extend_sign_lem p k code fits, high, low))
  where
    position : (p + suc k + 256 - k - 1) % 256 ≡ p
    position = omega arith

    within : leb (p + suc k) p ≡ false
    within = ground arith

    fits : code < 2 ^ (p + suc k)
    fits =
        omega
          (arith, pow-le-pow_right {n = 2} (omega arith) {i = suc p} {j = p + suc k} (omega arith))

    high : code / 2 ^ p ≡ 1
    high = div-eq_of_lt-le (2 ^ p) (omega arith) (omega (arith, pow-suc 2 p))

    low : code % 2 ^ p ≡ code - 2 ^ p
    low = omega (arith, div-add-mod' code (2 ^ p), ap (λ (t : ℕ). t * 2 ^ p) high)

-- Filling the shifted word from its own top bit is the arithmetic shift of a negative word.
pub extend_sign_msb-shr :
    (p k v : ℕ)
    → p + suc k < 256
    → 2 ^ (p + k) ≤ v
    → v < 2 ^ (p + suc k)
    → extend_sign_msb (p + suc k) (v / 2 ^ k) ≡ arithmetic_shift (p + suc k) v k
unfolding arithmetic_shift
extend_sign_msb-shr p k v small lo hi =
    rw (extend_sign_msb_lem p k (v / 2 ^ k) small q_lo q_hi, negative, quotient, mod-eq_of_lt fits)
      (omega (arith, ones_times p k, pow-suc 2 p, q_lo, q_hi, fits, P))
  where
    P : 0 < 2 ^ p
    P = one-le-pow p 2 (omega arith)

    K : 0 < 2 ^ k
    K = one-le-pow k 2 (omega arith)

    whole : 2 ^ (p + suc k) ≡ 2 * (2 ^ p * 2 ^ k)
    whole = omega (arith, pow-add p (suc k), ap (λ (t : ℕ). 2 ^ p * t) (pow-suc 2 k))

    q_lo : 2 ^ p ≤ v / 2 ^ k
    q_lo = (le-div_iff_mul-le K).1 (omega (arith, pow-add p k))

    q_hi : v / 2 ^ k < 2 ^ suc p
    q_hi = (div-lt_iff_lt-mul K).1 (grind (arith, whole, pow-suc 2 p))

    negative : ltb v (2 ^ (p + suc k - 1)) ≡ false
    negative = rw (add-suc, suc-sub-one) (le→ltb_false v (2 ^ (p + k)) lo)

    rest : (2 ^ suc p - 1 - v / 2 ^ k) * 2 ^ k + (v / 2 ^ k * 2 ^ k + 2 ^ k) ≡ 2 ^ (p + suc k)
    rest =
        let e : (2 ^ suc p - 1 - v / 2 ^ k + (v / 2 ^ k + 1)) * 2 ^ k ≡ 2 ^ suc p * 2 ^ k =
          ap (λ (t : ℕ). t * 2 ^ k) (omega (arith, q_hi)) in
        omega (arith, e, whole, ap (λ (t : ℕ). t * 2 ^ k) (pow-suc 2 p))

    quotient : (2 ^ (p + suc k) - 1 - v) / 2 ^ k ≡ 2 ^ suc p - 1 - v / 2 ^ k
    quotient =
        div-eq_of_lt-le (2 ^ k) (omega (arith, rest, div-add-mod' v (2 ^ k), mod-lt v K))
          (omega (arith, rest, div-add-mod' v (2 ^ k), mod-lt v K))

    fits : 2 ^ suc p - 1 - v / 2 ^ k < 2 ^ (p + suc k)
    fits = omega (arith, P, pow-suc 2 p, mul-le-mul_left (2 ^ p) K, whole)
