-- ===== src/BitTools/Fields.antt =====
-- `|` and `&` of words that are cut into fields, as arithmetic, at every position.
use yeti_vm.Base.{ℕ, zero, suc, ◌+◌, ◌-◌, ◌*◌, ◌/◌, ◌%◌, ◌^◌, ◌<◌, bit_and, bit_or, bit_xor}
use yeti_vm.Base.{◌≡◌, arith, ap}
use yeti_vm.BitTools.Digits.{
  bit_or-halve, bit_and-halve, bit_xor-halve, bit_or-zero, bit_and-zero, zero-bit_or, zero-bit_and,
  zero-bit_xor,
}
use native.Mathlib.Nat.{
  pow-suc, pow-succ', one-le-pow, mod-lt, div-div-eq-div-mul, div-add-mod, div-add-mod',
}

-- A word with the high part `h` above position `k` and the low part `l` below it.
abbrev pub join : ℕ → ℕ → ℕ → ℕ
join k h l = h * 2 ^ k + l

double : (k h : ℕ) → h * 2 ^ suc k ≡ 2 * (h * 2 ^ k)
double k h = omega (arith, ap (λ (t : ℕ). h * t) (pow-suc 2 k))

join-half : (k h l : ℕ) → join (suc k) h l / 2 ≡ join k h (l / 2)
join-half k h l = omega (arith, double k h)

join-odd : (k h l : ℕ) → join (suc k) h l % 2 ≡ l % 2
join-odd k h l = omega (arith, double k h)

half-lt : (k l : ℕ) → l < 2 ^ suc k → l / 2 < 2 ^ k
half-lt k l p = omega (arith, pow-suc 2 k)

-- Both operations act on the two parts by themselves.
pub bit_or-join :
    (k h l i m : ℕ)
    → l < 2 ^ k
    → m < 2 ^ k
    → bit_or (join k h l) (join k i m) ≡ join k (bit_or h i) (bit_or l m)
bit_or-join zero h l i m p q = ground (arith, bit_or-zero 0, ap (λ (t : ℕ). t) (bit_or-zero h))
bit_or-join (suc k) h l i m p q =
    rw
      (
        bit_or-halve (join (suc k) h l) (join (suc k) i m),
        join-half k h l,
        join-half k i m,
        join-odd k h l,
        join-odd k i m,
        bit_or-join k h (l / 2) i (m / 2) (half-lt k l p) (half-lt k m q),
      )
      (omega (arith, bit_or-halve l m, double k (bit_or h i)))

pub bit_and-join :
    (k h l i m : ℕ)
    → l < 2 ^ k
    → m < 2 ^ k
    → bit_and (join k h l) (join k i m) ≡ join k (bit_and h i) (bit_and l m)
bit_and-join zero h l i m p q = ground (arith, bit_and-zero 0)
bit_and-join (suc k) h l i m p q =
    rw
      (
        bit_and-halve (join (suc k) h l) (join (suc k) i m),
        join-half k h l,
        join-half k i m,
        join-odd k h l,
        join-odd k i m,
        bit_and-join k h (l / 2) i (m / 2) (half-lt k l p) (half-lt k m q),
      )
      (omega (arith, bit_and-halve l m, double k (bit_and h i)))

-- `a | b` is a sum where `b` lies below the lowest bit of `a`, in either order.
pub bit_or_above : (k h l : ℕ) → l < 2 ^ k → bit_or (h * 2 ^ k) l ≡ h * 2 ^ k + l
bit_or_above k h l p =
    ground
      (arith, bit_or-join k h 0 0 l (one-le-pow k 2 (omega arith)) p, bit_or-zero h, zero-bit_or l)

pub bit_or_below : (k h l : ℕ) → l < 2 ^ k → bit_or l (h * 2 ^ k) ≡ h * 2 ^ k + l
bit_or_below k h l p =
    ground
      (arith, bit_or-join k 0 l h 0 p (one-le-pow k 2 (omega arith)), zero-bit_or h, bit_or-zero l)

-- A field that lies between two others.
pub bit_or_between :
    (k j h m l : ℕ)
    → m < 2 ^ k
    → l < 2 ^ j
    → bit_or (h * 2 ^ k * 2 ^ j + l) (m * 2 ^ j) ≡ (h * 2 ^ k + m) * 2 ^ j + l
bit_or_between k j h m l p q = ground (
  arith,
  bit_or-join j (h * 2 ^ k) l m 0 q (one-le-pow j 2 (omega arith)),
  bit_or_above k h m p,
  bit_or-zero l,
)

ones-half : (k : ℕ) → (2 ^ suc k - 1) / 2 ≡ 2 ^ k - 1
ones-half k = omega (arith, pow-suc 2 k, one-le-pow k 2)

ones-odd : (k : ℕ) → (2 ^ suc k - 1) % 2 ≡ 1
ones-odd k = omega (arith, pow-suc 2 k, one-le-pow k 2)

-- Filling ones over a word that fits below them.
pub bit_or_ones : (k a : ℕ) → a < 2 ^ k → bit_or a (2 ^ k - 1) ≡ 2 ^ k - 1
bit_or_ones zero a p = omega (arith, bit_or-zero a)
bit_or_ones (suc k) a p =
    rw
      (
        bit_or-halve a (2 ^ suc k - 1),
        ones-half k,
        ones-odd k,
        bit_or_ones k (a / 2) (half-lt k a p),
      )
      (omega (arith, pow-suc 2 k, one-le-pow k 2))

-- A remainder by a power of two, by the lowest digit.
mod-two-pow-suc : (k a : ℕ) → a % 2 ^ suc k ≡ a / 2 % 2 ^ k * 2 + a % 2
mod-two-pow-suc k a = rw pow-succ' (
    grind (
      arith,
      div-div-eq-div-mul a 2 (2 ^ k),
      div-add-mod a (2 * 2 ^ k),
      div-add-mod (a / 2) (2 ^ k),
    ))

-- `a & (2 ^ k - 1)` is the remainder.
pub bit_and_ones : (k a : ℕ) → bit_and a (2 ^ k - 1) ≡ a % 2 ^ k
bit_and_ones zero a = omega (arith, bit_and-zero a)
bit_and_ones (suc k) a =
    rw (bit_and-halve a (2 ^ suc k - 1), ones-half k, ones-odd k, bit_and_ones k (a / 2))
      (omega (arith, mod-two-pow-suc k a))

-- `a & mask`, where the mask covers `n` bits from position `k`.
pub bit_and_mask : (k n a : ℕ) → bit_and a ((2 ^ n - 1) * 2 ^ k) ≡ a / 2 ^ k % 2 ^ n * 2 ^ k
bit_and_mask k n a =
    let p : 0 < 2 ^ k = one-le-pow k 2 (omega arith) in
    ground (
      arith,
      bit_and-join k (a / 2 ^ k) (a % 2 ^ k) (2 ^ n - 1) 0 (mod-lt a p) p,
      div-add-mod' a (2 ^ k),
      bit_and_ones n (a / 2 ^ k),
      bit_and-zero (a % 2 ^ k),
    )

pub bit_or-lt : (k a b : ℕ) → a < 2 ^ k → b < 2 ^ k → bit_or a b < 2 ^ k
bit_or-lt zero zero zero p q = omega arith
bit_or-lt zero zero (suc b) p q = absurd (omega arith)
bit_or-lt zero (suc a) b p q = absurd (omega arith)
bit_or-lt (suc k) a b p q = omega (
  arith,
  bit_or-halve a b,
  pow-suc 2 k,
  bit_or-lt k (a / 2) (b / 2) (half-lt k a p) (half-lt k b q),
)

pub bit_and-lt : (k a b : ℕ) → a < 2 ^ k → bit_and a b < 2 ^ k
bit_and-lt zero zero b p = omega (arith, zero-bit_and b)
bit_and-lt zero (suc a) b p = absurd (omega arith)
bit_and-lt (suc k) a b p =
    omega (arith, bit_and-halve a b, pow-suc 2 k, bit_and-lt k (a / 2) (b / 2) (half-lt k a p))

pub bit_xor-lt : (k a b : ℕ) → a < 2 ^ k → b < 2 ^ k → bit_xor a b < 2 ^ k
bit_xor-lt zero zero b p q = omega (arith, zero-bit_xor b)
bit_xor-lt zero (suc a) b p q = absurd (omega arith)
bit_xor-lt (suc k) a b p q =
    let (d, lt, e) = bit_xor-halve a b in
    omega (arith, lt, e, pow-suc 2 k, bit_xor-lt k (a / 2) (b / 2) (half-lt k a p) (half-lt k b q))
