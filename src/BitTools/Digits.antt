-- ===== src/BitTools/Digits.antt =====
-- The bitwise operations of C by their lowest digit, and the laws that follow by halving.
use Prim.Native.Nat.{digits, bitwise, differ, bit_and-bitwise, bit_or-bitwise, bit_xor-bitwise}
use yeti_vm.Base.{ℕ, zero, suc, ◌+◌, ◌*◌, ◌/◌, ◌%◌, ◌≤◌, ◌<◌, min, max, bit_and, bit_or, bit_xor}
use yeti_vm.Base.{◌≡◌, refl, arith}

-- `digits` recurs on fuel; any two amounts that suffice agree.
module _ (end : ℕ → ℕ) (op : ℕ → ℕ → ℕ) where
  digits_enough : (k l a b : ℕ) → a ≤ k → a ≤ l → digits end op k a b ≡ digits end op l a b
  digits_enough zero zero a b p q = refl
  digits_enough zero (suc l) zero b p q = refl
  digits_enough (suc k) zero zero b p q = refl
  digits_enough (suc k) (suc l) zero b p q = refl
  digits_enough zero l (suc a) b p q = absurd (omega arith)
  digits_enough (suc k) zero (suc a) b p q = absurd (omega arith)
  digits_enough (suc k) (suc l) (suc a) b p q =
      rw (digits_enough k l (suc a / 2) (b / 2) (omega arith) (omega arith))

  halve :
      (a b : ℕ)
      → bitwise end op (suc a) b ≡ bitwise end op (suc a / 2) (b / 2) * 2 + op (suc a % 2) (b % 2)
  halve a b =
      omega (arith, digits_enough a (suc a / 2) (suc a / 2) (b / 2) (omega arith) (omega arith))

pub bit_or-halve : (a b : ℕ) → bit_or a b ≡ bit_or (a / 2) (b / 2) * 2 + max (a % 2) (b % 2)
bit_or-halve zero b = simp bit_or-bitwise (omega arith)
bit_or-halve (suc a) b = simp bit_or-bitwise (halve (λ y. y) max a b)

pub bit_and-halve : (a b : ℕ) → bit_and a b ≡ bit_and (a / 2) (b / 2) * 2 + min (a % 2) (b % 2)
bit_and-halve zero b = simp bit_and-bitwise (omega arith)
bit_and-halve (suc a) b = simp bit_and-bitwise (halve (λ y. 0) min a b)

differ-lt : (a b : ℕ) → a < 2 → b < 2 → differ a b < 2
differ-lt zero b p q = q
differ-lt (suc a) zero p q = p
differ-lt (suc a) (suc b) p q = differ-lt a b (omega arith) (omega arith)

pub bit_xor-halve : (a b : ℕ) → (d : ℕ) × (d < 2) × (bit_xor a b ≡ bit_xor (a / 2) (b / 2) * 2 + d)
bit_xor-halve zero b = (b % 2, omega arith, simp bit_xor-bitwise (omega arith))
bit_xor-halve (suc a) b = (
  differ (suc a % 2) (b % 2),
  differ-lt (suc a % 2) (b % 2) (omega arith) (omega arith),
  simp bit_xor-bitwise (halve (λ y. y) differ a b),
)

pub zero-bit_xor : (b : ℕ) → bit_xor 0 b ≡ b
zero-bit_xor b = bit_xor-bitwise 0 b

pub zero-bit_or : (b : ℕ) → bit_or 0 b ≡ b
zero-bit_or b = bit_or-bitwise 0 b

pub zero-bit_and : (b : ℕ) → bit_and 0 b ≡ 0
zero-bit_and b = bit_and-bitwise 0 b

bit_or-zero_below : (k a : ℕ) → a ≤ k → bit_or a 0 ≡ a
bit_or-zero_below k zero h = refl
bit_or-zero_below zero (suc a) h = absurd (omega arith)
bit_or-zero_below (suc k) (suc a) h =
    omega (arith, bit_or-halve (suc a) 0, bit_or-zero_below k (suc a / 2) (omega arith))

pub bit_or-zero : (a : ℕ) → bit_or a 0 ≡ a
bit_or-zero a = bit_or-zero_below a a (omega arith)

bit_and-zero_below : (k a : ℕ) → a ≤ k → bit_and a 0 ≡ 0
bit_and-zero_below k zero h = refl
bit_and-zero_below zero (suc a) h = absurd (omega arith)
bit_and-zero_below (suc k) (suc a) h =
    omega (arith, bit_and-halve (suc a) 0, bit_and-zero_below k (suc a / 2) (omega arith))

pub bit_and-zero : (a : ℕ) → bit_and a 0 ≡ 0
bit_and-zero a = bit_and-zero_below a a (omega arith)
