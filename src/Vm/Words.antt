-- ===== src/Vm/Words.antt =====
-- The bytes of a variable, as `read_memory` and `write_memory` of vm_basic.cxx copy them.
use yeti_vm.Base.{ℕ, zero, suc, ◌+◌, ◌*◌, ◌/◌, ◌%◌, ◌^◌, ◌<◌, ◌≡◌, refl, sym, ◌∙◌, arith, ap}
use yeti_vm.Base.{length}
use native.Mathlib.Nat.{
  mul_assoc, mul_comm, one-le-pow, mod-lt, mod-eq_of_lt, div-add-mod', add-mul-mod_self_right,
}
use yeti_vm.BitTools.SignExtend.{pow-add}
use yeti_vm.Vm.Access.{to_bytes, of_bytes}

pub length-to_bytes : (n value : ℕ) → length (to_bytes n value) ≡ n
unfolding to_bytes
length-to_bytes zero value = refl
length-to_bytes (suc n) value = ap suc (length-to_bytes n (value / 256))

low : (x p : ℕ) → 0 < p → x % (256 * p) ≡ x % 256 + x / 256 % p * 256
low x p pos =
    let k = x / 256 / p in
    let q : k * p + x / 256 % p ≡ x / 256 = div-add-mod' (x / 256) p in
    let r : 256 * (k * p) ≡ k * (256 * p) =
      sym (mul_assoc 256 k p) ∙ ap (λ (t : ℕ). t * p) (mul_comm 256 k) ∙ mul_assoc k 256 p in
    let e : x ≡ x % 256 + x / 256 % p * 256 + k * (256 * p) = omega (arith, q, r) in
    let lt : x % 256 + x / 256 % p * 256 < 256 * p = omega (arith, mod-lt (x / 256) pos) in
    ap (λ (t : ℕ). t % (256 * p)) e
    ∙ add-mul-mod_self_right (x % 256 + x / 256 % p * 256) k (256 * p)
    ∙ mod-eq_of_lt lt

-- `n` bytes keep the low `8 n` bits.
pub of_bytes-to_bytes : (n value : ℕ) → of_bytes (to_bytes n value) ≡ value % 2 ^ (8 * n)
unfolding to_bytes of_bytes
of_bytes-to_bytes zero value = omega arith
of_bytes-to_bytes (suc n) value =
    let ih = of_bytes-to_bytes n (value / 256) in
    let p : 2 ^ (8 * suc n) ≡ 256 * 2 ^ (8 * n) =
      ap (λ (k : ℕ). 2 ^ k) (omega arith) ∙ pow-add 8 (8 * n) in
    rw (p, ih) (sym (low value (2 ^ (8 * n)) (one-le-pow (8 * n) 2 (omega arith))))
