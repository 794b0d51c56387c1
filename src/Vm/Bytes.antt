-- ===== src/Vm/Bytes.antt =====
-- What `read_memory` of vm_basic.cxx and the loads of vm_handlers_rv32i.hxx make of the bytes of
-- the memory.
use native.Mathlib.Nat.{div-le_self}
use yeti_vm.Base.{ℕ, zero, suc, ◌+◌, ◌-◌, ◌*◌, ◌/◌, ◌^◌, ◌<◌, ◌≤◌, ◌≡◌, refl, ap, ◌∙◌, arith, some}
use yeti_vm.Base.Exec.{ok}
use yeti_vm.BitTools.{make_mask}
use yeti_vm.BitTools.Fields.{bit_and_mask, bit_or_above}
use yeti_vm.BitTools.SignExtend.{pow-add}
use yeti_vm.Memory.Block.{read_bytes}
use yeti_vm.Memory.Contents.{load-Within}
use yeti_vm.Memory.Layout.{IsMmu}
use yeti_vm.Memory.Lookup.{IsMmu-Mem}
use yeti_vm.Memory.Image.{Image, IsBytes, peek, peek-Within, value_at}
use yeti_vm.Handler.Kinds.{Load, lb, lh}
use yeti_vm.Handler.Rv32i.{extend_loaded, load_size}
use yeti_vm.Isa.Manual.{extended}
use yeti_vm.Vm.State.{Vm}
use yeti_vm.Vm.Access.{read_memory, of_bytes, overlay}
use yeti_vm.Vm.Memory.{Accessible, small, found, read_memory_lem}

pub extend_loaded-extended :
    (k : Load) (v : ℕ) → v < 2 ^ (8 * load_size k) → extend_loaded k v ≡ extended k v
unfolding extend_loaded make_mask
extend_loaded-extended lb v h = ground (arith, bit_and_mask 7 1 v, bit_or_above 8 (2 ^ 24 - 1) v)
extend_loaded-extended lh v h = ground (arith, bit_and_mask 15 1 v, bit_or_above 16 (2 ^ 16 - 1) v)
extend_loaded-extended _ v h = refl

pub of_bytes-value_at :
    (f : ℕ → ℕ) (m : Image) (s o a n : ℕ)
    → o + s ≡ a
    → ((c : ℕ) → a ≤ c → c < a + n → m c ≡ some (f (c - s)))
    → of_bytes (read_bytes f o n) ≡ value_at m a n
unfolding of_bytes read_bytes value_at
of_bytes-value_at f m s o a zero q e = refl
of_bytes-value_at f m s o a (suc n) q e =
    let at_o : a - s ≡ o = omega arith in
    let here : m a ≡ some (f o) =
      e a (omega arith) (omega arith) ∙ ap (λ (k : ℕ). some (f k)) at_o in
    let rest =
      of_bytes-value_at f m s (suc o) (suc a) n (omega arith)
        (λ c le lt. e c (omega arith) (omega arith)) in
    rw (here, rest) refl

pub value_at-lt : (m : Image) (a n : ℕ) → IsBytes m → a + n ≤ 2 ^ 32 → value_at m a n < 2 ^ (8 * n)
unfolding value_at
value_at-lt m a zero h fits = omega arith
value_at-lt m a (suc n) h fits =
    let p : 2 ^ (8 * suc n) ≡ 256 * 2 ^ (8 * n) =
      ap (λ (k : ℕ). 2 ^ k) (omega arith) ∙ pow-add 8 (8 * n) in
    rw p (omega (arith, h a (omega arith), value_at-lt m (suc a) n h (omega arith)))

-- A read of an accessible variable gives the bytes of the map.
pub read_memory-value_at :
    (a n : ℕ) (vm : Vm)
    → IsMmu vm.mmu
    → Accessible a n vm
    → read_memory a n 0 vm ≡ (ok (value_at (peek vm.mmu) a n), vm)
unfolding overlay
read_memory-value_at a n vm w x =
    let b = x.block in
    let s = b.params.block_start in
    let wb = IsMmu-Mem vm.mmu b w x.member in
    let l = load-Within b a n wb x.address_lt (small a n vm w x) x.within in
    let r =
      read_memory_lem a n 0 vm b (read_bytes b.bytes (a - s) n) x.size_pos x.size_le x.aligned
        (found a n vm w x) l in
    let v =
      of_bytes-value_at b.bytes (peek vm.mmu) s (a - s) a n (omega (arith, x.within)) (λ c le lt.
        peek-Within vm.mmu b c w x.member (omega (arith, x.within)) (omega (arith, x.within))) in
    let z : 0 / 2 ^ (8 * n) ≡ 0 = omega (arith, div-le_self 0 (2 ^ (8 * n))) in
    r ∙ ap (λ (t : ℕ). (ok t, vm)) (rw z (omega (arith, v)))

-- An accessible variable ends below 2 ^ 32.
pub Accessible-end : (a n : ℕ) (vm : Vm) → IsMmu vm.mmu → Accessible a n vm → a + n ≤ 2 ^ 32
Accessible-end a n vm w x = omega (arith, x.within, (IsMmu-Mem vm.mmu x.block w x.member).end_lt)
