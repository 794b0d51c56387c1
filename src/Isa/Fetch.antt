-- ===== src/Isa/Fetch.antt =====
-- The accesses of `basic_vm` against a map of bytes: the fetch, and variables within a region.
use mathlib.Core.List.{Memᴰ}
use yeti_vm.Base.{
  ℕ, zero, suc, ◌+◌, ◌-◌, ◌*◌, ◌/◌, ◌%◌, ◌^◌, ◌<◌, ◌≤◌, ◌≡◌, refl, sym, subst, ap₂, arith, false,
  List,
}
use yeti_vm.Base.{◌!=◌, Bool-cases, get_or, inl, inr}
use yeti_vm.Base.Exec.{ok}
use yeti_vm.Memory.Params.{Params}
use yeti_vm.Memory.Block.{read_bytes, load, done, get_ro}
use yeti_vm.Memory.Contents.{Within, load-Within}
use yeti_vm.Memory.Layout.{IsMmu}
use yeti_vm.Memory.Lookup.{IsMmu-Mem}
use yeti_vm.Memory.Image.{Image, IsBytes, byte_or_zero, covers, peek, peek-Within, patch, value_at}
use yeti_vm.Memory.Regions.{regions, block_at}
use yeti_vm.Vm.State.{Vm, register_count}
use yeti_vm.Vm.Access.{get_pc, get_ptr, to_bytes}
use yeti_vm.Vm.Step.{get_current}
use yeti_vm.Vm.Memory.{Accessible, small, found}
use yeti_vm.Vm.Bytes.{of_bytes-value_at}
use yeti_vm.Isa.Arch.{InRegion}

-- A word at an aligned address within a block is fetched.
pub get_current-value_at :
    (vm : Vm)
    → IsMmu vm.mmu
    → Accessible (vm.registers register_count) 4 vm
    → get_current vm ≡ (ok (value_at (peek vm.mmu) (vm.registers register_count) 4), vm)
unfolding get_current get_pc get_ptr
get_current-value_at vm w x =
    let a = vm.registers register_count in
    let b = x.block in
    let wb = IsMmu-Mem vm.mmu b w x.member in
    let s = b.params.block_start in
    let al : (a % 4 != 0) ≡ false = ground (arith, x.aligned) in
    let ro : get_ro b a 4 ≡ done (read_bytes b.bytes (a - s) 4) =
      unfold get_ro load in load-Within b a 4 wb x.address_lt (small a 4 vm w x) x.within in
    let v =
      of_bytes-value_at b.bytes (peek vm.mmu) s (a - s) a 4 (omega (arith, x.within)) (λ c le lt.
        peek-Within vm.mmu b c w x.member (omega (arith, x.within)) (omega (arith, x.within))) in
    rw (al, found a 4 vm w x) (rw (ro, v) refl)

-- A region that the unit has gives a block to an aligned access.
pub InRegion-Accessible :
    (ps : List Params) (a n : ℕ) (vm : Vm)
    → IsMmu vm.mmu
    → regions vm.mmu ≡ ps
    → 0 < n
    → n ≤ 4
    → a % n ≡ 0
    → InRegion ps a n
    → Accessible a n vm
InRegion-Accessible ps a n vm w k pos le al i =
    let (b, m, e) = block_at vm.mmu i.region (subst (Memᴰ i.region) (sym k) i.member) in
    let inside : Within b.params a n = subst (λ p. Within p a n) (sym e) i.within in
    record {
      block = b;
      size_pos = pos;
      size_le = le;
      aligned = al;
      address_lt = omega (arith, inside, (IsMmu-Mem vm.mmu b w m).end_lt);
      member = m;
      within = inside;
    }

-- A value depends on its own bytes only.
pub value_at-eq :
    (m m' : Image) (a n : ℕ)
    → ((c : ℕ) → c < 2 ^ 32 → m c ≡ m' c)
    → a + n ≤ 2 ^ 32
    → value_at m a n ≡ value_at m' a n
unfolding value_at
value_at-eq m m' a zero e fits = refl
value_at-eq m m' a (suc n) e fits =
    ap₂ (λ b v. byte_or_zero b + v * 256) (e a (omega arith))
      (value_at-eq m m' (suc a) n e (omega arith))

to_bytes-get_or : (n v i : ℕ) → get_or (to_bytes n v) i 0 < 256
unfolding to_bytes
to_bytes-get_or zero v i = omega arith
to_bytes-get_or (suc n) v zero = omega arith
to_bytes-get_or (suc n) v (suc i) = to_bytes-get_or n (v / 256) i

-- Bytes written over bytes.
pub patch-IsBytes : (m : Image) (a n v : ℕ) → IsBytes m → IsBytes (patch m a (to_bytes n v))
unfolding patch
patch-IsBytes m a n v h c lt = elim (Bool-cases (covers a (to_bytes n v) c)) [
  | inl e ↦ rw e (to_bytes-get_or n v (c - a))
  | inr e ↦ rw e (h c lt)
]
