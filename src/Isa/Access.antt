-- ===== src/Isa/Access.antt =====
-- `read_memory` and `write_memory` of vm_basic.cxx by the regions of the memory: which accesses are
-- refused, whatever the state.
use yeti_vm.Base.{
  ℕ, ◌%◌, ◌^◌, ◌<◌, ◌≤◌, ◌≡◌, ◌⊎◌, ◌↔◌, inl, inr, refl, sym, ◌∙◌, arith, none, some, ◌-◌, ◌≢◌, ap,
  Bool, true, false,
}
use yeti_vm.Base.{◌==◌, Bool-cases, Option-cases}
use yeti_vm.Base.Exec.{Error, Result, ok, err, data_access_error}
use yeti_vm.Memory.Block.{Block, read_bytes}
use yeti_vm.Memory.Mmu.{Mmu, find_block}
use yeti_vm.Memory.Contents.{in_range_size_iff, load-Within}
use yeti_vm.Memory.Lookup.{IsMmu-Mem, find_block_found}
use yeti_vm.Memory.Layout.{IsMmu}
use yeti_vm.Memory.Regions.{regions, Mem-regions}
use yeti_vm.Vm.State.{Vm}
use yeti_vm.Vm.Access.{overlay, read_memory, write_memory}
use yeti_vm.Vm.Memory.{Accessible, found, memory_error, read_memory_lem, write_memory_lem, small}
use yeti_vm.Isa.Arch.{InRegion}
use yeti_vm.Isa.Fetch.{InRegion-Accessible}
use yeti_vm.Isa.Trap.{IsOutside}

-- What the unit finds is in a region.
pub find_block-InRegion :
    (mmu : Mmu) (a n : ℕ) (b : Block)
    → IsMmu mmu
    → a < 2 ^ 32
    → n ≤ 4
    → find_block mmu a n ≡ some b
    → InRegion (regions mmu) a n
find_block-InRegion mmu a n b w lt le e =
    let (k, t) = find_block_found mmu a n b e in
    let wb = IsMmu-Mem mmu b w k in
    record {
      region = b.params;
      member = Mem-regions mmu b k;
      within = (in_range_size_iff b.params a n lt wb.end_lt (omega (arith, wb.small, le))).0 t;
    }

abbrev is_ok : {A : Type 0} → Result A × Vm → Bool
is_ok (ok a, vm) = true
is_ok (err e, vm) = false

abbrev ok_of : {A : Type 0} → A → Vm → Result A × Vm
ok_of a x = (ok a, x)

ok-err : {A : Type 0} (a : A) (e : Error) (x y : Vm) → ¬ (ok_of a x ≡ (err e, y))
ok-err a e x y h = let t : true ≡ false = ap is_ok h in cc

module _ (a n v : ℕ) (vm : Vm) (w : IsMmu vm.mmu) (lt : a < 2 ^ 32) (pos : 0 < n) (le : n ≤ 4) where
  -- An access is refused, or in a region.
  refused-or-mapped :
      (IsOutside (regions vm.mmu) a n × ((a % n ≢ 0) ⊎ (find_block vm.mmu a n ≡ none)))
      ⊎ ((a % n ≡ 0) × InRegion (regions vm.mmu) a n)
  refused-or-mapped = elim (Bool-cases (a % n == 0)) [
    | inr z ↦ inl (inl (ground (arith, z)), inl (ground (arith, z)))
    | inl z ↦ elim (Option-cases (find_block vm.mmu a n)) [
      | inr (b, e) ↦ inr (ground (arith, z), find_block-InRegion vm.mmu a n b w lt le e)
      | inl e ↦ inl (
        inr (λ i.
            let f =
              found a n vm w
                (InRegion-Accessible (regions vm.mmu) a n vm w refl pos le (ground (arith, z)) i) in
            cc),
        inr e,
      )
    ]
  ]

  read_mapped :
      (x : Accessible a n vm)
      → read_memory a n v vm
        ≡ (ok (overlay v n (read_bytes x.block.bytes (a - x.block.params.block_start) n)), vm)
  read_mapped x =
      read_memory_lem a n v vm x.block _ pos le x.aligned (found a n vm w x) (
        load-Within x.block a n (IsMmu-Mem vm.mmu x.block w x.member) lt (small a n vm w x)
          x.within)

  -- In a well-formed memory unit, of 1 to 4 bytes at any address of 32 bits, a read and a write each
  -- throw data_access_error and leave the machine as it is exactly if the address is not a multiple
  -- of the size or no region of the unit holds all the bytes.
  pub memory_error_iff :
      ((read_memory a n v vm ≡ (err data_access_error, vm)) ↔ IsOutside (regions vm.mmu) a n)
      × ((write_memory a n v vm ≡ (err data_access_error, vm)) ↔ IsOutside (regions vm.mmu) a n)
  memory_error_iff = elim refused-or-mapped [
    | inl (o, bad) ↦
        let (r, s) = memory_error a n v vm pos le bad in
        (((λ _. o), (λ _. r)), ((λ _. o), (λ _. s)))
    | inr (al, i) ↦
        let x = InRegion-Accessible (regions vm.mmu) a n vm w refl pos le al i in
        let r = read_mapped x in
        let s = write_memory_lem a n v vm w x in
        let inside : ¬ IsOutside (regions vm.mmu) a n =
          λ o. elim o [ inl ne ↦ ne al | inr miss ↦ miss i ] in
        (
          ((λ h. absurd (ok-err _ _ _ _ (sym r ∙ h))), (λ o. absurd (inside o))),
          ((λ h. absurd (ok-err _ _ _ _ (sym s ∙ h))), (λ o. absurd (inside o))),
        )
  ]
