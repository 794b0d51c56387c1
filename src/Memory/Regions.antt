-- ===== src/Memory/Regions.antt =====
-- The regions of a memory unit, which no store changes: vm_memory.cxx.
use mathlib.Core.List.{Memᴰ}
use mathlib.Core.List.Memᴰ.{head, tail}
use yeti_vm.Base.{
  ℕ, ◌+◌, ◌^◌, ◌<◌, ◌≡◌, inl, inr, refl, sym, subst, ap, arith, true, some, List, [], ◌∷◌, All,
}
use yeti_vm.Base.{◌==◌, ==_iff, leb, Bool-cases, length}
use yeti_vm.Memory.Params.{Params, in_range, in_range_size, offset}
use yeti_vm.Memory.Block.{Block, done, store, write_bytes}
use yeti_vm.Memory.Mmu.{Mmu, find_block, replace_block}
use yeti_vm.Memory.Contents.{IsBlock, Within}
use yeti_vm.Memory.Layout.{IsMmu}
use yeti_vm.Memory.Lookup.{IsMmu-Mem, find_block_unique, same_key, replace_block-IsMmu}

abbrev pub regions : Mmu → List Params
regions [] = []
regions (b ∷ bs) = b.params ∷ regions bs

pub regions-replace_block :
    (mmu : Mmu) (b : Block)
    → All (λ x. x.params.block_start ≡ b.params.block_start → x.params ≡ b.params) mmu
    → regions (replace_block mmu b) ≡ regions mmu
unfolding replace_block
regions-replace_block [] b ks = refl
regions-replace_block (x ∷ xs) b (k, ks) =
    elim (Bool-cases (x.params.block_start == b.params.block_start)) [
      | inl e ↦ rw e (
          ap (λ (p : Params). p ∷ regions xs)
            (sym (k ((==_iff x.params.block_start b.params.block_start).0 e))))
      | inr e ↦ rw e (ap (λ (ps : List Params). x.params ∷ ps) (regions-replace_block xs b ks))
    ]

-- The region of a block.
pub Mem-regions : (mmu : Mmu) (b : Block) → Memᴰ b mmu → Memᴰ b.params (regions mmu)
Mem-regions [] b m = elim m [ ]
Mem-regions (c ∷ cs) b (head e) = head (ap (λ (x : Block). x.params) e)
Mem-regions (c ∷ cs) b (tail m) = tail (Mem-regions cs b m)

-- The block of a region.
pub block_at :
    (mmu : Mmu) (p : Params) → Memᴰ p (regions mmu) → (b : Block) × Memᴰ b mmu × (b.params ≡ p)
block_at [] p m = elim m [ ]
block_at (b ∷ bs) p (head e) = (b, head refl, sym e)
block_at (b ∷ bs) p (tail m) = let (c, n, e) = block_at bs p m in (c, tail n, e)

Within-in_range_size :
    (b : Block) (a n : ℕ)
    → IsBlock b
    → Within b.params a n
    → 0 < n
    → (a < 2 ^ 32)
      × (in_range_size b.params a n ≡ true)
      × (leb (offset b.params a + n) b.params.block_size ≡ true)
unfolding in_range_size in_range offset
Within-in_range_size b a n w within pos =
    let lt : a < 2 ^ 32 = omega (arith, w.end_lt, within) in
    (lt, ground (arith, w.end_lt, within), ground (arith, w.end_lt, within))

-- What is kept of a unit by a store into it.
pub record Stored (mmu : Mmu) (a : ℕ) (src : List ℕ) : Type 0 where
  pub block : Block
  pub block' : Block
  pub found : find_block mmu a (length src) ≡ some block
  pub stores : store block a src ≡ done block'
  pub address_lt : a < 2 ^ 32
  pub IsMmu_after : IsMmu (replace_block mmu block')
  pub regions_after : regions (replace_block mmu block') ≡ regions mmu

-- A store of one byte at least, within a region, succeeds.
pub store-regions :
    (mmu : Mmu) (p : Params) (a : ℕ) (src : List ℕ)
    → IsMmu mmu
    → Memᴰ p (regions mmu)
    → 0 < length src
    → Within p a (length src)
    → Stored mmu a src
unfolding store
store-regions mmu p a src w m pos within =
    let (b, n, e) = block_at mmu p m in
    let wb = IsMmu-Mem mmu b w n in
    let (lt, t, v) =
      Within-in_range_size b a (length src) wb (subst (λ q. Within q a (length src)) (sym e) within)
        pos in
    let b' : Block = record b { bytes = write_bytes b.bytes (offset b.params a) src } in
    let keys = same_key mmu b b' w n refl in
    record {
      block = b;
      block' = b';
      found = find_block_unique mmu a (length src) b w lt n t;
      stores = rw (t, v) refl;
      address_lt = lt;
      IsMmu_after = replace_block-IsMmu mmu b' w keys;
      regions_after = regions-replace_block mmu b' keys;
    }

-- An access of one byte at least, within a region, finds a block.
pub find_block-regions :
    (mmu : Mmu) (p : Params) (a n : ℕ)
    → IsMmu mmu
    → Memᴰ p (regions mmu)
    → 0 < n
    → Within p a n
    → (b : Block) × (find_block mmu a n ≡ some b)
find_block-regions mmu p a n w m pos within =
    let (b, k, e) = block_at mmu p m in
    let (lt, t, v) =
      Within-in_range_size b a n (IsMmu-Mem mmu b w k) (subst (λ q. Within q a n) (sym e) within)
        pos in
    (b, find_block_unique mmu a n b w lt k t)
