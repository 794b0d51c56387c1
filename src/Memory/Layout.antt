-- ===== src/Memory/Layout.antt =====
-- How the blocks of `memory_management_unit` lie to one another: vm_memory.cxx.
use yeti_vm.Base.{
  ℕ, ◌+◌, ◌^◌, ◌<◌, ◌≤◌, ◌≡◌, ◌⊎◌, inl, inr, ◌↔◌, refl, arith, Bool, true, false, Option, none,
  some, [], ◌∷◌, All,
}
use yeti_vm.Base.{ltb, ◌==◌, if◌then◌else◌, Bool-cases}
use yeti_vm.Memory.Params.{Params, in_range, is_overlap}
use yeti_vm.Memory.Block.{Block}
use yeti_vm.Memory.Mmu.{Mmu, overlaps_any, behind, try_emplace, add_block}
use yeti_vm.Memory.Contents.{IsBlock}

-- The end of a region that does not wrap.
abbrev pub end : Params → ℕ
end p = p.block_start + p.block_size

-- Every region ends at the start of the next one at the latest.
abbrev pub IsMmu : Mmu → Type 0
IsMmu [] = Unit
IsMmu (b ∷ bs) = IsBlock b × All (λ c. end b.params ≤ c.params.block_start) bs × IsMmu bs

-- The test is one byte too strict on one side: a region that ends where `p` starts overlaps it.
pub is_overlap_iff :
    (p other : Params)
    → end p < 2 ^ 32
    → end other < 2 ^ 32
    → (is_overlap p other ≡ false) ↔ (
        (end other < p.block_start)
        ⊎ ((end p ≤ other.block_start) × (p.block_start ≤ other.block_start)))
unfolding is_overlap in_range
is_overlap_iff p other hp ho = ground arith

-- Regions without a common byte.
abbrev pub Disjoint : Params → Params → Type 0
Disjoint p q = (end p ≤ q.block_start) ⊎ (end q ≤ p.block_start)

overlaps_any-Disjoint :
    (mmu : Mmu) (k : Params)
    → IsMmu mmu
    → end k < 2 ^ 32
    → overlaps_any mmu k ≡ false
    → All (λ b. Disjoint b.params k) mmu
unfolding overlaps_any
overlaps_any-Disjoint [] k w fits e = tt
overlaps_any-Disjoint (b ∷ bs) k (wb, after, w) fits e =
    let e₁ : is_overlap b.params k ≡ false = ground arith in
    let e₂ : overlaps_any bs k ≡ false = ground arith in
    (
      omega (arith, (is_overlap_iff b.params k wb.end_lt fits).0 e₁),
      overlaps_any-Disjoint bs k w fits e₂,
    )

-- A predicate of the result, where there is one.
abbrev OnSome {ℓ} : {A : Type 0} → (A → Type ℓ) → Option A → Type ℓ
OnSome P none = Unit
OnSome P (some a) = P a

choose :
    (P : Mmu → Type 0) (c d : Bool) (here : Mmu) (rest : Option Mmu)
    → (c ≡ true → P here)
    → (d ≡ true → OnSome P rest)
    → OnSome P (if c then some here else if d then rest else none)
choose P true d here rest f g = f refl
choose P false true here rest f g = g refl
choose P false false here rest f g = tt

behind-OnSome :
    (Q R : Mmu → Type 0) (c : Block) (o : Option Mmu)
    → OnSome Q o
    → ((bs : Mmu) → Q bs → R (c ∷ bs))
    → OnSome R (behind c o)
behind-OnSome Q R c none q f = tt
behind-OnSome Q R c (some bs) q f = f bs q

both : (Q R : Mmu → Type 0) (o : Option Mmu) → OnSome Q o → OnSome R o → OnSome (λ m. Q m × R m) o
both Q R none q r = tt
both Q R (some m) q r = (q, r)

pub All-map : (P Q : Block → Type 0) (bs : Mmu) → ((b : Block) → P b → Q b) → All P bs → All Q bs
All-map P Q [] f ps = tt
All-map P Q (b ∷ bs) f (p, ps) = (f b p, All-map P Q bs f ps)

try_emplace-All :
    (P : Block → Type 0) (mmu : Mmu) (b : Block)
    → All P mmu
    → P b
    → OnSome (All P) (try_emplace mmu b)
unfolding try_emplace
try_emplace-All P [] b ps pb = (pb, tt)
try_emplace-All P (c ∷ cs) b (pc, ps) pb =
    choose (All P) (ltb b.params.block_start c.params.block_start)
      (ltb c.params.block_start b.params.block_start) (b ∷ c ∷ cs) (behind c (try_emplace cs b))
      (λ _. (pb, (pc, ps)))
      (λ _.
        behind-OnSome (All P) (All P) c (try_emplace cs b) (try_emplace-All P cs b ps pb)
          (λ bs q. (pc, q)))

try_emplace-IsMmu :
    (mmu : Mmu) (b : Block)
    → IsMmu mmu
    → IsBlock b
    → All (λ c. Disjoint c.params b.params) mmu
    → OnSome IsMmu (try_emplace mmu b)
unfolding try_emplace
try_emplace-IsMmu [] b w wb ds = (wb, tt, tt)
try_emplace-IsMmu (c ∷ cs) b (wc, after, w) wb (d, ds) =
    let After : Block → Type 0 = λ x. end c.params ≤ x.params.block_start in
    choose IsMmu (ltb b.params.block_start c.params.block_start)
      (ltb c.params.block_start b.params.block_start) (b ∷ c ∷ cs) (behind c (try_emplace cs b))
      (λ t.
        let first : end b.params ≤ c.params.block_start =
          ground (arith, d, t, wb.size_pos, wc.size_pos) in
        (
          wb,
          (
            first,
            All-map After (λ x. end b.params ≤ x.params.block_start) cs (λ x le. omega arith) after,
          ),
          (wc, after, w),
        ))
      (λ t.
        let last : end c.params ≤ b.params.block_start =
          ground (arith, d, t, wb.size_pos, wc.size_pos) in
        behind-OnSome (λ m. IsMmu m × All After m) IsMmu c (try_emplace cs b)
          (both IsMmu (All After) (try_emplace cs b) (try_emplace-IsMmu cs b w wb ds)
            (try_emplace-All After cs b after last))
          (λ bs q. (wc, q.1, q.0)))

added :
    (mmu : Mmu) (o : Option Mmu)
    → IsMmu mmu
    → OnSome IsMmu o
    → IsMmu (elim o as (λ _. Mmu × Bool) [ none ↦ (mmu, false) | some mmu' ↦ (mmu', true) ]).0
added mmu none w v = w
added mmu (some m) w v = v

-- Adding a region that does not wrap, and is no larger than 2 ^ 32 - 4 bytes, keeps the regions sorted and without a common byte, whether
-- the region is taken or refused.
pub add_block-IsMmu :
    (mmu : Mmu) (b : Block)
    → IsMmu mmu
    → end b.params < 2 ^ 32
    → b.params.block_size + 4 ≤ 2 ^ 32
    → IsMmu (add_block mmu b).0
unfolding add_block
add_block-IsMmu mmu b w fits small = elim (Bool-cases (b.params.block_size == 0)) [
  | inl e ↦ rw e w
  | inr e ↦ elim (Bool-cases (overlaps_any mmu b.params)) [
    | inl o ↦ rw (e, o) w
    | inr o ↦
        let wb : IsBlock b = record { size_pos = ground arith; end_lt = fits; small = small } in
        rw (e, o)
          (added mmu (try_emplace mmu b) w
            (try_emplace-IsMmu mmu b w wb (overlaps_any-Disjoint mmu b.params w fits o)))
  ]
]
