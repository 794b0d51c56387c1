-- ===== src/Memory/Lookup.antt =====
-- Which block an address leads to, and what a write through the pointer changes: vm_memory.cxx.
use mathlib.Core.List.{Memᴰ}
use mathlib.Core.List.Memᴰ.{head, tail}
use yeti_vm.Base.{
  ℕ, ◌+◌, ◌^◌, ◌<◌, ◌≤◌, ◌≡◌, inl, inr, refl, sym, subst, ap, ◌∙◌, arith, true, false, Option, none,
  some, [], ◌∷◌, All,
}
use yeti_vm.Base.{◌==◌, ==_iff, if◌then◌else◌, Bool-cases}
use yeti_vm.Memory.Params.{Params, in_range, in_range_size}
use yeti_vm.Memory.Block.{Block}
use yeti_vm.Memory.Mmu.{Mmu, find_block, replace_block}
use yeti_vm.Memory.Contents.{IsBlock}
use yeti_vm.Memory.Layout.{IsMmu, All-map, end}

pub All-Mem : (P : Block → Type 0) (mmu : Mmu) (b : Block) → All P mmu → Memᴰ b mmu → P b
All-Mem P [] b ps m = elim m [ ]
All-Mem P (c ∷ cs) b (p, ps) (head e) = subst P (sym e) p
All-Mem P (c ∷ cs) b (p, ps) (tail m) = All-Mem P cs b ps m

pub IsMmu-Mem : (mmu : Mmu) (b : Block) → IsMmu mmu → Memᴰ b mmu → IsBlock b
IsMmu-Mem [] b w m = elim m [ ]
IsMmu-Mem (c ∷ cs) b (wc, after, w) (head e) = subst IsBlock (sym e) wc
IsMmu-Mem (c ∷ cs) b (wc, after, w) (tail m) = IsMmu-Mem cs b w m

-- A block that is found is one of the unit's and contains the access.
pub find_block_found :
    (mmu : Mmu) (a n : ℕ) (b : Block)
    → find_block mmu a n ≡ some b
    → Memᴰ b mmu × (in_range_size b.params a n ≡ true)
unfolding find_block
find_block_found [] a n b e = cc
find_block_found (c ∷ cs) a n b e = elim (Bool-cases (in_range_size c.params a n)) [
  | inl t ↦
      let eq : c ≡ b = ground (arith, t, e) in
      subst (λ x. Memᴰ x (c ∷ cs) × (in_range_size x.params a n ≡ true)) eq (head refl, t)
  | inr f ↦ let r = find_block_found cs a n b (ground (arith, f, e)) in (tail r.0, r.1)
]

-- No address is in a block and in one that starts behind its end.
in_range-end :
    (p : Params) (a n : ℕ)
    → end p < 2 ^ 32
    → a < 2 ^ 32
    → in_range_size p a n ≡ true
    → (p.block_start ≤ a) × (a < end p)
unfolding in_range_size in_range
in_range-end p a n fits lt e = ground arith

-- In a unit without common bytes a block that contains the access, whose address is below 2 ^ 32,
-- is the one that is found.
pub find_block_unique :
    (mmu : Mmu) (a n : ℕ) (b : Block)
    → IsMmu mmu
    → a < 2 ^ 32
    → Memᴰ b mmu
    → in_range_size b.params a n ≡ true
    → find_block mmu a n ≡ some b
unfolding find_block
find_block_unique [] a n b w lt m e = elim m [ ]
find_block_unique (c ∷ cs) a n b (wc, after, w) lt (head eq) e =
    let t : in_range_size c.params a n ≡ true =
      subst (λ x. in_range_size x.params a n ≡ true) eq e in
    rw t (ap some (sym eq))
find_block_unique (c ∷ cs) a n b (wc, after, w) lt (tail m) e =
    let le = All-Mem (λ x. end c.params ≤ x.params.block_start) cs b after m in
    let wb = IsMmu-Mem cs b w m in
    let rb = in_range-end b.params a n wb.end_lt lt e in
    elim (Bool-cases (in_range_size c.params a n)) [
      | inl t ↦ absurd (omega (arith, le, rb, in_range-end c.params a n wc.end_lt lt t))
      | inr f ↦ rw f (find_block_unique cs a n b w lt m e)
    ]

pub key_unique :
    (mmu : Mmu) (b x : Block)
    → IsMmu mmu
    → Memᴰ b mmu
    → Memᴰ x mmu
    → b.params.block_start ≡ x.params.block_start
    → b ≡ x
key_unique [] b x w m n e = elim m [ ]
key_unique (c ∷ cs) b x (wc, after, w) (head eq) (head eq') e = eq ∙ sym eq'
key_unique (c ∷ cs) b x (wc, after, w) (head eq) (tail n) e =
    let s = ap (λ y. y.params.block_start) eq in
    absurd (
      omega
        (arith, wc.size_pos, e, s, All-Mem (λ y. end c.params ≤ y.params.block_start) cs x after n))
key_unique (c ∷ cs) b x (wc, after, w) (tail m) (head eq) e =
    let s = ap (λ y. y.params.block_start) eq in
    absurd (
      omega
        (arith, wc.size_pos, e, s, All-Mem (λ y. end c.params ≤ y.params.block_start) cs b after m))
key_unique (c ∷ cs) b x (wc, after, w) (tail m) (tail n) e = key_unique cs b x w m n e

-- A write through a pointer: the block found before is found again, with its new bytes, and the
-- others as they were.
abbrev pub updated : Block → Option Block → Option Block
updated b none = none
updated b (some x) = if x.params.block_start == b.params.block_start then some b else some x

find_block-untouched :
    (mmu : Mmu) (b : Block) (c n : ℕ)
    → All (λ x. (x.params.block_start == b.params.block_start) ≡ false) mmu
    → updated b (find_block mmu c n) ≡ find_block mmu c n
unfolding find_block
find_block-untouched [] b c n ps = refl
find_block-untouched (x ∷ xs) b c n (p, ps) = elim (Bool-cases (in_range_size x.params c n)) [
  | inl t ↦ rw (t, p) refl
  | inr f ↦ rw f (find_block-untouched xs b c n ps)
]

-- The blocks behind a block have other starts.
others :
    (x b : Block) (xs : Mmu)
    → IsBlock x
    → x.params.block_start ≡ b.params.block_start
    → All (λ c. end x.params ≤ c.params.block_start) xs
    → All (λ c. (c.params.block_start == b.params.block_start) ≡ false) xs
others x b xs wx e after =
    All-map (λ c. end x.params ≤ c.params.block_start)
      (λ c. (c.params.block_start == b.params.block_start) ≡ false) xs
      (λ c le. ground (arith, wx.size_pos, e, le)) after

pub find_block-replace_block :
    (mmu : Mmu) (b : Block) (c n : ℕ)
    → IsMmu mmu
    → All (λ x. x.params.block_start ≡ b.params.block_start → x.params ≡ b.params) mmu
    → find_block (replace_block mmu b) c n ≡ updated b (find_block mmu c n)
unfolding find_block replace_block
find_block-replace_block [] b c n w ks = refl
find_block-replace_block (x ∷ xs) b c n (wx, after, w) (k, ks) =
    elim (Bool-cases (x.params.block_start == b.params.block_start)) [
      | inl q ↦
          let e = (==_iff x.params.block_start b.params.block_start).0 q in
          let p = k e in
          elim (Bool-cases (in_range_size b.params c n)) [
            | inl t ↦
                let t' : in_range_size x.params c n ≡ true =
                  subst (λ y. in_range_size y c n ≡ true) (sym p) t in
                rw (q, t, t') (rw q refl)
            | inr f ↦
                let f' : in_range_size x.params c n ≡ false =
                  subst (λ y. in_range_size y c n ≡ false) (sym p) f in
                rw (q, f, f') (sym (find_block-untouched xs b c n (others x b xs wx e after)))
          ]
      | inr q ↦ elim (Bool-cases (in_range_size x.params c n)) [
        | inl t ↦ rw (q, t) (rw q refl)
        | inr f ↦ rw (q, f) (find_block-replace_block xs b c n w ks)
      ]
    ]

replace_block-starts :
    (Q : ℕ → Type 0) (mmu : Mmu) (b : Block)
    → All (λ c. Q c.params.block_start) mmu
    → All (λ c. Q c.params.block_start) (replace_block mmu b)
unfolding replace_block
replace_block-starts Q [] b qs = tt
replace_block-starts Q (x ∷ xs) b (q, qs) =
    elim (Bool-cases (x.params.block_start == b.params.block_start)) [
      | inl e ↦ rw e (subst Q ((==_iff x.params.block_start b.params.block_start).0 e) q, qs)
      | inr e ↦ rw e (q, replace_block-starts Q xs b qs)
    ]

pub replace_block-IsMmu :
    (mmu : Mmu) (b : Block)
    → IsMmu mmu
    → All (λ x. x.params.block_start ≡ b.params.block_start → x.params ≡ b.params) mmu
    → IsMmu (replace_block mmu b)
unfolding replace_block
replace_block-IsMmu [] b w ks = tt
replace_block-IsMmu (x ∷ xs) b (wx, after, w) (k, ks) =
    elim (Bool-cases (x.params.block_start == b.params.block_start)) [
      | inl e ↦
          let p = k ((==_iff x.params.block_start b.params.block_start).0 e) in
          let wb : IsBlock b = record {
            size_pos = subst (λ y. 0 < y.block_size) p wx.size_pos;
            end_lt = subst (λ y. end y < 2 ^ 32) p wx.end_lt;
            small = subst (λ y. y.block_size + 4 ≤ 2 ^ 32) p wx.small;
          } in
          rw e (wb, subst (λ y. All (λ c. end y ≤ c.params.block_start) xs) p after, w)
      | inr e ↦ rw e (
        wx,
        replace_block-starts (λ s. end x.params ≤ s) xs b after,
        replace_block-IsMmu xs b w ks,
      )
    ]

All-of : (P : Block → Type 0) (mmu : Mmu) → ((x : Block) → Memᴰ x mmu → P x) → All P mmu
All-of P [] f = tt
All-of P (x ∷ xs) f = (f x (head refl), All-of P xs (λ y m. f y (tail m)))

-- The blocks with the key of a block of the unit have its region.
pub same_key :
    (mmu : Mmu) (b b' : Block)
    → IsMmu mmu
    → Memᴰ b mmu
    → b'.params ≡ b.params
    → All (λ x. x.params.block_start ≡ b'.params.block_start → x.params ≡ b'.params) mmu
same_key mmu b b' w m e =
    All-of (λ x. x.params.block_start ≡ b'.params.block_start → x.params ≡ b'.params) mmu
      (λ x mx k.
        ap (λ y. y.params) (key_unique mmu x b w mx m (k ∙ ap (λ p. p.block_start) e)) ∙ sym e)
