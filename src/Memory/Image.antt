-- ===== src/Memory/Image.antt =====
-- The contents of a memory unit as a map from addresses to bytes, which forgets its blocks: what
-- the stores of vm_memory.cxx come to.
use mathlib.Core.List.{Memᴰ}
use yeti_vm.Base.{
  ℕ, zero, suc, ◌*◌, ◌+◌, ◌-◌, ◌^◌, ◌<◌, ◌≤◌, ◌≡◌, inl, inr, refl, sym, subst, ap, ◌∙◌, arith, Bool,
  true, false, ◌&&◌, Option, none, some, List,
}
use yeti_vm.Base.{◌==◌, ==_iff, leb, ltb, if◌then◌else◌, Bool-cases, Option-cases, length, get_or}
use yeti_vm.Memory.Params.{offset, in_range_size}
use yeti_vm.Memory.Block.{Block, done, store, write_bytes}
use yeti_vm.Memory.Mmu.{Mmu, find_block, replace_block}
use yeti_vm.Memory.Contents.{IsBlock, offset_lem, store_done, store-params, in_range_size_iff}
use yeti_vm.Memory.Layout.{IsMmu}
use yeti_vm.Memory.Lookup.{
  IsMmu-Mem, find_block_found, find_block_unique, find_block-replace_block, same_key, key_unique,
  updated,
}

-- `none` where no block has the address.
abbrev pub Image : Type 0
Image = ℕ → Option ℕ

unfoldable pub byte_of : ℕ → Option Block → Option ℕ
byte_of a none = none
byte_of a (some b) = some (b.bytes (a - b.params.block_start))

unfoldable pub peek : Mmu → Image
peek mmu a = byte_of a (find_block mmu a 1)

abbrev pub covers : ℕ → List ℕ → ℕ → Bool
covers a src c = leb a c && ltb (c - a) (length src)

-- The image with the bytes of a list from an address on.
unfoldable pub patch : Image → ℕ → List ℕ → Image
patch m a src c = if covers a src c then some (get_or src (c - a) 0) else m c

if-some : (t : Bool) (x y : ℕ) → some (if t then x else y) ≡ (if t then some x else some y)
if-some true x y = refl
if-some false x y = refl

byte_start : Option Block → ℕ
byte_start none = 0
byte_start (some b) = b.params.block_start

-- What a store through the block that the unit finds has tested.
module _ (mmu : Mmu) (a : ℕ) (src : List ℕ) (b b' : Block) (w : IsMmu mmu) (lt : a < 2 ^ 32)
    (found : find_block mmu a (length src) ≡ some b) (stored : store b a src ≡ done b') where
  member : Memᴰ b mmu
  member = (find_block_found mmu a (length src) b found).0

  member-IsBlock : IsBlock b
  member-IsBlock = IsMmu-Mem mmu b w member

  at_offset : offset b.params a + b.params.block_start ≡ a
  at_offset = offset_lem b.params a (length src) lt (store_done b b' a src stored).0

  in_vector : offset b.params a + length src ≤ b.params.block_size
  in_vector = let (t, v, e) = store_done b b' a src stored in ground (arith, v)

  -- Each covered address is in the block.
  covered-found : (c : ℕ) → covers a src c ≡ true → find_block mmu c 1 ≡ some b
  covered-found c t =
      let c-lt : c < 2 ^ 32 = ground (arith, t, at_offset, in_vector, member-IsBlock.end_lt) in
      find_block_unique mmu c 1 b w c-lt member (
        (in_range_size_iff b.params c 1 c-lt member-IsBlock.end_lt
            (omega (arith, member-IsBlock.small))).1
          (
            ground (arith, t, at_offset),
            ground (arith, t, at_offset, in_vector, member-IsBlock.size_pos),
            ground (arith, t, at_offset, in_vector),
          ))

  new_byte :
      (c : ℕ)
      → b.params.block_start ≤ c
      → write_bytes b.bytes (offset b.params a) src (c - b.params.block_start)
        ≡ (if covers a src c then get_or src (c - a) 0 else b.bytes (c - b.params.block_start))
  unfolding write_bytes
  new_byte c le =
      let e : c - b.params.block_start - offset b.params a ≡ c - a = omega (arith, at_offset) in
      let l : leb (offset b.params a) (c - b.params.block_start) ≡ leb a c =
        ground (arith, at_offset) in
      rw (e, l) refl

  replaced : (c : ℕ) → find_block (replace_block mmu b') c 1 ≡ updated b' (find_block mmu c 1)
  replaced c =
      find_block-replace_block mmu b' c 1 w
        (same_key mmu b b' w member (store-params b b' a src stored))

  in_block : (c : ℕ) → find_block mmu c 1 ≡ some b → c < 2 ^ 32 → b.params.block_start ≤ c
  in_block c e c-lt =
      ((in_range_size_iff b.params c 1 c-lt member-IsBlock.end_lt
          (omega (arith, member-IsBlock.small))).0
        (find_block_found mmu c 1 b e).1).0

  rewritten :
      (c : ℕ)
      → b.params.block_start ≤ c
      → some (b'.bytes (c - b'.params.block_start)) ≡ (
          if covers a src c
          then some (get_or src (c - a) 0)
          else some (b.bytes (c - b.params.block_start)))
  rewritten c le =
      subst
        (λ z. some (z.bytes (c - z.params.block_start)) ≡ (
          if covers a src c
          then some (get_or src (c - a) 0)
          else some (b.bytes (c - b.params.block_start))))
        (store_done b b' a src stored).2
        (ap some (new_byte c le)
          ∙ if-some (covers a src c) (get_or src (c - a) 0) (b.bytes (c - b.params.block_start)))

  -- The store as the map sees it.
  pub peek-store : (c : ℕ) → c < 2 ^ 32 → peek (replace_block mmu b') c ≡ patch (peek mmu) a src c
  unfolding peek byte_of patch
  peek-store c c-lt = elim (Option-cases (find_block mmu c 1)) [
    | inl e ↦ elim (Bool-cases (covers a src c)) [
      | inl t ↦ let clash : none ≡ some b = sym e ∙ covered-found c t in cc
      | inr t ↦ rw (replaced c, e) (rw t refl)
    ]
    | inr (x, e) ↦ elim (Bool-cases (x.params.block_start == b'.params.block_start)) [
      | inl k ↦
          let start : b'.params.block_start ≡ b.params.block_start =
            ap (λ p. p.block_start) (store-params b b' a src stored) in
          let same : x ≡ b =
            key_unique mmu x b w (find_block_found mmu c 1 x e).0 member
              ((==_iff x.params.block_start b'.params.block_start).0 k ∙ start) in
          let le = in_block c (subst (λ y. find_block mmu c 1 ≡ some y) same e) c-lt in
          rw (replaced c, e)
            (rw k (
              subst
                (λ y. some (b'.bytes (c - b'.params.block_start)) ≡ (
                  if covers a src c
                  then some (get_or src (c - a) 0)
                  else some (y.bytes (c - y.params.block_start))))
                (sym same) (rewritten c le)))
      | inr k ↦ elim (Bool-cases (covers a src c)) [
        | inl t ↦
            let same : some x ≡ some b = sym e ∙ covered-found c t in
            let start = ap (λ y. byte_start y) same in
            absurd
              (ground (arith, k, start, ap (λ p. p.block_start) (store-params b b' a src stored)))
        | inr t ↦ rw (replaced c, e) (rw (k, t) refl)
      ]
    ]
  ]

-- The number that `n` bytes make from an address on, the lowest first.
abbrev pub byte_or_zero : Option ℕ → ℕ
byte_or_zero none = 0
byte_or_zero (some b) = b

unfoldable pub value_at : Image → ℕ → ℕ → ℕ
value_at m a zero = 0
value_at m a (suc n) = byte_or_zero (m a) + value_at m (suc a) n * 256

-- The image of bytes.
abbrev pub IsBytes : Image → Type 0
IsBytes m = (a : ℕ) → a < 2 ^ 32 → byte_or_zero (m a) < 256

-- What a block holds within itself is what the unit holds.
pub peek-Within :
    (mmu : Mmu) (b : Block) (a : ℕ)
    → IsMmu mmu
    → Memᴰ b mmu
    → b.params.block_start ≤ a
    → a < b.params.block_start + b.params.block_size
    → peek mmu a ≡ some (b.bytes (a - b.params.block_start))
unfolding peek byte_of
peek-Within mmu b a w m low high =
    let wb = IsMmu-Mem mmu b w m in
    let lt : a < 2 ^ 32 = omega (arith, wb.end_lt) in
    let inside : in_range_size b.params a 1 ≡ true =
      (in_range_size_iff b.params a 1 lt wb.end_lt (omega (arith, wb.small))).1
        (low, high, omega arith) in
    rw (find_block_unique mmu a 1 b w lt m inside) refl
