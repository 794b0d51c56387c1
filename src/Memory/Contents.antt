-- ===== src/Memory/Contents.antt =====
-- What a region holds after a store, of `generic_memory` in vm_memory.cxx.
use yeti_vm.Base.{
  ℕ, zero, suc, ◌+◌, ◌-◌, ◌^◌, ◌<◌, ◌≤◌, ◌≡◌, ◌⊎◌, inl, inr, ◌↔◌, refl, sym, subst, ap, ap₂, ◌∙◌,
  arith, Bool, true, false, List, [], ◌∷◌,
}
use yeti_vm.Base.{leb, if◌then◌else◌, length, Bool-cases}
use yeti_vm.Memory.Params.{Params, offset, in_range, in_range_size}
use yeti_vm.Memory.Block.{Block, done, refused, undefined, read_bytes, write_bytes, load, store}

-- A region of at least one byte that ends below 2 ^ 32, and so small that an offset in it and the
-- size of an access do not wrap.
pub record IsBlock (b : Block) : Type 0 where
  pub size_pos : 0 < b.params.block_size
  pub end_lt : b.params.block_start + b.params.block_size < 2 ^ 32
  pub small : b.params.block_size + 4 ≤ 2 ^ 32

-- The access is within the region.
abbrev pub Within : Params → ℕ → ℕ → Type 0
Within p address size =
    (p.block_start ≤ address)
    × (address < p.block_start + p.block_size)
    × (address + size ≤ p.block_start + p.block_size)

abbrev pub Apart : ℕ → ℕ → ℕ → ℕ → Type 0
Apart a n c m = (a + n ≤ c) ⊎ (c + m ≤ a)

-- For an access of `size` bytes the test is exact in a region so small that no sum wraps.
pub in_range_size_iff :
    (p : Params) (address size : ℕ)
    → address < 2 ^ 32
    → p.block_start + p.block_size < 2 ^ 32
    → p.block_size + size ≤ 2 ^ 32
    → (in_range_size p address size ≡ true) ↔ Within p address size
unfolding in_range_size in_range offset
in_range_size_iff p address size lt fits small = ground arith

pub offset_lem :
    (p : Params) (address size : ℕ)
    → address < 2 ^ 32
    → in_range_size p address size ≡ true
    → offset p address + p.block_start ≡ address
unfolding in_range_size in_range offset
offset_lem p address size lt e = ground arith

read_bytes-eq :
    (f g : ℕ → ℕ) (o n : ℕ)
    → ((i : ℕ) → o ≤ i → i < o + n → f i ≡ g i)
    → read_bytes f o n ≡ read_bytes g o n
unfolding read_bytes
read_bytes-eq f g o zero e = refl
read_bytes-eq f g o (suc n) e =
    ap₂ (λ x xs. x ∷ xs) (e o (omega arith) (omega arith))
      (read_bytes-eq f g (suc o) n (λ i le lt. e i (omega arith) (omega arith)))

write_bytes-head : (f : ℕ → ℕ) (o x : ℕ) (xs : List ℕ) → write_bytes f o (x ∷ xs) o ≡ x
unfolding write_bytes
write_bytes-head f o x xs = ground arith

write_bytes-tail :
    (f : ℕ → ℕ) (o x : ℕ) (xs : List ℕ) (i : ℕ)
    → suc o ≤ i
    → write_bytes f o (x ∷ xs) i ≡ write_bytes f (suc o) xs i
unfolding write_bytes
write_bytes-tail f o x xs i le =
    let e : i - o ≡ suc (i - suc o) = omega arith in
    let l₁ : leb o i ≡ true = ground arith in
    let l₂ : leb (suc o) i ≡ true = ground arith in rw (e, l₁, l₂) (ground arith)

read-write_bytes :
    (f : ℕ → ℕ) (o : ℕ) (xs : List ℕ) → read_bytes (write_bytes f o xs) o (length xs) ≡ xs
unfolding read_bytes
read-write_bytes f o [] = refl
read-write_bytes f o (x ∷ xs) =
    ap₂ (λ y ys. y ∷ ys) (write_bytes-head f o x xs)
      (read_bytes-eq (write_bytes f o (x ∷ xs)) (write_bytes f (suc o) xs) (suc o) (length xs)
          (λ i le lt. write_bytes-tail f o x xs i le)
        ∙ read-write_bytes f (suc o) xs)

write_bytes-Apart :
    (f : ℕ → ℕ) (o : ℕ) (xs : List ℕ) (c n : ℕ)
    → Apart o (length xs) c n
    → read_bytes (write_bytes f o xs) c n ≡ read_bytes f c n
unfolding write_bytes
write_bytes-Apart f o xs c n apart =
    read_bytes-eq (write_bytes f o xs) f c n (λ i le lt. ground (arith, apart))

guarded :
    {A : Type 0} (c d : Bool) (x y : A)
    → (if c then (if d then done x else undefined) else refused) ≡ done y
    → (c ≡ true) × (d ≡ true) × (x ≡ y)
guarded true true x y e = (refl, refl, cc)
guarded true false x y e = cc
guarded false d x y e = cc

-- What a store that succeeds has tested and done.
pub store_done :
    (b b' : Block) (a : ℕ) (src : List ℕ)
    → store b a src ≡ done b'
    → (in_range_size b.params a (length src) ≡ true)
      × (leb (offset b.params a + length src) b.params.block_size ≡ true)
      × (record b { bytes = write_bytes b.bytes (offset b.params a) src } ≡ b')
unfolding store
store_done b b' a src e =
    guarded (in_range_size b.params a (length src))
      (leb (offset b.params a + length src) b.params.block_size)
      (record b { bytes = write_bytes b.bytes (offset b.params a) src }) b' e

pub store-params :
    (b b' : Block) (a : ℕ) (src : List ℕ) → store b a src ≡ done b' → b'.params ≡ b.params
store-params b b' a src e = sym (ap (λ x. x.params) (store_done b b' a src e).2)

-- A store gives its bytes back at the same address, whatever the block and the address are.
pub load-store :
    (b b' : Block) (a : ℕ) (src : List ℕ)
    → store b a src ≡ done b'
    → load b' a (length src) ≡ done src
unfolding load
load-store b b' a src e =
    let (t, v, eq) = store_done b b' a src e in
    subst (λ x. load x a (length src) ≡ done src) eq
      (rw (t, v) (ap done (read-write_bytes b.bytes (offset b.params a) src)))

-- A store leaves what is apart from it.
pub load-store-Apart :
    (b b' : Block) (a : ℕ) (src : List ℕ) (c n : ℕ)
    → a < 2 ^ 32
    → c < 2 ^ 32
    → store b a src ≡ done b'
    → Apart a (length src) c n
    → load b' c n ≡ load b c n
unfolding load
load-store-Apart b b' a src c n a-lt c-lt e apart =
    let (t, v, eq) = store_done b b' a src e in
    subst (λ x. load x c n ≡ load b c n) eq (go (Bool-cases (in_range_size b.params c n)))
  where
    go :
        (in_range_size b.params c n ≡ true) ⊎ (in_range_size b.params c n ≡ false)
        → load (record b { bytes = write_bytes b.bytes (offset b.params a) src }) c n ≡ load b c n
    go (inl s) =
        let r = write_bytes-Apart b.bytes (offset b.params a) src (offset b.params c) n (
          omega (
            arith,
            apart,
            offset_lem b.params c n c-lt s,
            offset_lem b.params a (length src) a-lt (store_done b b' a src e).0,
          )) in
        rw (s, r) refl
    go (inr s) = rw s refl

-- In a region that is small enough, an access is done exactly when it is within the region, and
-- never reaches past the vector.
pub load-Within :
    (b : Block) (a n : ℕ)
    → IsBlock b
    → a < 2 ^ 32
    → b.params.block_size + n ≤ 2 ^ 32
    → Within b.params a n
    → load b a n ≡ done (read_bytes b.bytes (a - b.params.block_start) n)
unfolding load
load-Within b a n w lt small within =
    let t = (in_range_size_iff b.params a n lt w.end_lt small).1 within in
    let o : offset b.params a ≡ a - b.params.block_start =
      omega (arith, offset_lem b.params a n lt t, within) in
    let v : leb (a - b.params.block_start + n) b.params.block_size ≡ true =
      ground (arith, within) in
    rw (t, o, v) refl

pub store-Within :
    (b : Block) (a : ℕ) (src : List ℕ)
    → IsBlock b
    → a < 2 ^ 32
    → b.params.block_size + length src ≤ 2 ^ 32
    → Within b.params a (length src)
    → store b a src ≡ done (record b { bytes = write_bytes b.bytes (a - b.params.block_start) src })
unfolding store
store-Within b a src w lt small within =
    let t = (in_range_size_iff b.params a (length src) lt w.end_lt small).1 within in
    let o : offset b.params a ≡ a - b.params.block_start =
      omega (arith, offset_lem b.params a (length src) lt t, within) in
    let v : leb (a - b.params.block_start + length src) b.params.block_size ≡ true =
      ground (arith, within) in
    rw (t, o, v) refl

pub load-refused : (b : Block) (a n : ℕ) → in_range_size b.params a n ≡ false → load b a n ≡ refused
unfolding load
load-refused b a n e = rw e refl
