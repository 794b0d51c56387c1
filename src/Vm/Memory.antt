-- ===== src/Vm/Memory.antt =====
-- Memory as a program of the machine sees it: `read_memory` after `write_memory`.
use mathlib.Core.List.{Memᴰ}
use yeti_vm.Base.{
  ℕ, ◌+◌, ◌-◌, ◌*◌, ◌/◌, ◌%◌, ◌^◌, ◌<◌, ◌≤◌, ◌≡◌, ◌≢◌, ◌⊎◌, inl, inr, refl, sym, subst, ap, ◌∙◌,
  arith, true, false, none, some, List,
}
use yeti_vm.Base.{ltb, ◌==◌, ◌!=◌, Bool-cases, ==_iff}
use yeti_vm.Base.Exec.{ok, err, ◌>>=◌, data_access_error}
use yeti_vm.Memory.Block.{Block, done, write_bytes, read_bytes, load, store}
use yeti_vm.Memory.Mmu.{find_block, replace_block}
use yeti_vm.Memory.Contents.{
  Apart, Within, in_range_size_iff, load-Within, store-Within, load-store, load-store-Apart,
}
use yeti_vm.Memory.Layout.{IsMmu}
use yeti_vm.Memory.Lookup.{
  IsMmu-Mem, find_block_unique, find_block-replace_block, same_key, key_unique, updated,
}
use yeti_vm.Vm.State.{Vm}
use yeti_vm.Vm.Access.{to_bytes, overlay, get_ptr, read_memory, write_memory}
use yeti_vm.Vm.Words.{length-to_bytes, of_bytes-to_bytes}

-- A variable of `n` bytes at address `a`: aligned, and within one block of the unit.
pub record Accessible (a n : ℕ) (vm : Vm) : Type 0 where
  pub block : Block
  pub size_pos : 0 < n
  pub size_le : n ≤ 4
  pub aligned : a % n ≡ 0
  pub address_lt : a < 2 ^ 32
  pub member : Memᴰ block vm.mmu
  pub within : Within block.params a n

-- No sum of an offset and the size wraps.
pub small :
    (a n : ℕ) (vm : Vm)
    → IsMmu vm.mmu
    → (x : Accessible a n vm) → x.block.params.block_size + n ≤ 2 ^ 32
small a n vm w x = omega (arith, x.size_le, (IsMmu-Mem vm.mmu x.block w x.member).small)

-- The guards that the accesses share.
guards :
    (a n : ℕ)
    → 0 < n
    → n ≤ 4
    → a % n ≡ 0
    → ((n == 0) ≡ false) × (ltb 4 n ≡ false) × ((a % n != 0) ≡ false)
guards a n pos le al = (ground arith, ground arith, ground arith)

-- The block that the unit finds for it.
pub found :
    (a n : ℕ) (vm : Vm)
    → IsMmu vm.mmu
    → (x : Accessible a n vm) → find_block vm.mmu a n ≡ some x.block
found a n vm w x =
    let wb = IsMmu-Mem vm.mmu x.block w x.member in
    find_block_unique vm.mmu a n x.block w x.address_lt x.member
      ((in_range_size_iff x.block.params a n x.address_lt wb.end_lt (small a n vm w x)).1 x.within)

-- The block after the write.
abbrev pub rewritten : (a n v : ℕ) (block : Block) → Block
rewritten a n v block = record block {
  bytes = write_bytes block.bytes (a - block.params.block_start) (to_bytes n v);
}

pub store_lem :
    (a n v : ℕ) (vm : Vm)
    → IsMmu vm.mmu
    → (x : Accessible a n vm) → store x.block a (to_bytes n v) ≡ done (rewritten a n v x.block)
store_lem a n v vm w x =
    let l = length-to_bytes n v in
    store-Within x.block a (to_bytes n v) (IsMmu-Mem vm.mmu x.block w x.member) x.address_lt
      (rw l (small a n vm w x)) (rw l x.within)

pub write_memory_lem :
    (a n v : ℕ) (vm : Vm)
    → IsMmu vm.mmu
    → (x : Accessible a n vm)
    → write_memory a n v vm
      ≡ (ok tt, record vm { mmu = replace_block vm.mmu (rewritten a n v x.block) })
unfolding write_memory get_ptr
write_memory_lem a n v vm w x =
    let (g₀, g₁, g₂) = guards a n x.size_pos x.size_le x.aligned in
    rw (g₀, g₁, g₂) (rw (found a n vm w x, store_lem a n v vm w x) refl)

pub read_memory_lem :
    (a n v : ℕ) (vm : Vm) (block : Block) (bytes : List ℕ)
    → 0 < n
    → n ≤ 4
    → a % n ≡ 0
    → find_block vm.mmu a n ≡ some block
    → load block a n ≡ done bytes
    → read_memory a n v vm ≡ (ok (overlay v n bytes), vm)
unfolding read_memory get_ptr
read_memory_lem a n v vm block bytes pos le al f l =
    let (g₀, g₁, g₂) = guards a n pos le al in rw (g₀, g₁, g₂, f, l) refl

-- What the unit finds after the write.
pub found_after :
    (a n v : ℕ) (vm : Vm) (c m : ℕ)
    → IsMmu vm.mmu
    → (x : Accessible a n vm)
    → find_block (replace_block vm.mmu (rewritten a n v x.block)) c m
      ≡ updated (rewritten a n v x.block) (find_block vm.mmu c m)
found_after a n v vm c m w x =
    find_block-replace_block vm.mmu (rewritten a n v x.block) c m w
      (same_key vm.mmu x.block (rewritten a n v x.block) w x.member refl)

-- A write of 1 to 4 bytes at an aligned address within a block of a well-formed unit, and a read
-- of the same bytes after it, return; the read gives the low bytes of what was written, under the
-- bits that the variable held above them.
pub read_memory-write_memory :
    (a n v u : ℕ) (vm : Vm)
    → IsMmu vm.mmu
    → Accessible a n vm
    → (write_memory a n v >>= λ _. read_memory a n u) vm
      ≡ (ok (u / 2 ^ (8 * n) * 2 ^ (8 * n) + v % 2 ^ (8 * n)), (write_memory a n v vm).1)
unfolding overlay
read_memory-write_memory a n v u vm w x =
    let b : Block = rewritten a n v x.block in
    let e = write_memory_lem a n v vm w x in
    let same : (b.params.block_start == b.params.block_start) ≡ true = ground arith in
    let s = store_lem a n v vm w x in
    let back : load b a n ≡ done (to_bytes n v) =
      subst (λ k. load b a k ≡ done (to_bytes n v)) (length-to_bytes n v)
        (load-store x.block b a (to_bytes n v) s) in
    let f : find_block (replace_block vm.mmu b) a n ≡ some b =
      found_after a n v vm a n w x ∙ ap (updated b) (found a n vm w x) ∙ rw same refl in
    rw e (
      read_memory_lem a n u (record vm { mmu = replace_block vm.mmu b }) b (to_bytes n v) x.size_pos
        x.size_le x.aligned f back
      ∙ rw (of_bytes-to_bytes n v) refl)

-- The block behind another variable holds the same bytes there after the write.
block_after :
    (a n v c m : ℕ) (vm : Vm)
    → IsMmu vm.mmu
    → (x : Accessible a n vm) (y : Accessible c m vm) → Apart a n c m
    → (b : Block) × (find_block (replace_block vm.mmu (rewritten a n v x.block)) c m ≡ some b)
      × (load b c m ≡ load y.block c m)
block_after a n v c m vm w x y apart =
    let b : Block = rewritten a n v x.block in
    let f = found_after a n v vm c m w x ∙ ap (updated b) (found c m vm w y) in
    elim (Bool-cases (y.block.params.block_start == b.params.block_start)) [
      | inl e ↦
          let same : y.block ≡ x.block =
            key_unique vm.mmu y.block x.block w y.member x.member
              ((==_iff y.block.params.block_start b.params.block_start).0 e) in
          let l =
            load-store-Apart x.block b a (to_bytes n v) c m x.address_lt y.address_lt
              (store_lem a n v vm w x) (rw (length-to_bytes n v) apart) in
          (b, f ∙ rw e refl, l ∙ ap (λ z. load z c m) (sym same))
      | inr e ↦ (y.block, f ∙ rw e refl, refl)
    ]

-- After a write in a well-formed unit, a read of an aligned variable within a block that shares no
-- byte with what was written gives what it gave before.
pub read_memory-write_memory-Apart :
    (a n v c m u : ℕ) (vm : Vm)
    → IsMmu vm.mmu
    → Accessible a n vm
    → Accessible c m vm
    → Apart a n c m
    → (write_memory a n v >>= λ _. read_memory c m u) vm
      ≡ ((read_memory c m u vm).0, (write_memory a n v vm).1)
read_memory-write_memory-Apart a n v c m u vm w x y apart =
    let (b, f, l) = block_after a n v c m vm w x y apart in
    let b' : Block = rewritten a n v x.block in
    let before =
      load-Within y.block c m (IsMmu-Mem vm.mmu y.block w y.member) y.address_lt (small c m vm w y)
        y.within in
    let bytes = read_bytes y.block.bytes (c - y.block.params.block_start) m in
    let e = write_memory_lem a n v vm w x in
    let r =
      read_memory_lem c m u vm y.block bytes y.size_pos y.size_le y.aligned (found c m vm w y)
        before in
    rw (e, r)
      (read_memory_lem c m u (record vm { mmu = replace_block vm.mmu b' }) b bytes y.size_pos
        y.size_le y.aligned f (l ∙ before))

write_memory_error :
    (a n v : ℕ) (vm : Vm)
    → 0 < n
    → n ≤ 4
    → (a % n ≢ 0) ⊎ (find_block vm.mmu a n ≡ none)
    → write_memory a n v vm ≡ (err data_access_error, vm)
unfolding write_memory get_ptr
write_memory_error a n v vm pos le bad =
    let g₀ : (n == 0) ≡ false = ground arith in
    let g₁ : ltb 4 n ≡ false = ground arith in
    elim (Bool-cases (a % n != 0)) [
      | inl e ↦ rw (g₀, g₁, e) refl
      | inr e ↦
          let f : find_block vm.mmu a n ≡ none = ground (arith, bad, e) in
          rw (g₀, g₁, e) (rw f refl)
    ]

read_memory_error :
    (a n u : ℕ) (vm : Vm)
    → 0 < n
    → (a % n ≢ 0) ⊎ (find_block vm.mmu a n ≡ none)
    → read_memory a n u vm ≡ (err data_access_error, vm)
unfolding read_memory get_ptr
read_memory_error a n u vm pos bad =
    let g₀ : (n == 0) ≡ false = ground arith in
    elim (Bool-cases (a % n != 0)) [
      | inl e ↦ rw (g₀, e) refl
      | inr e ↦
          let f : find_block vm.mmu a n ≡ none = ground (arith, bad, e) in rw (g₀, e) (rw f refl)
    ]

-- For 1 to 4 bytes, where the address is not a multiple of the size, and where the unit finds no
-- block, a read and a write throw data_access_error and leave the machine as it is.
pub memory_error :
    (a n v : ℕ) (vm : Vm)
    → 0 < n
    → n ≤ 4
    → (a % n ≢ 0) ⊎ (find_block vm.mmu a n ≡ none)
    → (read_memory a n v vm ≡ (err data_access_error, vm))
      × (write_memory a n v vm ≡ (err data_access_error, vm))
memory_error a n v vm pos le bad =
    (read_memory_error a n v vm pos bad, write_memory_error a n v vm pos le bad)
