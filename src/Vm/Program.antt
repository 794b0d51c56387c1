-- ===== src/Vm/Program.antt =====
-- What the loader of HEX programs in vm_basic.cxx promises, on the byte map of the memory.
use mathlib.Core.List.{Memᴰ}
use yeti_vm.Base.{
  ℕ, zero, suc, ◌+◌, ◌-◌, ◌%◌, ◌^◌, ◌<◌, ◌≡◌, ◌⊎◌, inl, inr, refl, subst, sym, ap, ◌∙◌, arith, Bool,
  true, false, Option, some, List, [], ◌∷◌,
}
use yeti_vm.Base.{◌==◌, if◌then◌else◌, length, get_or, All}
use yeti_vm.Base.Exec.{Exec, ok}
use yeti_vm.Memory.Params.{Params}
use yeti_vm.Memory.Contents.{Within}
use yeti_vm.Memory.Layout.{IsMmu}
use yeti_vm.Memory.Mmu.{Mmu, replace_block}
use yeti_vm.Memory.Image.{Image, peek, patch, peek-store, covers}
use yeti_vm.Memory.Regions.{regions, Stored, store-regions}
use yeti_vm.Hex.Record.{HexRecord, get_type, type_of, is_valid}
use yeti_vm.Hex.Printer.{IsByte}
use yeti_vm.Hex.Addresses.{extension_of, start_of, get_extend_lem, get_start_lem}
use yeti_vm.Vm.State.{Vm}
use yeti_vm.Vm.Setup.{have_code_flag, pc_initialized, is_flag_set, set_flag, init_pc}
use yeti_vm.Vm.Load.{load_data, load_records, set_program_hex}

-- The address of a record's first byte.
abbrev pub address_of : ℕ → HexRecord → ℕ
address_of offset r = (offset + r.offset) % 2 ^ 32

-- One of four, by the type of a record in the format: 0 carries data, 2 and 4 an offset, 3 and 5 an
-- entry point, and 1 ends the program.
abbrev pub by_type {ℓ} : {A : Type ℓ} → ℕ → A → A → A → A → A
by_type zero code extend start end = code
by_type (suc zero) code extend start end = end
by_type (suc (suc zero)) code extend start end = extend
by_type (suc (suc (suc zero))) code extend start end = start
by_type (suc (suc (suc (suc zero)))) code extend start end = extend
by_type (suc (suc (suc (suc (suc zero))))) code extend start end = start
by_type (suc (suc (suc (suc (suc (suc n)))))) code extend start end = end

-- The byte map that a program comes to, from an offset on.
unfoldable pub image_of : ℕ → List HexRecord → Image → Image
image_of offset [] m = m
image_of offset (r ∷ rs) m =
    by_type r.type (image_of offset rs (patch m (address_of offset r) r.bytes))
      (image_of (extension_of r) rs m) (image_of offset rs m) m

-- The last start record before the end of the program says where it starts.
unfoldable pub entry_of : ℕ → List HexRecord → ℕ
entry_of entry [] = entry
entry_of entry (r ∷ rs) =
    by_type r.type (entry_of entry rs) (entry_of entry rs) (entry_of (start_of r) rs) entry

-- A program that fits the regions: its records are valid, the bytes of each data record are within
-- one region, and a record of type EOF ends it.
pub data Fits (ps : List Params) : ℕ → List HexRecord → Type 0 where
  data_record :
      (offset : ℕ) (r : HexRecord) (rs : List HexRecord) (p : Params)
      → is_valid r ≡ true
      → r.type ≡ 0
      → Memᴰ p ps
      → 0 < length r.bytes
      → Within p (address_of offset r) (length r.bytes)
      → Fits ps offset rs
      → Fits ps offset (r ∷ rs)
  start_record :
      (offset : ℕ) (r : HexRecord) (rs : List HexRecord)
      → is_valid r ≡ true
      → (r.type ≡ 3) ⊎ (r.type ≡ 5)
      → Fits ps offset rs
      → Fits ps offset (r ∷ rs)
  extend_record :
      (offset : ℕ) (r : HexRecord) (rs : List HexRecord)
      → is_valid r ≡ true
      → (r.type ≡ 2) ⊎ (r.type ≡ 4)
      → Fits ps (extension_of r) rs
      → Fits ps offset (r ∷ rs)
  eof_record :
      (offset : ℕ) (r : HexRecord) (rs : List HexRecord)
      → is_valid r ≡ true
      → r.type ≡ 1
      → Fits ps offset (r ∷ rs)

-- The machine with a program in its memory.
abbrev pub loaded : ℕ → Mmu → Vm → Vm
loaded entry mmu vm = set_flag pc_initialized (record vm { mmu = mmu; initial_pc = entry })

pub record Loaded (m : Exec Vm Bool) (entry : ℕ) (image : Image) (vm : Vm) : Type 0 where
  pub mmu : Mmu
  pub returns : m vm ≡ (ok true, loaded entry mmu vm)
  pub IsMmu_after : IsMmu mmu
  pub regions_after : regions mmu ≡ regions vm.mmu
  pub image_after : (a : ℕ) → a < 2 ^ 32 → peek mmu a ≡ image a

get_type_at : (r : HexRecord) (type : ℕ) → r.type ≡ type → get_type r ≡ type_of type
unfolding get_type
get_type_at r type t = ap type_of t

by_type-at {ℓ} :
    {A : Type ℓ} (t k : ℕ) → t ≡ k → (d x s e : A) → by_type t d x s e ≡ by_type k d x s e
by_type-at t k e d x s e' = ap (λ (i : ℕ). by_type i d x s e') e

-- Images that agree below 2 ^ 32.
abbrev pub Agree : Image → Image → Type 0
Agree m n = (a : ℕ) → a < 2 ^ 32 → m a ≡ n a

by_type-Agree :
    (t : ℕ) (d d' x x' s s' e e' : Image)
    → Agree d d'
    → Agree x x'
    → Agree s s'
    → Agree e e'
    → Agree (by_type t d x s e) (by_type t d' x' s' e')
by_type-Agree zero d d' x x' s s' e e' p q r u = p
by_type-Agree (suc zero) d d' x x' s s' e e' p q r u = u
by_type-Agree (suc (suc zero)) d d' x x' s s' e e' p q r u = q
by_type-Agree (suc (suc (suc zero))) d d' x x' s s' e e' p q r u = r
by_type-Agree (suc (suc (suc (suc zero)))) d d' x x' s s' e e' p q r u = q
by_type-Agree (suc (suc (suc (suc (suc zero))))) d d' x x' s s' e e' p q r u = r
by_type-Agree (suc (suc (suc (suc (suc (suc n)))))) d d' x x' s s' e e' p q r u = u

pub patch-Agree :
    (m n : Image) (a : ℕ) (src : List ℕ) → Agree m n → Agree (patch m a src) (patch n a src)
unfolding patch
patch-Agree m n a src h c lt =
    ap (λ (x : Option ℕ). if covers a src c then some (get_or src (c - a) 0) else x) (h c lt)

image_of-Agree :
    (offset : ℕ) (rs : List HexRecord) (m n : Image)
    → Agree m n
    → Agree (image_of offset rs m) (image_of offset rs n)
unfolding image_of
image_of-Agree offset [] m n h = h
image_of-Agree offset (r ∷ rs) m n h =
    by_type-Agree r.type _ _ _ _ _ _ m n
      (image_of-Agree offset rs _ _ (patch-Agree m n (address_of offset r) r.bytes h))
      (image_of-Agree (extension_of r) rs m n h) (image_of-Agree offset rs m n h) h

module _ (null_data : Bool) where
  load_data-Stored :
      (a : ℕ) (src : List ℕ) (vm : Vm)
      → 0 < length src
      → (x : Stored vm.mmu a src)
      → load_data null_data a src vm ≡ (ok true, record vm { mmu = replace_block vm.mmu x.block' })
  unfolding load_data
  load_data-Stored a src vm pos x =
      let e : (length src == 0) ≡ false = ground arith in rw (load_data, x.found, e, x.stores) refl

  load_records-Fits :
      (ps : List Params) (offset entry : ℕ) (rs : List HexRecord) (vm : Vm)
      → is_flag_set pc_initialized vm ≡ false
      → IsMmu vm.mmu
      → regions vm.mmu ≡ ps
      → Fits ps offset rs
      → All (λ r. All IsByte r.bytes) rs
      → Loaded
          (load_records null_data offset entry rs)
          (entry_of entry rs)
          (image_of offset rs (peek vm.mmu))
          vm
  unfolding load_records init_pc entry_of image_of is_flag_set type_of
  load_records-Fits ps _ entry _ vm pc w k (data_record offset r rs p v t m pos within f) (vb, vs) =
      let a = address_of offset r in
      let x = store-regions vm.mmu p a r.bytes w (subst (λ qs. Memᴰ p qs) (sym k) m) pos within in
      let vm' : Vm = record vm { mmu = replace_block vm.mmu x.block' } in
      let next =
        load_records-Fits ps offset entry rs vm' pc x.IsMmu_after (x.regions_after ∙ k) f vs in
      rw (v, get_type_at r 0 t, by_type-at r.type 0 t _ _ _ _, by_type-at r.type 0 t _ _ _ _)
        (record {
          mmu = next.mmu;
          returns = rw (load_data-Stored a r.bytes vm pos x) next.returns;
          IsMmu_after = next.IsMmu_after;
          regions_after = next.regions_after ∙ x.regions_after;
          image_after = λ c lt.
              next.image_after c lt
              ∙ image_of-Agree offset rs _ _
                  (peek-store vm.mmu a r.bytes x.block x.block' w x.address_lt x.found x.stores) c
                  lt;
        })
  load_records-Fits ps _ entry _ vm pc w k (start_record offset r rs v (inl t) f) (vb, vs) =
      rw
        (
          v,
          get_type_at r 3 t,
          by_type-at r.type 3 t _ _ _ _,
          by_type-at r.type 3 t _ _ _ _,
          get_start_lem r vb (inl t),
        )
        (load_records-Fits ps offset (start_of r) rs vm pc w k f vs)
  load_records-Fits ps _ entry _ vm pc w k (start_record offset r rs v (inr t) f) (vb, vs) =
      rw
        (
          v,
          get_type_at r 5 t,
          by_type-at r.type 5 t _ _ _ _,
          by_type-at r.type 5 t _ _ _ _,
          get_start_lem r vb (inr t),
        )
        (load_records-Fits ps offset (start_of r) rs vm pc w k f vs)
  load_records-Fits ps _ entry _ vm pc w k (extend_record offset r rs v (inl t) f) (vb, vs) =
      rw
        (
          v,
          get_type_at r 2 t,
          by_type-at r.type 2 t _ _ _ _,
          by_type-at r.type 2 t _ _ _ _,
          get_extend_lem r vb,
        )
        (load_records-Fits ps (extension_of r) entry rs vm pc w k f vs)
  load_records-Fits ps _ entry _ vm pc w k (extend_record offset r rs v (inr t) f) (vb, vs) =
      rw
        (
          v,
          get_type_at r 4 t,
          by_type-at r.type 4 t _ _ _ _,
          by_type-at r.type 4 t _ _ _ _,
          get_extend_lem r vb,
        )
        (load_records-Fits ps (extension_of r) entry rs vm pc w k f vs)
  load_records-Fits ps _ entry _ vm pc w k (eof_record offset r rs v t) (vb, vs) =
      rw (v, get_type_at r 1 t, by_type-at r.type 1 t _ _ _ _, by_type-at r.type 1 t _ _ _ _)
        (record {
          mmu = vm.mmu;
          returns = rw pc refl;
          IsMmu_after = w;
          regions_after = refl;
          image_after = λ c lt. refl;
        })

  -- In a machine that has its code block, a well-formed memory unit and no program yet,
  -- `set_program` of a program that fits the memory's regions returns true. The memory keeps its
  -- regions, and its byte at every address is the one that the program's records put there, or else
  -- the one before; the initial program counter is the last start record's. Nothing else changes but
  -- the flag of the program counter. Data lie at their record's offset from the last extend record's
  -- base, which is its two bytes, the high one first, times 16 for a segment (type 2) and times 65536
  -- for a linear address (type 4); an entry point is the four bytes of a start record as one number,
  -- the highest first. A record without those two or four bytes says 0. All bytes are below 256.
  pub set_program_hex-Loaded :
      (rs : List HexRecord) (vm : Vm)
      → is_flag_set have_code_flag vm ≡ true
      → is_flag_set pc_initialized vm ≡ false
      → IsMmu vm.mmu
      → All (λ r. All IsByte r.bytes) rs
      → Fits (regions vm.mmu) 0 rs
      → Loaded (set_program_hex null_data rs) (entry_of 0 rs) (image_of 0 rs (peek vm.mmu)) vm
  unfolding set_program_hex
  set_program_hex-Loaded rs vm code pc w v f =
      let l = load_records-Fits (regions vm.mmu) 0 0 rs vm pc w refl f v in
      record {
        mmu = l.mmu;
        returns = rw (code, pc) l.returns;
        IsMmu_after = l.IsMmu_after;
        regions_after = l.regions_after;
        image_after = l.image_after;
      }
