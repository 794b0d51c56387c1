-- ===== src/Memory/Block.antt =====
-- `generic_memory`: a region that holds its bytes. The vector is a function from an offset to a
-- byte; its size is `block_size`, and a copy past it is what C++ leaves undefined.
use yeti_vm.Base.{ℕ, zero, suc, ◌+◌, ◌-◌, Bool, ◌&&◌, List, [], ◌∷◌}
use yeti_vm.Base.{ltb, leb, if◌then◌else◌, length, get_or}
use yeti_vm.Memory.Params
use yeti_vm.Memory.Params.{Params}

pub record Block : Type 0 where
  pub params : Params
  pub bytes : ℕ → ℕ

-- What a member function that returns `bool` or a pointer comes to.
pub data Access (A : Type 0) : Type 0 where
  done : A → Access A
  refused : Access A
  undefined : Access A

unfoldable pub generic_memory : ℕ → ℕ → Block
generic_memory address size = record {
  params = record { block_start = address; block_size = size };
  bytes = λ _. 0;
}

-- `size` bytes from an offset on.
unfoldable pub read_bytes : (ℕ → ℕ) → ℕ → ℕ → List ℕ
read_bytes bytes offset zero = []
read_bytes bytes offset (suc size) = bytes offset ∷ read_bytes bytes (suc offset) size

-- The bytes with the list written from an offset on.
unfoldable pub write_bytes : (ℕ → ℕ) → ℕ → List ℕ → ℕ → ℕ
write_bytes bytes offset source i =
    if leb offset i && ltb (i - offset) (length source)
    then get_or source (i - offset) 0
    else bytes i

-- The copy is within the vector.
abbrev pub in_vector : Block → ℕ → ℕ → Bool
in_vector b start size = leb (start + size) b.params.block_size

unfoldable pub load : Block → ℕ → ℕ → Access (List ℕ)
load b address size =
    if Params.in_range_size b.params address size
    then (let start = Params.offset b.params address in
        if in_vector b start size then done (read_bytes b.bytes start size) else undefined)
    else refused

-- The result is the block with the new bytes.
unfoldable pub store : Block → ℕ → List ℕ → Access Block
store b address source =
    if Params.in_range_size b.params address (length source)
    then (let start = Params.offset b.params address in
        if in_vector b start (length source)
        then done (record b { bytes = write_bytes b.bytes start source })
        else undefined)
    else refused

-- `get_ro`, read through at once: the bytes behind the pointer.
unfoldable pub get_ro : Block → ℕ → ℕ → Access (List ℕ)
get_ro b address size =
    if Params.in_range_size b.params address size
    then (let start = Params.offset b.params address in
        if in_vector b start size then done (read_bytes b.bytes start size) else undefined)
    else refused
