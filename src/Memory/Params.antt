-- ===== src/Memory/Params.antt =====
-- `memory_block::params`: a region by its start and its size, words of 32 bits. Every sum and
-- difference of addresses wraps.
use yeti_vm.Base.{ℕ, ◌+◌, ◌-◌, ◌%◌, ◌^◌, Bool, false, ◌&&◌}
use yeti_vm.Base.{ltb, leb, if◌then◌else◌}

pub record Params : Type 0 where
  pub block_start : ℕ
  pub block_size : ℕ

unfoldable pub offset : Params → ℕ → ℕ
offset p address = (address + 2 ^ 32 - p.block_start) % 2 ^ 32

-- `in_range(address)`
unfoldable pub in_range : Params → ℕ → Bool
in_range p address =
    leb p.block_start address && ltb ((address + 2 ^ 32 - p.block_start) % 2 ^ 32) p.block_size

-- `in_range(address, size)`
unfoldable pub in_range_size : Params → ℕ → ℕ → Bool
in_range_size p address size =
    if in_range p address then leb ((offset p address + size) % 2 ^ 32) p.block_size else false

unfoldable pub is_overlap : Params → Params → Bool
is_overlap p other =
    if ltb other.block_start p.block_start
    then leb p.block_start ((other.block_start + other.block_size) % 2 ^ 32)
    else in_range p other.block_start
