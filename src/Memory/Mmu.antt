-- ===== src/Memory/Mmu.antt =====
-- `memory_management_unit`: the blocks in the order of their start, as `std::map` keeps them. A
-- pointer to a block is the start of that block, which is its key in the map.
use yeti_vm.Base.{ℕ, Bool, true, false, ◌||◌, Option, none, some, List, [], ◌∷◌}
use yeti_vm.Base.{ltb, ◌==◌, if◌then◌else◌}
use yeti_vm.Memory.Params
use yeti_vm.Memory.Params.{Params}
use yeti_vm.Memory.Block.{Block}

abbrev pub Mmu : Type 0
Mmu = List Block

unfoldable pub overlaps_any : Mmu → Params → Bool
overlaps_any [] k = false
overlaps_any (b ∷ bs) k = Params.is_overlap b.params k || overlaps_any bs k

abbrev pub behind : Block → Option Mmu → Option Mmu
behind b none = none
behind b (some bs) = some (b ∷ bs)

-- `std::map::try_emplace` under `params::operator<`.
unfoldable pub try_emplace : Mmu → Block → Option Mmu
try_emplace [] block = some (block ∷ [])
try_emplace (b ∷ bs) block =
    let rest = behind b (try_emplace bs block) in
    if ltb block.params.block_start b.params.block_start
    then some (block ∷ b ∷ bs)
    else if ltb b.params.block_start block.params.block_start
    then rest
    else none

unfoldable pub add_block : Mmu → Block → Mmu × Bool
add_block mmu block =
    if block.params.block_size == 0
    then (mmu, false)
    else if overlaps_any mmu block.params
    then (mmu, false)
    else elim (try_emplace mmu block) [ none ↦ (mmu, false) | some mmu' ↦ (mmu', true) ]

unfoldable pub find_block : Mmu → ℕ → ℕ → Option Block
find_block [] address size = none
find_block (b ∷ bs) address size =
    if Params.in_range_size b.params address size then some b else find_block bs address size

-- A write through the pointer to the block with this start.
unfoldable pub replace_block : Mmu → Block → Mmu
replace_block [] block = []
replace_block (b ∷ bs) block =
    if b.params.block_start == block.params.block_start
    then block ∷ bs
    else b ∷ replace_block bs block
