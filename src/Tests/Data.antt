-- ===== src/Tests/Data.antt =====
-- A machine with a page of code and a page of data, ready to run.
use yeti_vm.Base.{ℕ, ◌==◌, if◌then◌else◌, get_or, List, [], ◌∷◌}
use yeti_vm.Handler.Lookup.{isa}
use yeti_vm.Memory.Block.{Block}
use yeti_vm.Vm.State.{Vm, new_vm}

-- `add x3, x1, x2`, `mul x3, x1, x2`, no instruction, `addi x3, x1, -1`, `blt x1, x2, 8`,
-- `lw x3, 4(x0)`, `sb x2, 40(x0)` and `lw x3, 4(x1)`.
abbrev pub program_bytes : List ℕ
program_bytes =
    179 ∷ 129 ∷ 32 ∷ 0 ∷ 179 ∷ 129 ∷ 32 ∷ 2 ∷ 0 ∷ 0 ∷ 0 ∷ 0 ∷ 147 ∷ 129 ∷ 240 ∷ 255 ∷ 99 ∷ 196 ∷ 32
    ∷ 0 ∷ 131 ∷ 33 ∷ 64 ∷ 0 ∷ 35 ∷ 4 ∷ 32 ∷ 2 ∷ 131 ∷ 161 ∷ 64 ∷ 0 ∷ []

abbrev pub program : ℕ → ℕ
program i = get_or program_bytes i 0

abbrev pub code_page : Block
code_page = record { params = record { block_start = 0; block_size = 4096 }; bytes = program }

abbrev pub data_page : Block
data_page = record { params = record { block_start = 4096; block_size = 4096 }; bytes = λ _. 0 }

abbrev pub two_registers : ℕ → ℕ → ℕ
two_registers pc i = if i == 32 then pc else if i == 1 then 5 else if i == 2 then 7 else 0

abbrev pub vm_at : ℕ → Vm
vm_at pc = record new_vm {
  opcodes = isa;
  mmu = code_page ∷ data_page ∷ [];
  registers = two_registers pc;
}
