-- ===== src/Tests/Machines.antt =====
-- The machine of the tests: a cycle, a run, memory and registers.
use mathlib.Core.List.Memᴰ.{head, tail}
use yeti_vm.Base.{ℕ, ◌^◌, ◌<◌, ◌≡◌, refl, arith, inr, [], ◌∷◌}
use yeti_vm.Base.Exec.{ok, err, ◌>>=◌, data_access_error}
use yeti_vm.Syscall
use yeti_vm.Memory.Params
use yeti_vm.Memory.Mmu.{find_block, add_block}
use yeti_vm.Memory.Contents.{IsBlock}
use yeti_vm.Memory.Layout.{IsMmu, add_block-IsMmu}
use yeti_vm.Memory.Regions.{regions}
use yeti_vm.Isa.Trap.{IsOutside}
use yeti_vm.Isa.Access.{memory_error_iff}
use yeti_vm.Base.{◌↔◌}
use yeti_vm.Vm.Access
use yeti_vm.Vm.Access.{read_memory, write_memory}
use yeti_vm.Vm.Step.{get_current, run}
use yeti_vm.Vm.Memory.{Accessible, read_memory-write_memory, read_memory-write_memory-Apart}
use yeti_vm.Vm.Registers.{writing, get_register-set_register}
use yeti_vm.Vm.Invariant.{IsVm}
use yeti_vm.Vm.Safety.{run-get_current}
use yeti_vm.Tests.Data.{vm_at, code_page, data_page, two_registers}

code_page-IsBlock : IsBlock code_page
code_page-IsBlock = record { size_pos = omega arith; end_lt = omega arith; small = omega arith }

data_page-IsBlock : IsBlock data_page
data_page-IsBlock = record { size_pos = omega arith; end_lt = omega arith; small = omega arith }

pub pages-IsMmu : IsMmu (code_page ∷ data_page ∷ [])
pages-IsMmu = (code_page-IsBlock, (omega arith, tt), (data_page-IsBlock, tt, tt))

pub words : (pc i : ℕ) → pc < 2 ^ 32 → two_registers pc i < 2 ^ 32
words pc i lt = ground arith

pub started : IsVm (vm_at 0)
unfolding find_block Params.in_range_size Params.in_range Params.offset
started = record {
  mmu = pages-IsMmu;
  zero = refl;
  aligned = omega arith;
  block = code_page;
  mapped = refl;
}

run-get_current_example :
    (code : ℕ) × (get_current (run [] 3 (vm_at 0)).1 ≡ (ok code, (run [] 3 (vm_at 0)).1))
unfolding Syscall.find_handler
run-get_current_example = run-get_current [] (λ id f e. cc) (vm_at 0) 3 started

word_at_4100 : Accessible 4100 4 (vm_at 0)
word_at_4100 = record {
  block = data_page;
  size_pos = omega arith;
  size_le = omega arith;
  aligned = omega arith;
  address_lt = omega arith;
  member = tail (head refl);
  within = (omega arith, omega arith, omega arith);
}

byte_at_5 : Accessible 5 1 (vm_at 0)
byte_at_5 = record {
  block = code_page;
  size_pos = omega arith;
  size_le = omega arith;
  aligned = omega arith;
  address_lt = omega arith;
  member = head refl;
  within = (omega arith, omega arith, omega arith);
}

read_memory-write_memory_example :
    (write_memory 4100 4 305419896 >>= λ _. read_memory 4100 4 0) (vm_at 0)
    ≡ (ok 305419896, (write_memory 4100 4 305419896 (vm_at 0)).1)
read_memory-write_memory_example =
    read_memory-write_memory 4100 4 305419896 0 (vm_at 0) pages-IsMmu word_at_4100

read_memory-write_memory-Apart_example :
    (write_memory 4100 4 305419896 >>= λ _. read_memory 5 1 0) (vm_at 0)
    ≡ ((read_memory 5 1 0 (vm_at 0)).0, (write_memory 4100 4 305419896 (vm_at 0)).1)
read_memory-write_memory-Apart_example =
    read_memory-write_memory-Apart 4100 4 305419896 5 1 0 (vm_at 0) pages-IsMmu word_at_4100
      byte_at_5 (inr (omega arith))

memory_error_iff_example :
    ((read_memory 4098 4 1 (vm_at 0) ≡ (err data_access_error, vm_at 0))
      ↔ IsOutside (regions (vm_at 0).mmu) 4098 4)
    × ((write_memory 4098 4 1 (vm_at 0) ≡ (err data_access_error, vm_at 0))
        ↔ IsOutside (regions (vm_at 0).mmu) 4098 4)
memory_error_iff_example =
    memory_error_iff 4098 4 1 (vm_at 0) pages-IsMmu (omega arith) (omega arith) (omega arith)

get_register-set_register_example :
    (Access.set_register 3 9 >>= λ _. Access.get_register 3) (vm_at 0)
    ≡ (ok 9, writing (vm_at 0) 3 9)
get_register-set_register_example = get_register-set_register 3 3 9 (vm_at 0)

add_block-IsMmu_example : IsMmu (add_block (code_page ∷ data_page ∷ []) data_page).0
add_block-IsMmu_example =
    add_block-IsMmu (code_page ∷ data_page ∷ []) data_page pages-IsMmu (omega arith) (omega arith)
