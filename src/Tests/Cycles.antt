-- ===== src/Tests/Cycles.antt =====
-- Whole cycles of the machine of the tests.
use yeti_vm.Base.{
  ℕ, zero, suc, ◌-◌, ◌<◌, ◌≡◌, refl, arith, Bool, true, ◌&&◌, List, [], ◌∷◌, All, ltb, both, get_or,
  Bool-cases, inl, inr,
}
use yeti_vm.Base.Exec.{ok}
use yeti_vm.Opcode.Decoder
use yeti_vm.Handler.Kinds
use yeti_vm.Memory.Params
use yeti_vm.Memory.Block
use yeti_vm.Memory.Mmu.{Mmu, find_block}
use yeti_vm.Vm.Access
use yeti_vm.Vm.Step.{get_current, run_step}
use yeti_vm.Vm.Instruction.{Fetched, advanced}
use yeti_vm.Vm.Arithmetic.{run_step-computed}
use yeti_vm.Vm.Target.{arrive}
use yeti_vm.Vm.Jumps.{Decoded, run_step-destination}
use yeti_vm.Memory.Image.{peek, byte_of, byte_or_zero}
use yeti_vm.Tests.Data.{vm_at, code_page, data_page, program_bytes}
use yeti_vm.Tests.Machines.{words}

addi_Fetched : Fetched (vm_at 12) 0xfff08193 (Kinds.int_imm Kinds.addi)
unfolding get_current Access.get_pc Access.get_ptr Block.get_ro Block.read_bytes Access.of_bytes
    find_block Params.in_range_size Params.in_range Params.offset Decoder.get_code Decoder.get_func3
    Decoder.get_func7 Kinds.get_group_id Kinds.get_func_a Kinds.get_func_b
addi_Fetched = record {
  current = refl;
  opcodes = refl;
  matches = record { group = refl; func_a = λ _. refl; func_b = λ e. absurd (e refl) };
  words = λ i. words 12 i (omega arith);
  block = code_page;
  next = refl;
}

run_step-computed_example : run_step [] (vm_at 12) ≡ (ok tt, advanced (vm_at 12) 3 4)
unfolding Decoder.get_rd Decoder.get_rs1
run_step-computed_example =
    run_step-computed [] (vm_at 12) 0xfff08193 (Kinds.int_imm Kinds.addi) 4 (omega arith)
      addi_Fetched refl

blt_Decoded : Decoded (vm_at 16) 0x0020c463 (Kinds.branch Kinds.blt)
unfolding get_current Access.get_pc Access.get_ptr Block.get_ro Block.read_bytes Access.of_bytes
    find_block Params.in_range_size Params.in_range Params.offset Decoder.get_code Decoder.get_func3
    Decoder.get_func7 Kinds.get_group_id Kinds.get_func_a Kinds.get_func_b
blt_Decoded = record {
  current = refl;
  opcodes = refl;
  matches = record { group = refl; func_a = λ _. refl; func_b = λ e. absurd (e refl) };
  aligned = omega arith;
  words = λ i. words 16 i (omega arith);
}

run_step-destination_example : run_step [] (vm_at 16) ≡ arrive (vm_at 16) 24
unfolding Decoder.get_rs1 Decoder.get_rs2
run_step-destination_example =
    run_step-destination [] (vm_at 16) 0x0020c463 (Kinds.branch Kinds.blt) (vm_at 16) 24 blt_Decoded
      refl

-- The memory of the machine holds bytes.
get_or-lt : (xs : List ℕ) (i : ℕ) → All (λ x. x < 256) xs → get_or xs i 0 < 256
get_or-lt [] i p = omega arith
get_or-lt (x ∷ xs) zero (p, ps) = p
get_or-lt (x ∷ xs) (suc i) (p, ps) = get_or-lt xs i ps

below : List ℕ → Bool
below [] = true
below (x ∷ xs) = ltb x 256 && below xs

below-All : (xs : List ℕ) → below xs ≡ true → All (λ x. x < 256) xs
unfolding below
below-All [] e = tt
below-All (x ∷ xs) e =
    let (p, q) = both (ltb x 256) (below xs) e in (ground (arith, p), below-All xs q)

program_bytes-All : All (λ x. x < 256) program_bytes
unfolding below
program_bytes-All = below-All program_bytes refl

pub page_byte-lt : (a : ℕ) → byte_or_zero (peek (vm_at 0).mmu a) < 256
unfolding peek byte_of find_block
page_byte-lt a = elim (Bool-cases (Params.in_range_size code_page.params a 1)) [
  | inl e ↦ rw e (get_or-lt program_bytes (a - 0) program_bytes-All)
  | inr e ↦ elim (Bool-cases (Params.in_range_size data_page.params a 1)) [
    | inl f ↦ rw (e, f) (omega arith)
    | inr f ↦ rw (e, f) (omega arith)
  ]
]
