-- ===== src/Tests/Text.antt =====
-- The text of instructions.
use yeti_vm.Base.{ℕ, ◌%◌, ◌≡◌, ◌≢◌, ◌↔◌, refl, arith, true, List, [], ◌∷◌}
use yeti_vm.Base.{length}
use yeti_vm.Opcode.Decoder
use yeti_vm.Handler.Kinds
use yeti_vm.Handler.Lookup.{Matches}
use yeti_vm.Memory.Block.{undefined}
use yeti_vm.Disasm.Numbers
use yeti_vm.Disasm.Alias
use yeti_vm.Disasm.Args.{disassembly_args}
use yeti_vm.Disasm.Unique.{same_text}
use yeti_vm.Tool.Listing.{disasm, disasm-undefined_iff}
use yeti_vm.Tool.MakeDummy.{make_dummy, generate, written}

-- `make_dummy dummy.c lib.S`.
dummy_file :
    make_dummy (λ path. true) ("make_dummy" ∷ "dummy.c" ∷ "lib.S" ∷ [])
    ≡ written "dummy.c"
        "// generated file\n// do not edit\n// see: lib.S\nint _generated() { return 42; }\n"
unfolding make_dummy generate
dummy_file = refl

-- `addi gp, ra, -1`.
abbrev addi_word : ℕ
addi_word = 0xfff08193

addi_args :
    disassembly_args (Kinds.int_imm Kinds.addi) addi_word
    ≡ b'g' ∷ b'p' ∷ b',' ∷ b' ' ∷ b'r' ∷ b'a' ∷ b',' ∷ b' ' ∷ b'-' ∷ b'1' ∷ []
unfolding disassembly_args Decoder.get_rd Decoder.get_rs1 Decoder.decode_i Alias.get_register_alias
    Numbers.to_string Numbers.decimal Numbers.digit
addi_args = refl

addi-Matches : Matches (Kinds.int_imm Kinds.addi) addi_word
unfolding Decoder.get_code Decoder.get_func3 Decoder.get_func7 Kinds.get_group_id Kinds.get_func_a
    Kinds.get_func_b
addi-Matches = record { group = refl; func_a = λ _. refl; func_b = λ e. absurd (e refl) }

same_text_example : addi_word ≡ addi_word
same_text_example =
    same_text addi_word addi_word (omega arith) (omega arith) (Kinds.int_imm Kinds.addi)
      (Kinds.int_imm Kinds.addi) addi-Matches addi-Matches refl refl refl

abbrev five_bytes : List ℕ
five_bytes = 179 ∷ 129 ∷ 32 ∷ 0 ∷ 7 ∷ []

disasm-undefined_iff_example : (disasm five_bytes ≡ undefined) ↔ (length five_bytes % 4 ≢ 0)
disasm-undefined_iff_example = disasm-undefined_iff five_bytes
