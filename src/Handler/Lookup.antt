-- ===== src/Handler/Lookup.antt =====
-- The registry of the two instruction sets, asked for the fields of each handler.
use yeti_vm.Base.{ℕ, zero, suc, ◌<◌, ◌≡◌, ◌≢◌, refl, arith, true, some}
use yeti_vm.Base.{◌==◌, if◌then◌else◌}
use yeti_vm.Opcode.Decoder.{get_code, get_func3, get_func7}
use yeti_vm.Handler.Kinds
use yeti_vm.Handler.Kinds.{Handler, get_group_id, get_func_a, get_func_b}
use yeti_vm.Handler.Registry.{
  HandlerRegistry, empty_registry, register_handler, add_handler, register_all, register_rv32i_set,
  register_rv32m_set, find_fields, find, contains, insert,
}

-- The fields of the word are those of the handler; a handler without a function id leaves that
-- field open.
pub record Matches (h : Handler) (code : ℕ) : Type 0 where
  pub group : get_code code ≡ get_group_id h
  pub func_a : get_func_a h ≢ 16 → get_func3 code ≡ get_func_a h
  pub func_b : get_func_b h ≢ 256 → get_func7 code ≡ get_func_b h

-- The registry that `init_isa` fills.
abbrev pub isa : HandlerRegistry
isa = (register_rv32m_set (register_rv32i_set empty_registry).0).0

pub isa_ok :
    ((register_rv32i_set empty_registry).1 ≡ true)
    × ((register_rv32m_set (register_rv32i_set empty_registry).0).1 ≡ true)
unfolding register_rv32i_set register_rv32m_set register_all register_handler add_handler find
    insert contains get_group_id get_func_a get_func_b
isa_ok = (refl, refl)

-- The first and the second function field that the handler asks for, or any.
abbrev pub expected_a : Handler → ℕ → ℕ
expected_a h any = if get_func_a h == 16 then any else get_func_a h

abbrev pub expected_b : Handler → ℕ → ℕ
expected_b h any = if get_func_b h == 256 then any else get_func_b h

below_eight :
    (P : ℕ → Type 0) → P 0 → P 1 → P 2 → P 3 → P 4 → P 5 → P 6 → P 7 → (n : ℕ) → n < 8 → P n
below_eight P a b c d e f g h zero lt = a
below_eight P a b c d e f g h (suc zero) lt = b
below_eight P a b c d e f g h (suc (suc zero)) lt = c
below_eight P a b c d e f g h (suc (suc (suc zero))) lt = d
below_eight P a b c d e f g h (suc (suc (suc (suc zero)))) lt = e
below_eight P a b c d e f g h (suc (suc (suc (suc (suc zero))))) lt = f
below_eight P a b c d e f g h (suc (suc (suc (suc (suc (suc zero)))))) lt = g
below_eight P a b c d e f g h (suc (suc (suc (suc (suc (suc (suc zero))))))) lt = h
below_eight P a b c d e f g h (suc (suc (suc (suc (suc (suc (suc (suc n)))))))) lt =
    absurd (omega arith)

pub table :
    (h : Handler) (func3 func7 : ℕ)
    → func3 < 8
    → find_fields isa (get_group_id h) (expected_a h func3) (expected_b h func7) ≡ some h
unfolding register_rv32i_set register_rv32m_set register_all register_handler add_handler find
    insert contains get_group_id get_func_a get_func_b find_fields
table Kinds.lui func3 func7 lt =
    below_eight (λ n. find_fields isa 0b0110111 n func7 ≡ some Kinds.lui) refl refl refl refl refl
      refl refl refl func3 lt
table Kinds.auipc func3 func7 lt =
    below_eight (λ n. find_fields isa 0b0010111 n func7 ≡ some Kinds.auipc) refl refl refl refl refl
      refl refl refl func3 lt
table Kinds.jal func3 func7 lt =
    below_eight (λ n. find_fields isa 0b1101111 n func7 ≡ some Kinds.jal) refl refl refl refl refl
      refl refl refl func3 lt
table Kinds.jalr func3 func7 lt = refl
table Kinds.env_call func3 func7 lt = refl
table (Kinds.branch Kinds.beq) func3 func7 lt = refl
table (Kinds.branch _) func3 func7 lt = refl
table (Kinds.load Kinds.lb) func3 func7 lt = refl
table (Kinds.load _) func3 func7 lt = refl
table (Kinds.store Kinds.sb) func3 func7 lt = refl
table (Kinds.store _) func3 func7 lt = refl
table (Kinds.int_imm Kinds.addi) func3 func7 lt = refl
table (Kinds.int_imm _) func3 func7 lt = refl
table (Kinds.shift_imm Kinds.slli) func3 func7 lt = refl
table (Kinds.shift_imm _) func3 func7 lt = refl
table (Kinds.int_r Kinds.add_r) func3 func7 lt = refl
table (Kinds.int_r _) func3 func7 lt = refl
table (Kinds.misc_mem Kinds.fence) func3 func7 lt = refl
table (Kinds.misc_mem _) func3 func7 lt = refl
table (Kinds.csr Kinds.csrrw) func3 func7 lt = refl
table (Kinds.csr _) func3 func7 lt = refl
table (Kinds.math Kinds.mul) func3 func7 lt = refl
table (Kinds.math _) func3 func7 lt = refl
