-- ===== src/Disasm/Bounds.antt =====
-- The sizes of the fields of a word and of the function fields that a handler asks for.
use yeti_vm.Base.{ℕ, ◌^◌, ◌<◌, ◌≡◌, ◌≢◌, sym, subst, arith, Bool, true, false}
use yeti_vm.Opcode.Decoder.{
  get_rd, get_rs1, get_rs2, decode_i, decode_s, decode_b, decode_u, decode_j,
}
use yeti_vm.Opcode.Fields.{
  get_rd_lem, get_rs1_lem, get_rs2_lem, decode_u_lem, decode_i-sign_extended,
  decode_s-sign_extended, decode_b-sign_extended, decode_j-sign_extended,
}
use yeti_vm.Handler.Kinds
use yeti_vm.Handler.Kinds.{Handler, get_func_a, get_func_b, get_group_id}
use yeti_vm.Handler.Rv32i.{shift_amount}
use yeti_vm.Handler.Immediate.{shift_amount_lem}
use yeti_vm.Isa.Manual.{imm_i, imm_s, imm_b, imm_j}

pub decode_i-lt : (v : ℕ) → decode_i v < 2 ^ 32
decode_i-lt v =
    let lt : imm_i v < 2 ^ 32 = ground arith in
    subst (λ t. t < 2 ^ 32) (sym (decode_i-sign_extended v)) lt

pub decode_s-lt : (v : ℕ) → decode_s v < 2 ^ 32
decode_s-lt v =
    let lt : imm_s v < 2 ^ 32 = ground arith in
    subst (λ t. t < 2 ^ 32) (sym (decode_s-sign_extended v)) lt

pub decode_b-lt : (v : ℕ) → decode_b v < 2 ^ 32
decode_b-lt v =
    let lt : imm_b v < 2 ^ 32 = ground arith in
    subst (λ t. t < 2 ^ 32) (sym (decode_b-sign_extended v)) lt

pub decode_j-lt : (v : ℕ) → decode_j v < 2 ^ 32
decode_j-lt v =
    let lt : imm_j v < 2 ^ 32 = ground arith in
    subst (λ t. t < 2 ^ 32) (sym (decode_j-sign_extended v)) lt

pub decode_u-lt : (v : ℕ) → v < 2 ^ 32 → decode_u v < 2 ^ 32
decode_u-lt v lt = omega (arith, decode_u_lem v lt)

pub rd-lt : (v : ℕ) → get_rd v < 32
rd-lt v = omega (arith, get_rd_lem v)

pub rs1-lt : (v : ℕ) → get_rs1 v < 32
rs1-lt v = omega (arith, get_rs1_lem v)

pub rs2-lt : (v : ℕ) → get_rs2 v < 32
rs2-lt v = omega (arith, get_rs2_lem v)

pub amount-lt : (v : ℕ) → shift_amount v < 32
amount-lt v = omega (arith, shift_amount_lem v)

-- The kinds of handlers that ask for the first function.
abbrev pub has_func_a : Handler → Bool
has_func_a Kinds.lui = false
has_func_a Kinds.auipc = false
has_func_a Kinds.jal = false
has_func_a _ = true

pub func_a-lt : (h : Handler) → has_func_a h ≡ true → get_func_a h ≢ 16
unfolding get_func_a
func_a-lt Kinds.lui t e = cc
func_a-lt Kinds.auipc t e = cc
func_a-lt Kinds.jal t e = cc
func_a-lt Kinds.jalr t e = omega (arith, e)
func_a-lt Kinds.env_call t e = omega (arith, e)
func_a-lt (Kinds.branch Kinds.beq) t e = omega (arith, e)
func_a-lt (Kinds.branch _) t e = omega (arith, e)
func_a-lt (Kinds.load Kinds.lb) t e = omega (arith, e)
func_a-lt (Kinds.load _) t e = omega (arith, e)
func_a-lt (Kinds.store Kinds.sb) t e = omega (arith, e)
func_a-lt (Kinds.store _) t e = omega (arith, e)
func_a-lt (Kinds.int_imm Kinds.addi) t e = omega (arith, e)
func_a-lt (Kinds.int_imm _) t e = omega (arith, e)
func_a-lt (Kinds.shift_imm Kinds.slli) t e = omega (arith, e)
func_a-lt (Kinds.shift_imm _) t e = omega (arith, e)
func_a-lt (Kinds.int_r Kinds.add_r) t e = omega (arith, e)
func_a-lt (Kinds.int_r _) t e = omega (arith, e)
func_a-lt (Kinds.misc_mem Kinds.fence) t e = omega (arith, e)
func_a-lt (Kinds.misc_mem _) t e = omega (arith, e)
func_a-lt (Kinds.csr Kinds.csrrw) t e = omega (arith, e)
func_a-lt (Kinds.csr _) t e = omega (arith, e)
func_a-lt (Kinds.math Kinds.mul) t e = omega (arith, e)
func_a-lt (Kinds.math _) t e = omega (arith, e)

pub shift-func_b : (k : Kinds.ShiftImm) → get_func_b (Kinds.shift_imm k) ≢ 256
unfolding get_func_b
shift-func_b Kinds.slli e = omega (arith, e)
shift-func_b _ e = omega (arith, e)

pub int_r-func_b : (k : Kinds.IntR) → get_func_b (Kinds.int_r k) ≢ 256
unfolding get_func_b
int_r-func_b Kinds.add_r e = omega (arith, e)
int_r-func_b _ e = omega (arith, e)

pub math-func_b : (k : Kinds.Math) → get_func_b (Kinds.math k) ≢ 256
unfolding get_func_b
math-func_b k e = omega (arith, e)
