-- ===== src/Disasm/Mnemonic.antt =====
-- `mnemonic` of the handlers, in vm_handlers_rv32i.hxx and vm_handlers_rv32m.hxx.
use mathlib.Core.Option.{some-injective}
use text.Mathlib.Text.{◌==◌}
use yeti_vm.Base.{◌≡◌, refl, sym, ap, ◌∙◌, Option, none, some, List, [], ◌∷◌, String}
use yeti_vm.Base.{if◌then◌else◌}
use yeti_vm.Handler.Kinds
use yeti_vm.Handler.Kinds.{Handler, Branch, Load, Store, IntImm, ShiftImm, IntR, MiscMem, Csr, Math}

unfoldable pub branch_mnemonic : Branch → String
branch_mnemonic Kinds.beq = "beq"
branch_mnemonic Kinds.bne = "bne"
branch_mnemonic Kinds.blt = "blt"
branch_mnemonic Kinds.bge = "bge"
branch_mnemonic Kinds.bltu = "bltu"
branch_mnemonic Kinds.bgeu = "bgeu"

unfoldable pub load_mnemonic : Load → String
load_mnemonic Kinds.lb = "lb"
load_mnemonic Kinds.lh = "lh"
load_mnemonic Kinds.lw = "lw"
load_mnemonic Kinds.lbu = "lbu"
load_mnemonic Kinds.lhu = "lhu"

unfoldable pub store_mnemonic : Store → String
store_mnemonic Kinds.sb = "sb"
store_mnemonic Kinds.sh = "sh"
store_mnemonic Kinds.sw = "sw"

unfoldable pub int_imm_mnemonic : IntImm → String
int_imm_mnemonic Kinds.addi = "addi"
int_imm_mnemonic Kinds.slti = "slti"
int_imm_mnemonic Kinds.sltiu = "sltiu"
int_imm_mnemonic Kinds.xori = "xori"
int_imm_mnemonic Kinds.ori = "ori"
int_imm_mnemonic Kinds.andi = "andi"

unfoldable pub shift_imm_mnemonic : ShiftImm → String
shift_imm_mnemonic Kinds.slli = "slli"
shift_imm_mnemonic Kinds.srli = "srli"
shift_imm_mnemonic Kinds.srai = "srai"

unfoldable pub int_r_mnemonic : IntR → String
int_r_mnemonic Kinds.add_r = "add"
int_r_mnemonic Kinds.sub_r = "sub"
int_r_mnemonic Kinds.sll_r = "sll"
int_r_mnemonic Kinds.slt_r = "slt"
int_r_mnemonic Kinds.sltu_r = "sltu"
int_r_mnemonic Kinds.xor_r = "xor"
int_r_mnemonic Kinds.srl_r = "srl"
int_r_mnemonic Kinds.sra_r = "sra"
int_r_mnemonic Kinds.or_r = "or"
int_r_mnemonic Kinds.and_r = "and"

unfoldable pub misc_mem_mnemonic : MiscMem → String
misc_mem_mnemonic Kinds.fence = "fence"
misc_mem_mnemonic Kinds.fence_i = "fence.i"

unfoldable pub csr_mnemonic : Csr → String
csr_mnemonic Kinds.csrrw = "csrrw"
csr_mnemonic Kinds.csrrs = "csrrs"
csr_mnemonic Kinds.csrrc = "csrrc"
csr_mnemonic Kinds.csrrwi = "csrrwi"
csr_mnemonic Kinds.csrrsi = "csrrsi"
csr_mnemonic Kinds.csrrci = "csrrci"

unfoldable pub math_mnemonic : Math → String
math_mnemonic Kinds.mul = "mul"
math_mnemonic Kinds.mulh = "mulh"
math_mnemonic Kinds.mulhsu = "mulhsu"
math_mnemonic Kinds.mulhu = "mulhu"
math_mnemonic Kinds.div = "div"
math_mnemonic Kinds.divu = "divu"
math_mnemonic Kinds.rem = "rem"
math_mnemonic Kinds.remu = "remu"

unfoldable pub mnemonic : Handler → String
mnemonic Kinds.lui = "lui"
mnemonic Kinds.auipc = "auipc"
mnemonic Kinds.jal = "jal"
mnemonic Kinds.jalr = "jalr"
mnemonic Kinds.env_call = "env"
mnemonic (Kinds.branch k) = branch_mnemonic k
mnemonic (Kinds.load k) = load_mnemonic k
mnemonic (Kinds.store k) = store_mnemonic k
mnemonic (Kinds.int_imm k) = int_imm_mnemonic k
mnemonic (Kinds.shift_imm k) = shift_imm_mnemonic k
mnemonic (Kinds.int_r k) = int_r_mnemonic k
mnemonic (Kinds.misc_mem k) = misc_mem_mnemonic k
mnemonic (Kinds.csr k) = csr_mnemonic k
mnemonic (Kinds.math k) = math_mnemonic k

abbrev all_handlers : List Handler
all_handlers =
    Kinds.lui
    ∷ Kinds.auipc
    ∷ Kinds.jal
    ∷ Kinds.jalr
    ∷ Kinds.env_call
    ∷ (Kinds.branch Kinds.beq)
    ∷ (Kinds.branch Kinds.bne)
    ∷ (Kinds.branch Kinds.blt)
    ∷ (Kinds.branch Kinds.bge)
    ∷ (Kinds.branch Kinds.bltu)
    ∷ (Kinds.branch Kinds.bgeu)
    ∷ (Kinds.load Kinds.lb)
    ∷ (Kinds.load Kinds.lh)
    ∷ (Kinds.load Kinds.lw)
    ∷ (Kinds.load Kinds.lbu)
    ∷ (Kinds.load Kinds.lhu)
    ∷ (Kinds.store Kinds.sb)
    ∷ (Kinds.store Kinds.sh)
    ∷ (Kinds.store Kinds.sw)
    ∷ (Kinds.int_imm Kinds.addi)
    ∷ (Kinds.int_imm Kinds.slti)
    ∷ (Kinds.int_imm Kinds.sltiu)
    ∷ (Kinds.int_imm Kinds.xori)
    ∷ (Kinds.int_imm Kinds.ori)
    ∷ (Kinds.int_imm Kinds.andi)
    ∷ (Kinds.shift_imm Kinds.slli)
    ∷ (Kinds.shift_imm Kinds.srli)
    ∷ (Kinds.shift_imm Kinds.srai)
    ∷ (Kinds.int_r Kinds.add_r)
    ∷ (Kinds.int_r Kinds.sub_r)
    ∷ (Kinds.int_r Kinds.sll_r)
    ∷ (Kinds.int_r Kinds.slt_r)
    ∷ (Kinds.int_r Kinds.sltu_r)
    ∷ (Kinds.int_r Kinds.xor_r)
    ∷ (Kinds.int_r Kinds.srl_r)
    ∷ (Kinds.int_r Kinds.sra_r)
    ∷ (Kinds.int_r Kinds.or_r)
    ∷ (Kinds.int_r Kinds.and_r)
    ∷ (Kinds.misc_mem Kinds.fence)
    ∷ (Kinds.misc_mem Kinds.fence_i)
    ∷ (Kinds.csr Kinds.csrrw)
    ∷ (Kinds.csr Kinds.csrrs)
    ∷ (Kinds.csr Kinds.csrrc)
    ∷ (Kinds.csr Kinds.csrrwi)
    ∷ (Kinds.csr Kinds.csrrsi)
    ∷ (Kinds.csr Kinds.csrrci)
    ∷ (Kinds.math Kinds.mul)
    ∷ (Kinds.math Kinds.mulh)
    ∷ (Kinds.math Kinds.mulhsu)
    ∷ (Kinds.math Kinds.mulhu)
    ∷ (Kinds.math Kinds.div)
    ∷ (Kinds.math Kinds.divu)
    ∷ (Kinds.math Kinds.rem)
    ∷ (Kinds.math Kinds.remu)
    ∷ []

-- The handler of a mnemonic.
handler_of : List Handler → String → Option Handler
handler_of [] name = none
handler_of (h ∷ hs) name = if mnemonic h == name then some h else handler_of hs name

handler_of-mnemonic : (h : Handler) → handler_of all_handlers (mnemonic h) ≡ some h
unfolding handler_of mnemonic branch_mnemonic load_mnemonic store_mnemonic int_imm_mnemonic
    shift_imm_mnemonic int_r_mnemonic misc_mem_mnemonic csr_mnemonic math_mnemonic
handler_of-mnemonic Kinds.lui = refl
handler_of-mnemonic Kinds.auipc = refl
handler_of-mnemonic Kinds.jal = refl
handler_of-mnemonic Kinds.jalr = refl
handler_of-mnemonic Kinds.env_call = refl
handler_of-mnemonic (Kinds.branch Kinds.beq) = refl
handler_of-mnemonic (Kinds.branch Kinds.bne) = refl
handler_of-mnemonic (Kinds.branch Kinds.blt) = refl
handler_of-mnemonic (Kinds.branch Kinds.bge) = refl
handler_of-mnemonic (Kinds.branch Kinds.bltu) = refl
handler_of-mnemonic (Kinds.branch Kinds.bgeu) = refl
handler_of-mnemonic (Kinds.load Kinds.lb) = refl
handler_of-mnemonic (Kinds.load Kinds.lh) = refl
handler_of-mnemonic (Kinds.load Kinds.lw) = refl
handler_of-mnemonic (Kinds.load Kinds.lbu) = refl
handler_of-mnemonic (Kinds.load Kinds.lhu) = refl
handler_of-mnemonic (Kinds.store Kinds.sb) = refl
handler_of-mnemonic (Kinds.store Kinds.sh) = refl
handler_of-mnemonic (Kinds.store Kinds.sw) = refl
handler_of-mnemonic (Kinds.int_imm Kinds.addi) = refl
handler_of-mnemonic (Kinds.int_imm Kinds.slti) = refl
handler_of-mnemonic (Kinds.int_imm Kinds.sltiu) = refl
handler_of-mnemonic (Kinds.int_imm Kinds.xori) = refl
handler_of-mnemonic (Kinds.int_imm Kinds.ori) = refl
handler_of-mnemonic (Kinds.int_imm Kinds.andi) = refl
handler_of-mnemonic (Kinds.shift_imm Kinds.slli) = refl
handler_of-mnemonic (Kinds.shift_imm Kinds.srli) = refl
handler_of-mnemonic (Kinds.shift_imm Kinds.srai) = refl
handler_of-mnemonic (Kinds.int_r Kinds.add_r) = refl
handler_of-mnemonic (Kinds.int_r Kinds.sub_r) = refl
handler_of-mnemonic (Kinds.int_r Kinds.sll_r) = refl
handler_of-mnemonic (Kinds.int_r Kinds.slt_r) = refl
handler_of-mnemonic (Kinds.int_r Kinds.sltu_r) = refl
handler_of-mnemonic (Kinds.int_r Kinds.xor_r) = refl
handler_of-mnemonic (Kinds.int_r Kinds.srl_r) = refl
handler_of-mnemonic (Kinds.int_r Kinds.sra_r) = refl
handler_of-mnemonic (Kinds.int_r Kinds.or_r) = refl
handler_of-mnemonic (Kinds.int_r Kinds.and_r) = refl
handler_of-mnemonic (Kinds.misc_mem Kinds.fence) = refl
handler_of-mnemonic (Kinds.misc_mem Kinds.fence_i) = refl
handler_of-mnemonic (Kinds.csr Kinds.csrrw) = refl
handler_of-mnemonic (Kinds.csr Kinds.csrrs) = refl
handler_of-mnemonic (Kinds.csr Kinds.csrrc) = refl
handler_of-mnemonic (Kinds.csr Kinds.csrrwi) = refl
handler_of-mnemonic (Kinds.csr Kinds.csrrsi) = refl
handler_of-mnemonic (Kinds.csr Kinds.csrrci) = refl
handler_of-mnemonic (Kinds.math Kinds.mul) = refl
handler_of-mnemonic (Kinds.math Kinds.mulh) = refl
handler_of-mnemonic (Kinds.math Kinds.mulhsu) = refl
handler_of-mnemonic (Kinds.math Kinds.mulhu) = refl
handler_of-mnemonic (Kinds.math Kinds.div) = refl
handler_of-mnemonic (Kinds.math Kinds.divu) = refl
handler_of-mnemonic (Kinds.math Kinds.rem) = refl
handler_of-mnemonic (Kinds.math Kinds.remu) = refl

-- The mnemonics tell the handlers apart.
pub mnemonic-injective : (h k : Handler) → mnemonic h ≡ mnemonic k → h ≡ k
mnemonic-injective h k e =
    some-injective h k
      (sym (handler_of-mnemonic h) ∙ ap (handler_of all_handlers) e ∙ handler_of-mnemonic k)
