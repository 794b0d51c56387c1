-- ===== src/Isa/Bounds.antt =====
-- What an instruction of the manual computes from words is a word.
use native.Mathlib.Nat.{div-le_self, mod-le}
use mathlib.Core.Option.{some-injective}
use yeti_vm.Base.{ℕ, ◌*◌, ◌^◌, ◌<◌, ◌≤◌, ◌≡◌, subst, arith, Bool, true, false, none, some}
use yeti_vm.Base.{if◌then◌else◌}
use yeti_vm.Base.Int.{ℤ, pos, negsuc, quot_ℤ, rem_ℤ}
use yeti_vm.BitTools.{to_signed, to_unsigned, arithmetic_shift}
use yeti_vm.BitTools.Fields.{bit_and-lt, bit_or-lt, bit_xor-lt}
use yeti_vm.Handler.Kinds
use yeti_vm.Handler.Kinds.{Handler, IntR, Math, Load, Store}
use yeti_vm.Handler.Alu.{alu}
use yeti_vm.Handler.Immediate.{imm_op, shift_op}
use yeti_vm.Handler.Muldiv.{muldiv, mul-lt-mul}
use yeti_vm.Isa.Manual.{
  read, write, next_pc, at_pc, computed_with, destination_with, extended, load_width, store_width,
}

abbrev pub IsWords : (ℕ → ℕ) → Type 0
IsWords regs = (i : ℕ) → regs i < 2 ^ 32

to_unsigned-lt : (z : ℤ) → to_unsigned 32 z < 2 ^ 32
unfolding to_unsigned
to_unsigned-lt (pos n) = omega arith
to_unsigned-lt (negsuc n) = omega arith

alu-lt : (op : IntR) (l r : ℕ) → l < 2 ^ 32 → r < 2 ^ 32 → alu op l r < 2 ^ 32
alu-lt Kinds.add_r l r p q = omega arith
alu-lt Kinds.sub_r l r p q = ground arith
alu-lt Kinds.sll_r l r p q = omega arith
alu-lt Kinds.slt_r l r p q = ground arith
alu-lt Kinds.sltu_r l r p q = ground arith
alu-lt Kinds.xor_r l r p q = bit_xor-lt 32 l r p q
alu-lt Kinds.srl_r l r p q = omega (arith, div-le_self l (2 ^ r))
alu-lt Kinds.sra_r l r p q = unfold arithmetic_shift in to_unsigned-lt _
alu-lt Kinds.or_r l r p q = bit_or-lt 32 l r p q
alu-lt Kinds.and_r l r p q = bit_and-lt 32 l r p

muldiv-lt : (op : Math) (l r : ℕ) → l < 2 ^ 32 → r < 2 ^ 32 → muldiv op l r < 2 ^ 32
unfolding muldiv
muldiv-lt Kinds.mul l r p q = omega arith
muldiv-lt Kinds.mulh l r p q = to_unsigned-lt _
muldiv-lt Kinds.mulhsu l r p q = to_unsigned-lt _
muldiv-lt Kinds.mulhu l r p q =
    let below : l * r < 2 ^ 32 * 2 ^ 32 = mul-lt-mul p q in omega (arith, below)
muldiv-lt Kinds.div l r p q =
    ground (arith, to_unsigned-lt (quot_ℤ (to_signed 32 l) (to_signed 32 r)))
muldiv-lt Kinds.divu l r p q = ground (arith, div-le_self l r)
muldiv-lt Kinds.rem l r p q =
    ground (arith, to_unsigned-lt (rem_ℤ (to_signed 32 l) (to_signed 32 r)))
muldiv-lt Kinds.remu l r p q = ground (arith, mod-le l r)

pub load_width-pos : (k : Load) → (0 < load_width k) × (load_width k ≤ 4)
load_width-pos Kinds.lb = (omega arith, omega arith)
load_width-pos _ = (omega arith, omega arith)

pub store_width-pos : (k : Store) → (0 < store_width k) × (store_width k ≤ 4)
store_width-pos Kinds.sb = (omega arith, omega arith)
store_width-pos _ = (omega arith, omega arith)

pub extended-lt : (k : Load) (v : ℕ) → v < 2 ^ (8 * load_width k) → extended k v < 2 ^ 32
extended-lt Kinds.lb v p = ground arith
extended-lt Kinds.lh v p = ground arith
extended-lt Kinds.lw v p = p
extended-lt Kinds.lbu v p = omega arith
extended-lt Kinds.lhu v p = omega arith

read-lt : (regs : ℕ → ℕ) (r : ℕ) → IsWords regs → read regs r < 2 ^ 32
read-lt regs r w = ground (arith, w r)

pub write-IsWords : (regs : ℕ → ℕ) (r v : ℕ) → IsWords regs → v < 2 ^ 32 → IsWords (write regs r v)
write-IsWords regs r v w lt i = ground (arith, w i)

pub at_pc-IsWords : (regs : ℕ → ℕ) (t : ℕ) → IsWords regs → t < 2 ^ 32 → IsWords (at_pc regs t)
at_pc-IsWords regs t w lt i = ground (arith, w i)

unless-lt : (c : Bool) (x v : ℕ) → x < 2 ^ 32 → (if c then none else some x) ≡ some v → v < 2 ^ 32
unless-lt true x v lt e = cc
unless-lt false x v lt e = subst (λ t. t < 2 ^ 32) (some-injective x v e) lt

pub computed_with-lt :
    (h : Handler) (regs : ℕ → ℕ) (code r1 r2 v : ℕ)
    → IsWords regs
    → code < 2 ^ 32
    → computed_with h regs code r1 r2 ≡ some v
    → v < 2 ^ 32
computed_with-lt Kinds.lui regs code r1 r2 v w lt e =
    subst (λ t. t < 2 ^ 32) (some-injective _ v e) (omega arith)
computed_with-lt Kinds.auipc regs code r1 r2 v w lt e =
    subst (λ t. t < 2 ^ 32) (some-injective _ v e) (omega arith)
computed_with-lt (Kinds.int_imm k) regs code r1 r2 v w lt e =
    subst (λ t. t < 2 ^ 32) (some-injective _ v e)
      (alu-lt (imm_op k) _ _ (read-lt regs _ w) (ground arith))
computed_with-lt (Kinds.shift_imm k) regs code r1 r2 v w lt e =
    subst (λ t. t < 2 ^ 32) (some-injective _ v e)
      (alu-lt (shift_op k) _ _ (read-lt regs _ w) (omega arith))
computed_with-lt (Kinds.int_r op) regs code r1 r2 v w lt e =
    unless-lt _ _ v (alu-lt op _ _ (read-lt regs _ w) (read-lt regs _ w)) e
computed_with-lt (Kinds.math op) regs code r1 r2 v w lt e =
    unless-lt _ _ v (muldiv-lt op _ _ (read-lt regs _ w) (read-lt regs _ w)) e
computed_with-lt _ regs code r1 r2 v w lt e = cc

-- The registers and the address that a jump comes to.
abbrev IsWordsAt : (ℕ → ℕ) × ℕ → Type 0
IsWordsAt r = IsWords r.0 × (r.1 < 2 ^ 32)

pub destination_with-lt :
    (h : Handler) (regs regs' : ℕ → ℕ) (code d r1 r2 t : ℕ)
    → IsWords regs
    → destination_with h regs code d r1 r2 ≡ some (regs', t)
    → IsWordsAt (regs', t)
destination_with-lt (Kinds.branch k) regs regs' code d r1 r2 t w e =
    subst IsWordsAt (some-injective _ (regs', t) e) (w, ground arith)
destination_with-lt Kinds.jal regs regs' code d r1 r2 t w e =
    subst IsWordsAt (some-injective _ (regs', t) e)
      (write-IsWords regs d (next_pc regs) w (omega arith), omega arith)
destination_with-lt Kinds.jalr regs regs' code d r1 r2 t w e =
    subst IsWordsAt (some-injective _ (regs', t) e)
      (write-IsWords regs d (next_pc regs) w (omega arith), omega arith)
destination_with-lt _ regs regs' code d r1 r2 t w e = cc
