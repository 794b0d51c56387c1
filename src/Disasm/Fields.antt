-- ===== src/Disasm/Fields.antt =====
-- A word is known from its group and the operands of its format: the fields of vm_opcode.hxx.
use yeti_vm.Base.{ℕ, ◌+◌, ◌*◌, ◌/◌, ◌%◌, ◌^◌, ◌<◌, ◌≡◌, sym, ◌∙◌, arith}
use yeti_vm.Opcode.Decoder.{
  get_code, get_rd, get_rs1, get_rs2, get_func3, get_func7, decode_i, decode_s, decode_b, decode_u,
  decode_j,
}
use yeti_vm.Opcode.Fields.{
  get_code_lem, get_rd_lem, get_rs1_lem, get_rs2_lem, get_func3_lem, get_func7_lem, sign_extended,
  decode_u_lem, decode_i-sign_extended, decode_s-sign_extended, decode_b-sign_extended,
  decode_j-sign_extended,
}
use yeti_vm.Isa.Manual.{imm_i, imm_s, imm_b, imm_j}

-- Immediates tell their fields.
imm_i-injective : (v w : ℕ) → imm_i v ≡ imm_i w → v / 2 ^ 20 % 2 ^ 12 ≡ w / 2 ^ 20 % 2 ^ 12
imm_i-injective v w e = ground (arith, e)

imm_s-injective :
    (v w : ℕ)
    → imm_s v ≡ imm_s w
    → (v / 2 ^ 25 % 2 ^ 7 ≡ w / 2 ^ 25 % 2 ^ 7) × (v / 2 ^ 7 % 2 ^ 5 ≡ w / 2 ^ 7 % 2 ^ 5)
imm_s-injective v w e = (ground (arith, e), ground (arith, e))

-- A sign-extended field is known from its extension.
sign_extended-injective_13 :
    (f g : ℕ) → f < 2 ^ 13 → g < 2 ^ 13 → sign_extended 13 f ≡ sign_extended 13 g → f ≡ g
sign_extended-injective_13 f g p q e = ground (arith, e)

sign_extended-injective_21 :
    (f g : ℕ) → f < 2 ^ 21 → g < 2 ^ 21 → sign_extended 21 f ≡ sign_extended 21 g → f ≡ g
sign_extended-injective_21 f g p q e = ground (arith, e)

-- The bits of a branch's and of a jump's offset, in the order of the offset.
bits_b : ℕ → ℕ
bits_b v =
    v / 2 ^ 31 % 2 * 2 ^ 12
    + v / 2 ^ 7 % 2 * 2 ^ 11
    + v / 2 ^ 25 % 2 ^ 6 * 2 ^ 5
    + v / 2 ^ 8 % 2 ^ 4 * 2

bits_j : ℕ → ℕ
bits_j v =
    v / 2 ^ 31 % 2 * 2 ^ 20
    + v / 2 ^ 12 % 2 ^ 8 * 2 ^ 12
    + v / 2 ^ 20 % 2 * 2 ^ 11
    + v / 2 ^ 21 % 2 ^ 10 * 2

imm_b-injective :
    (v w : ℕ)
    → imm_b v ≡ imm_b w
    → (v / 2 ^ 25 % 2 ^ 7 ≡ w / 2 ^ 25 % 2 ^ 7) × (v / 2 ^ 7 % 2 ^ 5 ≡ w / 2 ^ 7 % 2 ^ 5)
unfolding bits_b
imm_b-injective v w e =
    let s : bits_b v ≡ bits_b w =
      sign_extended-injective_13 (bits_b v) (bits_b w) (omega arith) (omega arith) e in
    (omega (arith, s), omega (arith, s))

imm_j-injective : (v w : ℕ) → imm_j v ≡ imm_j w → v / 2 ^ 12 % 2 ^ 20 ≡ w / 2 ^ 12 % 2 ^ 20
unfolding bits_j
imm_j-injective v w e =
    let s : bits_j v ≡ bits_j w =
      sign_extended-injective_21 (bits_j v) (bits_j w) (omega arith) (omega arith) e in
    omega (arith, s)

module _ (v w : ℕ) (v-lt : v < 2 ^ 32) (w-lt : w < 2 ^ 32) (group : get_code v ≡ get_code w) where
  low : v % 2 ^ 7 ≡ w % 2 ^ 7
  low = sym (get_code_lem v) ∙ group ∙ get_code_lem w

  rd_field : get_rd v ≡ get_rd w → v / 2 ^ 7 % 2 ^ 5 ≡ w / 2 ^ 7 % 2 ^ 5
  rd_field e = sym (get_rd_lem v) ∙ e ∙ get_rd_lem w

  rs1_field : get_rs1 v ≡ get_rs1 w → v / 2 ^ 15 % 2 ^ 5 ≡ w / 2 ^ 15 % 2 ^ 5
  rs1_field e = sym (get_rs1_lem v) ∙ e ∙ get_rs1_lem w

  rs2_field : get_rs2 v ≡ get_rs2 w → v / 2 ^ 20 % 2 ^ 5 ≡ w / 2 ^ 20 % 2 ^ 5
  rs2_field e = sym (get_rs2_lem v) ∙ e ∙ get_rs2_lem w

  func3_field : get_func3 v ≡ get_func3 w → v / 2 ^ 12 % 2 ^ 3 ≡ w / 2 ^ 12 % 2 ^ 3
  func3_field e = sym (get_func3_lem v) ∙ e ∙ get_func3_lem w

  func7_field : get_func7 v ≡ get_func7 w → v / 2 ^ 25 % 2 ^ 7 ≡ w / 2 ^ 25 % 2 ^ 7
  func7_field e = sym (get_func7_lem v) ∙ e ∙ get_func7_lem w

  pub same_u : get_rd v ≡ get_rd w → decode_u v ≡ decode_u w → v ≡ w
  same_u rd e =
      let high : v / 2 ^ 12 * 2 ^ 12 ≡ w / 2 ^ 12 * 2 ^ 12 =
        sym (decode_u_lem v v-lt) ∙ e ∙ decode_u_lem w w-lt in
      omega (arith, low, rd_field rd, high)

  pub same_r :
      get_rd v ≡ get_rd w
      → get_rs1 v ≡ get_rs1 w
      → get_rs2 v ≡ get_rs2 w
      → get_func3 v ≡ get_func3 w
      → get_func7 v ≡ get_func7 w
      → v ≡ w
  same_r rd rs1 rs2 f3 f7 =
      omega (arith, low, rd_field rd, rs1_field rs1, rs2_field rs2, func3_field f3, func7_field f7)

  pub same_i :
      get_rd v ≡ get_rd w
      → get_rs1 v ≡ get_rs1 w
      → get_func3 v ≡ get_func3 w
      → decode_i v ≡ decode_i w
      → v ≡ w
  same_i rd rs1 f3 e =
      let imm =
        imm_i-injective v w (sym (decode_i-sign_extended v) ∙ e ∙ decode_i-sign_extended w) in
      omega (arith, low, rd_field rd, rs1_field rs1, func3_field f3, imm)

  pub same_s :
      get_rs1 v ≡ get_rs1 w
      → get_rs2 v ≡ get_rs2 w
      → get_func3 v ≡ get_func3 w
      → decode_s v ≡ decode_s w
      → v ≡ w
  same_s rs1 rs2 f3 e =
      let (a, b) =
        imm_s-injective v w (sym (decode_s-sign_extended v) ∙ e ∙ decode_s-sign_extended w) in
      omega (arith, low, rs1_field rs1, rs2_field rs2, func3_field f3, a, b)

  pub same_b :
      get_rs1 v ≡ get_rs1 w
      → get_rs2 v ≡ get_rs2 w
      → get_func3 v ≡ get_func3 w
      → decode_b v ≡ decode_b w
      → v ≡ w
  same_b rs1 rs2 f3 e =
      let (a, b) =
        imm_b-injective v w (sym (decode_b-sign_extended v) ∙ e ∙ decode_b-sign_extended w) in
      omega (arith, low, rs1_field rs1, rs2_field rs2, func3_field f3, a, b)

  pub same_j : get_rd v ≡ get_rd w → decode_j v ≡ decode_j w → v ≡ w
  same_j rd e =
      let imm =
        imm_j-injective v w (sym (decode_j-sign_extended v) ∙ e ∙ decode_j-sign_extended w) in
      omega (arith, low, rd_field rd, imm)
