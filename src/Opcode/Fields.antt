-- ===== src/Opcode/Fields.antt =====
-- What `Decoder` reads, as arithmetic on the instruction word.
use yeti_vm.Base.{ℕ, ◌+◌, ◌-◌, ◌*◌, ◌/◌, ◌%◌, ◌^◌, ◌<◌, ◌≡◌, arith, ◌==◌, if◌then◌else◌}
use yeti_vm.BitTools.{extend_sign}
use yeti_vm.BitTools.Digits.{bit_or-zero}
use yeti_vm.BitTools.Fields.{bit_and_ones, bit_and_mask, bit_or_above, bit_or_below, bit_or_between}
use yeti_vm.BitTools.SignExtend.{extend_sign_lem}
use yeti_vm.Opcode.Decoder.{get_code, get_rs1, get_rs2, get_rd, get_func3, get_func7}
use yeti_vm.Opcode.Decoder.{
  decode_i_u, decode_i, decode_s_u, decode_s, decode_b_u, decode_b, decode_u, decode_j_u, decode_j,
}

-- The word of 32 bits with the value of a two's complement field of `n` bits.
abbrev pub sign_extended : ℕ → ℕ → ℕ
sign_extended n field = if field / 2 ^ (n - 1) % 2 == 1 then 2 ^ 32 - 2 ^ n + field else field

module _ (code : ℕ) where
  pub get_code_lem : get_code code ≡ code % 2 ^ 7
  unfolding get_code
  get_code_lem = ground (arith, bit_and_ones 7 code)

  pub get_rd_lem : get_rd code ≡ code / 2 ^ 7 % 2 ^ 5
  unfolding get_rd
  get_rd_lem = bit_and_ones 5 (code / 2 ^ 7)

  pub get_func3_lem : get_func3 code ≡ code / 2 ^ 12 % 2 ^ 3
  unfolding get_func3
  get_func3_lem = bit_and_ones 3 (code / 2 ^ 12)

  pub get_rs1_lem : get_rs1 code ≡ code / 2 ^ 15 % 2 ^ 5
  unfolding get_rs1
  get_rs1_lem = bit_and_ones 5 (code / 2 ^ 15)

  pub get_rs2_lem : get_rs2 code ≡ code / 2 ^ 20 % 2 ^ 5
  unfolding get_rs2
  get_rs2_lem = bit_and_ones 5 (code / 2 ^ 20)

  pub get_func7_lem : get_func7 code ≡ code / 2 ^ 25 % 2 ^ 7
  unfolding get_func7
  get_func7_lem = bit_and_ones 7 (code / 2 ^ 25)

  pub decode_i_u_lem : decode_i_u code ≡ code / 2 ^ 20 % 2 ^ 12
  unfolding decode_i_u
  decode_i_u_lem = omega (arith, bit_and_mask 20 12 code)

  pub decode_s_u_lem : decode_s_u code ≡ code / 2 ^ 25 % 2 ^ 7 * 2 ^ 5 + code / 2 ^ 7 % 2 ^ 5
  unfolding decode_s_u
  decode_s_u_lem = ground (
    arith,
    bit_and_mask 7 5 code,
    bit_and_mask 25 7 code,
    bit_or_below 5 (code / 2 ^ 25 % 2 ^ 7) (code / 2 ^ 7 % 2 ^ 5),
  )

  pub decode_b_u_lem :
      decode_b_u code
      ≡ code / 2 ^ 31 % 2 * 2 ^ 12
        + code / 2 ^ 7 % 2 * 2 ^ 11
        + code / 2 ^ 25 % 2 ^ 6 * 2 ^ 5
        + code / 2 ^ 8 % 2 ^ 4 * 2
  unfolding decode_b_u
  decode_b_u_lem =
      let s = code / 2 ^ 31 % 2 in
      let a = code / 2 ^ 8 % 2 ^ 4 in
      let b = code / 2 ^ 25 % 2 ^ 6 in
      let c = code / 2 ^ 7 % 2 in
      ground (
        arith,
        bit_and_mask 31 1 code,
        bit_and_mask 8 4 code,
        bit_and_mask 25 6 code,
        bit_and_mask 7 1 code,
        bit_or_above 12 s (a * 2),
        bit_or_between 7 5 s b (a * 2),
        bit_or_between 1 11 s c (b * 2 ^ 5 + a * 2),
        bit_or-zero (s * 2 ^ 12 + c * 2 ^ 11 + b * 2 ^ 5 + a * 2),
      )

  pub decode_j_u_lem :
      decode_j_u code
      ≡ code / 2 ^ 31 % 2 * 2 ^ 20
        + code / 2 ^ 12 % 2 ^ 8 * 2 ^ 12
        + code / 2 ^ 20 % 2 * 2 ^ 11
        + code / 2 ^ 21 % 2 ^ 10 * 2
  unfolding decode_j_u
  decode_j_u_lem =
      let s = code / 2 ^ 31 % 2 in
      let a = code / 2 ^ 12 % 2 ^ 8 in
      let b = code / 2 ^ 20 % 2 in
      let c = code / 2 ^ 21 % 2 ^ 10 in
      ground (
        arith,
        bit_and_mask 31 1 code,
        bit_and_mask 12 8 code,
        bit_and_mask 20 1 code,
        bit_and_mask 21 10 code,
        bit_or_above 20 s (a * 2 ^ 12),
        bit_or_above 12 (s * 2 ^ 8 + a) (b * 2 ^ 11),
        bit_or_above 11 ((s * 2 ^ 8 + a) * 2 + b) (c * 2),
        bit_or-zero (s * 2 ^ 20 + a * 2 ^ 12 + b * 2 ^ 11 + c * 2),
      )

  pub decode_u_lem : code < 2 ^ 32 → decode_u code ≡ code / 2 ^ 12 * 2 ^ 12
  unfolding decode_u
  decode_u_lem h = omega (arith, bit_and_mask 12 20 code)

extend_12-sign_extended : (v : ℕ) → v < 2 ^ 12 → extend_sign 32 11 v ≡ sign_extended 12 v
extend_12-sign_extended v h = ground (arith, extend_sign_lem 11 20 v)

extend_13-sign_extended : (v : ℕ) → v < 2 ^ 13 → extend_sign 32 12 v ≡ sign_extended 13 v
extend_13-sign_extended v h = ground (arith, extend_sign_lem 12 19 v)

extend_21-sign_extended : (v : ℕ) → v < 2 ^ 21 → extend_sign 32 20 v ≡ sign_extended 21 v
extend_21-sign_extended v h = ground (arith, extend_sign_lem 20 11 v)

module _ (code : ℕ) where
  -- The immediates are the fields of the instruction set manual, sign extended.
  pub decode_i-sign_extended : decode_i code ≡ sign_extended 12 (code / 2 ^ 20 % 2 ^ 12)
  unfolding decode_i
  decode_i-sign_extended = rw decode_i_u_lem (extend_12-sign_extended _ (omega arith))

  pub decode_s-sign_extended :
      decode_s code ≡ sign_extended 12 (code / 2 ^ 25 % 2 ^ 7 * 2 ^ 5 + code / 2 ^ 7 % 2 ^ 5)
  unfolding decode_s
  decode_s-sign_extended = rw decode_s_u_lem (extend_12-sign_extended _ (omega arith))

  pub decode_b-sign_extended :
      decode_b code
      ≡ sign_extended 13 (
          code / 2 ^ 31 % 2 * 2 ^ 12
          + code / 2 ^ 7 % 2 * 2 ^ 11
          + code / 2 ^ 25 % 2 ^ 6 * 2 ^ 5
          + code / 2 ^ 8 % 2 ^ 4 * 2)
  unfolding decode_b
  decode_b-sign_extended = rw decode_b_u_lem (extend_13-sign_extended _ (omega arith))

  pub decode_j-sign_extended :
      decode_j code
      ≡ sign_extended 21 (
          code / 2 ^ 31 % 2 * 2 ^ 20
          + code / 2 ^ 12 % 2 ^ 8 * 2 ^ 12
          + code / 2 ^ 20 % 2 * 2 ^ 11
          + code / 2 ^ 21 % 2 ^ 10 * 2)
  unfolding decode_j
  decode_j-sign_extended = rw decode_j_u_lem (extend_21-sign_extended _ (omega arith))
