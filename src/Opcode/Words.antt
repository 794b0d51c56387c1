-- ===== src/Opcode/Words.antt =====
-- What `Encoder` writes, as arithmetic: each field at its offset.
use yeti_vm.Base.{ℕ, ◌+◌, ◌*◌, ◌/◌, ◌%◌, ◌^◌, ◌<◌, ◌≡◌, arith, bit_or}
use yeti_vm.BitTools.Digits.{zero-bit_or}
use yeti_vm.BitTools.Fields.{bit_and_ones, bit_or-join, bit_or_above, bit_or_below, bit_or_between}
use yeti_vm.Opcode.Encoder.{
  r_type, i_type, s_type, b_type, u_type, j_type, encode_s, encode_b, encode_j,
}

pub encode_s_lem : (imm : ℕ) → encode_s imm ≡ imm / 2 ^ 5 % 2 ^ 7 * 2 ^ 25 + imm % 2 ^ 5 * 2 ^ 7
unfolding encode_s
encode_s_lem imm =
    let low = imm % 2 ^ 5 in
    let high = imm / 2 ^ 5 % 2 ^ 7 in
    ground (
      arith,
      bit_and_ones 5 imm,
      bit_and_ones 7 (imm / 2 ^ 5),
      zero-bit_or (low * 2 ^ 7),
      bit_or_below 25 high (low * 2 ^ 7),
    )

pub encode_b_lem :
    (imm : ℕ)
    → encode_b imm
      ≡ imm / 2 ^ 12 % 2 * 2 ^ 31
        + imm / 2 ^ 5 % 2 ^ 6 * 2 ^ 25
        + imm / 2 % 2 ^ 4 * 2 ^ 8
        + imm / 2 ^ 11 % 2 * 2 ^ 7
unfolding encode_b
encode_b_lem imm =
    let c = imm / 2 ^ 11 % 2 in
    let a = imm / 2 % 2 ^ 4 in
    let b = imm / 2 ^ 5 % 2 ^ 6 in
    let s = imm / 2 ^ 12 % 2 in
    ground (
      arith,
      bit_and_ones 1 (imm / 2 ^ 11),
      bit_and_ones 4 (imm / 2),
      bit_and_ones 6 (imm / 2 ^ 5),
      bit_and_ones 1 (imm / 2 ^ 12),
      zero-bit_or (c * 2 ^ 7),
      bit_or_below 8 a (c * 2 ^ 7),
      bit_or_below 25 b (a * 2 ^ 8 + c * 2 ^ 7),
      bit_or_below 31 s (b * 2 ^ 25 + a * 2 ^ 8 + c * 2 ^ 7),
    )

pub encode_j_lem :
    (imm : ℕ)
    → encode_j imm
      ≡ imm / 2 ^ 20 % 2 * 2 ^ 31
        + imm / 2 % 2 ^ 10 * 2 ^ 21
        + imm / 2 ^ 11 % 2 * 2 ^ 20
        + imm / 2 ^ 12 % 2 ^ 8 * 2 ^ 12
unfolding encode_j
encode_j_lem imm =
    let s = imm / 2 ^ 20 % 2 in
    let c = imm / 2 % 2 ^ 10 in
    let b = imm / 2 ^ 11 % 2 in
    let a = imm / 2 ^ 12 % 2 ^ 8 in
    ground (
      arith,
      bit_and_ones 1 (imm / 2 ^ 20),
      bit_and_ones 10 (imm / 2),
      bit_and_ones 1 (imm / 2 ^ 11),
      bit_and_ones 8 (imm / 2 ^ 12),
      zero-bit_or (s * 2 ^ 31),
      bit_or_above 31 s (c * 2 ^ 21),
      bit_or_above 21 (s * 2 ^ 10 + c) (b * 2 ^ 20),
      bit_or_above 20 ((s * 2 ^ 10 + c) * 2 + b) (a * 2 ^ 12),
    )

module _ (group rd fa rs1 rs2 : ℕ) (group_fits : group < 2 ^ 7) (rd_fits : rd < 2 ^ 5)
    (fa_fits : fa < 2 ^ 3) (rs1_fits : rs1 < 2 ^ 5) (rs2_fits : rs2 < 2 ^ 5) where
  pub r_type_lem :
      (fb : ℕ)
      → fb < 2 ^ 7
      → r_type group rd rs1 rs2 fa fb
        ≡ fb * 2 ^ 25 + rs2 * 2 ^ 20 + rs1 * 2 ^ 15 + fa * 2 ^ 12 + rd * 2 ^ 7 + group
  unfolding r_type
  r_type_lem fb fb_fits = ground (
    arith,
    zero-bit_or group,
    bit_or_below 7 rd group,
    bit_or_below 12 fa (rd * 2 ^ 7 + group),
    bit_or_below 15 rs1 (fa * 2 ^ 12 + rd * 2 ^ 7 + group),
    bit_or_below 20 rs2 (rs1 * 2 ^ 15 + fa * 2 ^ 12 + rd * 2 ^ 7 + group),
    bit_or_below 25 fb (rs2 * 2 ^ 20 + rs1 * 2 ^ 15 + fa * 2 ^ 12 + rd * 2 ^ 7 + group),
  )

  pub i_type_lem :
      (imm : ℕ)
      → i_type group rd rs1 imm fa
        ≡ imm % 2 ^ 12 * 2 ^ 20 + rs1 * 2 ^ 15 + fa * 2 ^ 12 + rd * 2 ^ 7 + group
  unfolding i_type
  i_type_lem imm = ground (
    arith,
    zero-bit_or group,
    bit_or_below 7 rd group,
    bit_or_below 12 fa (rd * 2 ^ 7 + group),
    bit_or_below 15 rs1 (fa * 2 ^ 12 + rd * 2 ^ 7 + group),
    bit_or_below 20 (imm % 2 ^ 12) (rs1 * 2 ^ 15 + fa * 2 ^ 12 + rd * 2 ^ 7 + group),
  )

-- An immediate that goes above and below the register fields.
or_around :
    (t group h l : ℕ)
    → t < 2 ^ 13
    → group < 2 ^ 7
    → l < 2 ^ 5
    → bit_or (t * 2 ^ 12 + group) (h * 2 ^ 25 + l * 2 ^ 7)
      ≡ h * 2 ^ 25 + t * 2 ^ 12 + l * 2 ^ 7 + group
or_around t group h l t_fits group_fits l_fits = ground (
  arith,
  bit_or-join 25 0 (t * 2 ^ 12 + group) h (l * 2 ^ 7),
  zero-bit_or h,
  bit_or_between 5 7 t l group,
)

module _ (group fa rs1 rs2 : ℕ) (group_fits : group < 2 ^ 7) (fa_fits : fa < 2 ^ 3)
    (rs1_fits : rs1 < 2 ^ 5) (rs2_fits : rs2 < 2 ^ 5) where
  abbrev registers : ℕ
  registers = rs2 * 2 ^ 8 + rs1 * 2 ^ 3 + fa

  or_registers :
      bit_or
        (bit_or
          (bit_or (bit_or 0 (group * 2 ^ 0 % 2 ^ 32)) (fa * 2 ^ 12 % 2 ^ 32))
          (rs1 * 2 ^ 15 % 2 ^ 32))
        (rs2 * 2 ^ 20 % 2 ^ 32)
      ≡ registers * 2 ^ 12 + group
  or_registers = ground (
    arith,
    zero-bit_or group,
    bit_or_below 12 fa group,
    bit_or_below 15 rs1 (fa * 2 ^ 12 + group),
    bit_or_below 20 rs2 (rs1 * 2 ^ 15 + fa * 2 ^ 12 + group),
  )

  pub s_type_lem :
      (imm : ℕ)
      → s_type group rs1 rs2 imm fa
        ≡ imm / 2 ^ 5 % 2 ^ 7 * 2 ^ 25 + registers * 2 ^ 12 + imm % 2 ^ 5 * 2 ^ 7 + group
  unfolding s_type
  s_type_lem imm =
      rw (or_registers, encode_s_lem imm)
        (or_around registers group (imm / 2 ^ 5 % 2 ^ 7) (imm % 2 ^ 5) (omega arith) group_fits
          (omega arith))

  pub b_type_lem :
      (imm : ℕ)
      → b_type group rs1 rs2 imm fa
        ≡ (imm / 2 ^ 12 % 2 * 2 ^ 6 + imm / 2 ^ 5 % 2 ^ 6) * 2 ^ 25
          + registers * 2 ^ 12
          + (imm / 2 % 2 ^ 4 * 2 + imm / 2 ^ 11 % 2) * 2 ^ 7
          + group
  unfolding b_type
  b_type_lem imm =
      let h = imm / 2 ^ 12 % 2 * 2 ^ 6 + imm / 2 ^ 5 % 2 ^ 6 in
      let l = imm / 2 % 2 ^ 4 * 2 + imm / 2 ^ 11 % 2 in
      let e : encode_b imm ≡ h * 2 ^ 25 + l * 2 ^ 7 = omega (arith, encode_b_lem imm) in
      rw (or_registers, e) (or_around registers group h l (omega arith) group_fits (omega arith))

module _ (group rd : ℕ) (group_fits : group < 2 ^ 7) (rd_fits : rd < 2 ^ 5) where
  pub u_type_lem :
      (q : ℕ) → q < 2 ^ 20 → u_type group rd (q * 2 ^ 12) ≡ q * 2 ^ 12 + rd * 2 ^ 7 + group
  unfolding u_type
  u_type_lem q q_fits = ground (
    arith,
    zero-bit_or group,
    zero-bit_or (q * 2 ^ 12),
    bit_or_below 7 rd group,
    bit_or_below 12 q (rd * 2 ^ 7 + group),
  )

  pub j_type_lem :
      (imm : ℕ)
      → j_type group rd imm
        ≡ (imm / 2 ^ 20 % 2 * 2 ^ 19
              + imm / 2 % 2 ^ 10 * 2 ^ 9
              + imm / 2 ^ 11 % 2 * 2 ^ 8
              + imm / 2 ^ 12 % 2 ^ 8)
            * 2 ^ 12
          + rd * 2 ^ 7
          + group
  unfolding j_type
  j_type_lem imm =
      let q =
        imm / 2 ^ 20 % 2 * 2 ^ 19
        + imm / 2 % 2 ^ 10 * 2 ^ 9
        + imm / 2 ^ 11 % 2 * 2 ^ 8
        + imm / 2 ^ 12 % 2 ^ 8 in
      let e : encode_j imm ≡ q * 2 ^ 12 = omega (arith, encode_j_lem imm) in
      rw e (
        ground (
          arith,
          zero-bit_or group,
          bit_or_below 7 rd group,
          bit_or_below 12 q (rd * 2 ^ 7 + group),
        ))
