-- ===== src/Opcode/RoundTrip.antt =====
-- Decoding what was encoded, for each format.
use yeti_vm.Base.{ℕ, ◌+◌, ◌-◌, ◌*◌, ◌/◌, ◌%◌, ◌^◌, ◌<◌, ◌≤◌, ◌≡◌, ◌⊎◌, arith, ap, ◌∙◌}
use yeti_vm.Opcode.Encoder.{r_type, i_type, s_type, b_type, u_type, j_type}
use yeti_vm.Opcode.Decoder.{
  get_code, get_rs1, get_rs2, get_rd, get_func3, get_func7, decode_i, decode_s, decode_b, decode_u,
  decode_j,
}
use yeti_vm.Opcode.Fields.{
  get_code_lem, get_rd_lem, get_func3_lem, get_rs1_lem, get_rs2_lem, get_func7_lem,
}
use yeti_vm.Opcode.Fields.{
  decode_i-sign_extended, decode_s-sign_extended, decode_b-sign_extended, decode_u_lem,
  decode_j-sign_extended,
}
use yeti_vm.Opcode.Words.{r_type_lem, i_type_lem, s_type_lem, b_type_lem, u_type_lem, j_type_lem}

-- A word that stands for a signed number of `n` bits.
abbrev pub FitsSigned : ℕ → ℕ → Type 0
FitsSigned n imm = (imm < 2 ^ (n - 1)) ⊎ ((2 ^ 32 - 2 ^ (n - 1) ≤ imm) × (imm < 2 ^ 32))

-- Decoding an R-type word gives back the six parts that it was encoded from, when each fits its
-- field.
pub decode-r_type :
    (group rd rs1 rs2 fa fb : ℕ)
    → group < 2 ^ 7
    → rd < 2 ^ 5
    → rs1 < 2 ^ 5
    → rs2 < 2 ^ 5
    → fa < 2 ^ 3
    → fb < 2 ^ 7
    → let code = r_type group rd rs1 rs2 fa fb in
      (get_code code ≡ group)
      × (get_rd code ≡ rd)
      × (get_rs1 code ≡ rs1)
      × (get_rs2 code ≡ rs2)
      × (get_func3 code ≡ fa)
      × (get_func7 code ≡ fb)
decode-r_type group rd rs1 rs2 fa fb hg hd h1 h2 ha hb =
    let code = r_type group rd rs1 rs2 fa fb in
    omega (
      arith,
      r_type_lem group rd fa rs1 rs2 hg hd ha h1 h2 fb hb,
      get_code_lem code,
      get_rd_lem code,
      get_rs1_lem code,
      get_rs2_lem code,
      get_func3_lem code,
      get_func7_lem code,
    )

-- Decoding an I-type word gives back the parts that it was encoded from, when each fits its field and
-- the immediate fits 12 signed bits.
pub decode-i_type :
    (group rd rs1 imm fa : ℕ)
    → group < 2 ^ 7
    → rd < 2 ^ 5
    → rs1 < 2 ^ 5
    → fa < 2 ^ 3
    → FitsSigned 12 imm
    → let code = i_type group rd rs1 imm fa in
      (get_code code ≡ group)
      × (get_rd code ≡ rd)
      × (get_rs1 code ≡ rs1)
      × (get_func3 code ≡ fa)
      × (decode_i code ≡ imm)
decode-i_type group rd rs1 imm fa hg hd h1 ha hi =
    let code = i_type group rd rs1 imm fa in
    ground (
      arith,
      i_type_lem group rd fa rs1 0 hg hd ha h1 (omega arith) imm,
      get_code_lem code,
      get_rd_lem code,
      get_rs1_lem code,
      get_func3_lem code,
      decode_i-sign_extended code,
    )

-- Decoding an S-type word gives back the parts that it was encoded from, when each fits its field and
-- the immediate fits 12 signed bits.
pub decode-s_type :
    (group rs1 rs2 imm fa : ℕ)
    → group < 2 ^ 7
    → rs1 < 2 ^ 5
    → rs2 < 2 ^ 5
    → fa < 2 ^ 3
    → FitsSigned 12 imm
    → let code = s_type group rs1 rs2 imm fa in
      (get_code code ≡ group)
      × (get_rs1 code ≡ rs1)
      × (get_rs2 code ≡ rs2)
      × (get_func3 code ≡ fa)
      × (decode_s code ≡ imm)
decode-s_type group rs1 rs2 imm fa hg h1 h2 ha hi =
    let code = s_type group rs1 rs2 imm fa in
    ground (
      arith,
      s_type_lem group fa rs1 rs2 hg ha h1 h2 imm,
      get_code_lem code,
      get_rs1_lem code,
      get_rs2_lem code,
      get_func3_lem code,
      decode_s-sign_extended code,
    )

-- Decoding a B-type word gives back the parts that it was encoded from, when each fits its field and
-- the offset is even, as its lowest bit is not encoded, and fits 13 signed bits.
pub decode-b_type :
    (group rs1 rs2 imm fa : ℕ)
    → group < 2 ^ 7
    → rs1 < 2 ^ 5
    → rs2 < 2 ^ 5
    → fa < 2 ^ 3
    → FitsSigned 13 imm
    → imm % 2 ≡ 0
    → let code = b_type group rs1 rs2 imm fa in
      (get_code code ≡ group)
      × (get_rs1 code ≡ rs1)
      × (get_rs2 code ≡ rs2)
      × (get_func3 code ≡ fa)
      × (decode_b code ≡ imm)
decode-b_type group rs1 rs2 imm fa hg h1 h2 ha hi even =
    let code = b_type group rs1 rs2 imm fa in
    ground (
      arith,
      b_type_lem group fa rs1 rs2 hg ha h1 h2 imm,
      get_code_lem code,
      get_rs1_lem code,
      get_rs2_lem code,
      get_func3_lem code,
      decode_b-sign_extended code,
    )

-- Decoding a U-type word gives back the parts that it was encoded from, when each fits its field and
-- the low 12 bits of the immediate are 0.
pub decode-u_type :
    (group rd imm : ℕ)
    → group < 2 ^ 7
    → rd < 2 ^ 5
    → imm < 2 ^ 32
    → imm % 2 ^ 12 ≡ 0
    → let code = u_type group rd imm in
      (get_code code ≡ group) × (get_rd code ≡ rd) × (decode_u code ≡ imm)
decode-u_type group rd imm hg hd hi low =
    let code = u_type group rd imm in
    let e : imm ≡ imm / 2 ^ 12 * 2 ^ 12 = omega arith in
    let word : code ≡ imm / 2 ^ 12 * 2 ^ 12 + rd * 2 ^ 7 + group =
      ap (u_type group rd) e ∙ u_type_lem group rd hg hd (imm / 2 ^ 12) (omega arith) in
    omega (arith, word, get_code_lem code, get_rd_lem code, decode_u_lem code (omega (arith, word)))

-- Decoding a J-type word gives back the parts that it was encoded from, when each fits its field and
-- the offset is even and fits 21 signed bits.
pub decode-j_type :
    (group rd imm : ℕ)
    → group < 2 ^ 7
    → rd < 2 ^ 5
    → FitsSigned 21 imm
    → imm % 2 ≡ 0
    → let code = j_type group rd imm in
      (get_code code ≡ group) × (get_rd code ≡ rd) × (decode_j code ≡ imm)
decode-j_type group rd imm hg hd hi even =
    let code = j_type group rd imm in
    ground (
      arith,
      j_type_lem group rd hg hd imm,
      get_code_lem code,
      get_rd_lem code,
      decode_j-sign_extended code,
    )
