-- ===== src/Tests/Words.antt =====
-- Words, the handlers that they name and what those compute.
use yeti_vm.Base.{◌≡◌, ◌↔◌, arith, inl, inr, some, true}
use yeti_vm.Opcode.Encoder.{r_type, i_type, s_type, b_type, u_type, j_type}
use yeti_vm.Opcode.Decoder.{
  get_code, get_rd, get_rs1, get_rs2, get_func3, get_func7, decode_i, decode_s, decode_b, decode_u,
  decode_j,
}
use yeti_vm.Opcode.RoundTrip.{
  decode-r_type, decode-i_type, decode-s_type, decode-b_type, decode-u_type, decode-j_type,
}
use yeti_vm.Handler.Kinds
use yeti_vm.Handler.Rv32i
use yeti_vm.Handler.Rv32m
use yeti_vm.Handler.Registry.{find_handler}
use yeti_vm.Handler.Lookup.{isa}
use yeti_vm.Isa.Encoding.{Encodes}
use yeti_vm.Isa.Decoding.{find_handler-Encodes_iff}
use yeti_vm.Handler.Alu.{calculate-alu}
use yeti_vm.Handler.Compare.{compare-taken}
use yeti_vm.Handler.Muldiv.{calculate-muldiv, muldiv}

find_handler-Encodes_iff_example :
    (find_handler isa 2130355 ≡ some (Kinds.int_r Kinds.add_r))
    ↔ Encodes (Kinds.int_r Kinds.add_r) 2130355
find_handler-Encodes_iff_example = find_handler-Encodes_iff 2130355 (Kinds.int_r Kinds.add_r)

calculate-alu_example : Rv32i.calculate Kinds.sub_r 3 5 ≡ some 4294967294
calculate-alu_example = calculate-alu Kinds.sub_r 3 5 (omega arith) (omega arith)

calculate-muldiv_example : Rv32m.calculate Kinds.divu 100 7 ≡ some 14
unfolding muldiv
calculate-muldiv_example = calculate-muldiv 100 7 (omega arith) (omega arith) Kinds.divu

compare-taken_example : Rv32i.compare Kinds.blt 4294967295 1 ≡ true
compare-taken_example = compare-taken Kinds.blt 4294967295 1 (omega arith) (omega arith)

decode-r_type_example :
    let code = r_type 51 3 1 2 0 32 in
    (get_code code ≡ 51)
    × (get_rd code ≡ 3)
    × (get_rs1 code ≡ 1)
    × (get_rs2 code ≡ 2)
    × (get_func3 code ≡ 0)
    × (get_func7 code ≡ 32)
decode-r_type_example =
    decode-r_type 51 3 1 2 0 32 (omega arith) (omega arith) (omega arith) (omega arith)
      (omega arith) (omega arith)

decode-i_type_example :
    let code = i_type 19 3 1 4294967295 0 in
    (get_code code ≡ 19)
    × (get_rd code ≡ 3)
    × (get_rs1 code ≡ 1)
    × (get_func3 code ≡ 0)
    × (decode_i code ≡ 4294967295)
decode-i_type_example =
    decode-i_type 19 3 1 4294967295 0 (omega arith) (omega arith) (omega arith) (omega arith)
      (inr (omega arith, omega arith))

decode-s_type_example :
    let code = s_type 35 1 2 20 2 in
    (get_code code ≡ 35)
    × (get_rs1 code ≡ 1)
    × (get_rs2 code ≡ 2)
    × (get_func3 code ≡ 2)
    × (decode_s code ≡ 20)
decode-s_type_example =
    decode-s_type 35 1 2 20 2 (omega arith) (omega arith) (omega arith) (omega arith)
      (inl (omega arith))

decode-b_type_example :
    let code = b_type 99 1 2 4294967288 1 in
    (get_code code ≡ 99)
    × (get_rs1 code ≡ 1)
    × (get_rs2 code ≡ 2)
    × (get_func3 code ≡ 1)
    × (decode_b code ≡ 4294967288)
decode-b_type_example =
    decode-b_type 99 1 2 4294967288 1 (omega arith) (omega arith) (omega arith) (omega arith)
      (inr (omega arith, omega arith)) (omega arith)

decode-u_type_example :
    let code = u_type 55 3 4096 in (get_code code ≡ 55) × (get_rd code ≡ 3) × (decode_u code ≡ 4096)
decode-u_type_example =
    decode-u_type 55 3 4096 (omega arith) (omega arith) (omega arith) (omega arith)

decode-j_type_example :
    let code = j_type 111 1 2048 in
    (get_code code ≡ 111) × (get_rd code ≡ 1) × (decode_j code ≡ 2048)
decode-j_type_example =
    decode-j_type 111 1 2048 (omega arith) (omega arith) (inl (omega arith)) (omega arith)
