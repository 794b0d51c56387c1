-- ===== src/Opcode/Decoder.antt =====
-- `Decoder` of vm_opcode.hxx and vm_opcode.cxx: the fields and immediates of an instruction word.
use yeti_vm.Base.{ℕ, bit_and, bit_or}
use yeti_vm.BitTools.{get_bits, shift_bits, extend_sign, make_mask}

unfoldable pub get_code : ℕ → ℕ
unfolding get_bits
get_code code = get_bits 32 0 7 code

unfoldable pub get_rs2 : ℕ → ℕ
unfolding get_bits
get_rs2 code = get_bits 32 20 5 code

unfoldable pub get_rs1 : ℕ → ℕ
unfolding get_bits
get_rs1 code = get_bits 32 15 5 code

unfoldable pub get_rd : ℕ → ℕ
unfolding get_bits
get_rd code = get_bits 32 7 5 code

unfoldable pub get_func3 : ℕ → ℕ
unfolding get_bits
get_func3 code = get_bits 32 12 3 code

unfoldable pub get_func7 : ℕ → ℕ
unfolding get_bits
get_func7 code = get_bits 32 25 7 code

unfoldable pub decode_i_u : ℕ → ℕ
unfolding shift_bits
decode_i_u code = shift_bits 32 20 0 12 code

unfoldable pub decode_i : ℕ → ℕ
unfolding decode_i_u extend_sign
decode_i code = extend_sign 32 11 (decode_i_u code)

unfoldable pub decode_s_u : ℕ → ℕ
unfolding shift_bits
decode_s_u code =
    let a = shift_bits 32 7 0 5 code in let b = shift_bits 32 25 5 7 code in bit_or a b

unfoldable pub decode_s : ℕ → ℕ
unfolding decode_s_u extend_sign
decode_s code = extend_sign 32 11 (decode_s_u code)

unfoldable pub decode_b_u : ℕ → ℕ
unfolding shift_bits
decode_b_u code =
    let s = shift_bits 32 31 12 1 code in
    let a = shift_bits 32 8 1 4 code in
    let c = shift_bits 32 7 11 1 code in
    let b = shift_bits 32 25 5 6 code in bit_or (bit_or (bit_or (bit_or s a) b) c) 0

unfoldable pub decode_b : ℕ → ℕ
unfolding decode_b_u extend_sign
decode_b code = extend_sign 32 12 (decode_b_u code)

-- The mask has the length 30 of the source: what lies above bit 31 is cut off.
unfoldable pub decode_u : ℕ → ℕ
unfolding make_mask
decode_u code = bit_and code (make_mask 32 12 30)

unfoldable pub decode_j_u : ℕ → ℕ
unfolding shift_bits
decode_j_u code =
    let s = shift_bits 32 31 20 1 code in
    let a = shift_bits 32 12 12 8 code in
    let b = shift_bits 32 20 11 1 code in
    let c = shift_bits 32 21 1 10 code in bit_or (bit_or (bit_or (bit_or s a) b) c) 0

unfoldable pub decode_j : ℕ → ℕ
unfolding decode_j_u extend_sign
decode_j code = extend_sign 32 20 (decode_j_u code)
