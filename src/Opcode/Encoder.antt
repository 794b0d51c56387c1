-- ===== src/Opcode/Encoder.antt =====
-- `Encoder` of vm_opcode.hxx and vm_opcode.cxx: instruction words from their parts, not checked.
use yeti_vm.Base.{ℕ, ◌*◌, ◌%◌, ◌^◌, bit_or}
use yeti_vm.BitTools.{get_range}

-- `value << offset` on 32 bits
abbrev shl : ℕ → ℕ → ℕ
shl value offset = value * 2 ^ offset % 2 ^ 32

unfoldable pub encode_group : ℕ → ℕ
encode_group group = shl group 0

unfoldable pub encode_rd : ℕ → ℕ
encode_rd id = shl id 7

unfoldable pub encode_rs1 : ℕ → ℕ
encode_rs1 id = shl id 15

unfoldable pub encode_rs2 : ℕ → ℕ
encode_rs2 id = shl id 20

unfoldable pub encode_f3 : ℕ → ℕ
encode_f3 id = shl id 12

unfoldable pub encode_f7 : ℕ → ℕ
encode_f7 id = shl id 25

unfoldable pub encode_i : ℕ → ℕ
encode_i immediate = shl immediate 20

unfoldable pub encode_s : ℕ → ℕ
unfolding get_range
encode_s immediate =
    let value = bit_or 0 (shl (get_range 32 0 4 immediate) 7) in
    bit_or value (shl (get_range 32 5 11 immediate) 25)

unfoldable pub encode_b : ℕ → ℕ
unfolding get_range
encode_b immediate =
    let value = bit_or 0 (shl (get_range 32 11 11 immediate) 7) in
    let value = bit_or value (shl (get_range 32 1 4 immediate) 8) in
    let value = bit_or value (shl (get_range 32 5 10 immediate) 25) in
    bit_or value (shl (get_range 32 12 12 immediate) 31)

unfoldable pub encode_u : ℕ → ℕ
encode_u immediate = bit_or 0 immediate

unfoldable pub encode_j : ℕ → ℕ
unfolding get_range
encode_j immediate =
    let value = bit_or 0 (shl (get_range 32 20 20 immediate) 31) in
    let value = bit_or value (shl (get_range 32 1 10 immediate) 21) in
    let value = bit_or value (shl (get_range 32 11 11 immediate) 20) in
    bit_or value (shl (get_range 32 12 19 immediate) 12)

unfoldable pub r_type : ℕ → ℕ → ℕ → ℕ → ℕ → ℕ → ℕ
unfolding encode_group encode_rd encode_f3 encode_rs1 encode_rs2 encode_f7
r_type group rd rs1 rs2 fa fb =
    let value = bit_or 0 (encode_group group) in
    let value = bit_or value (encode_rd rd) in
    let value = bit_or value (encode_f3 fa) in
    let value = bit_or value (encode_rs1 rs1) in
    let value = bit_or value (encode_rs2 rs2) in bit_or value (encode_f7 fb)

unfoldable pub i_type : ℕ → ℕ → ℕ → ℕ → ℕ → ℕ
unfolding encode_group encode_rd encode_f3 encode_rs1 encode_i
i_type group rd rs1 immediate fa =
    let value = bit_or 0 (encode_group group) in
    let value = bit_or value (encode_rd rd) in
    let value = bit_or value (encode_f3 fa) in
    let value = bit_or value (encode_rs1 rs1) in bit_or value (encode_i immediate)

unfoldable pub s_type : ℕ → ℕ → ℕ → ℕ → ℕ → ℕ
unfolding encode_group encode_f3 encode_rs1 encode_rs2 encode_s
s_type group rs1 rs2 immediate fa =
    let value = bit_or 0 (encode_group group) in
    let value = bit_or value (encode_f3 fa) in
    let value = bit_or value (encode_rs1 rs1) in
    let value = bit_or value (encode_rs2 rs2) in bit_or value (encode_s immediate)

unfoldable pub b_type : ℕ → ℕ → ℕ → ℕ → ℕ → ℕ
unfolding encode_group encode_f3 encode_rs1 encode_rs2 encode_b
b_type group rs1 rs2 immediate fa =
    let value = bit_or 0 (encode_group group) in
    let value = bit_or value (encode_f3 fa) in
    let value = bit_or value (encode_rs1 rs1) in
    let value = bit_or value (encode_rs2 rs2) in bit_or value (encode_b immediate)

unfoldable pub u_type : ℕ → ℕ → ℕ → ℕ
unfolding encode_group encode_rd encode_u
u_type group rd immediate =
    let value = bit_or 0 (encode_group group) in
    let value = bit_or value (encode_rd rd) in bit_or value (encode_u immediate)

unfoldable pub j_type : ℕ → ℕ → ℕ → ℕ
unfolding encode_group encode_rd encode_j
j_type group rd immediate =
    let value = bit_or 0 (encode_group group) in
    let value = bit_or value (encode_rd rd) in bit_or value (encode_j immediate)
