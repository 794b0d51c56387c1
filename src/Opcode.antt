-- ===== src/Opcode.antt =====
-- src/yeti-vm/vm_opcode.hxx and vm_opcode.cxx: instruction words of 32 bits.
pub mod Groups
pub mod Decoder
pub mod Encoder
pub mod Fields
pub mod Words
pub mod RoundTrip
use yeti_vm.Base.{ℕ, ◌+◌, ◌*◌, ◌/◌, ◌%◌, ◌^◌, bit_and, bit_or, Bool}
use yeti_vm.Base.{◌==◌, ◌!=◌, if◌then◌else◌}
use yeti_vm.BitTools.{extend_sign_msb}

-- The encoding formats.
pub data BaseFormat : Type 0 where
  unknown r_type i_type s_type b_type u_type j_type : BaseFormat

-- `extend_sign(value, code)`: fill the value from its own top bit if the code is negative.
unfoldable pub extend_sign : ℕ → ℕ → ℕ
extend_sign value code =
    let sign = bit_and code (2 ^ 31) in if sign != 0 then extend_sign_msb 32 value else value

-- The length of an instruction in units of 16 bits, 0 if it is not known.
unfoldable pub op_size : ℕ → ℕ
op_size code =
    if bit_and 0b11 code != 0b11
    then 1
    else if bit_and 0b11100 code != 0b11100
    then 2
    else if bit_and 0b111111 code == 0b11111
    then 3
    else if bit_and 0b1111111 code == 0b111111
    then 3
    else 0
