-- ===== src/BitTools/Asserts.antt =====
-- The assertions of src/yeti-vm/vm_bit_tools.cxx, that the compiler checks. A value of a signed type
-- is given by its bits.
use yeti_vm.Base.{ℕ, ◌^◌, ◌≡◌, refl, Bool, true, ◌&&◌}
use yeti_vm.Base.{◌==◌}
use yeti_vm.Base.Int.{shr_ℤ, negsuc, eqb_ℤ}
use yeti_vm.BitTools.{
  complement, all_bits_mask, make_mask, get_bits, shift_bits, extend_sign, extend_sign_msb,
  arithmetic_shift, countl_zero, to_signed, to_unsigned,
}

abbrev asserts_masks : Bool
asserts_masks =
    make_mask 32 0 8 == 0b11111111
    && make_mask 32 1 8 == 0b111111110
    && shift_bits 32 0 1 1 0b00000001 == 0b00000010
    && shift_bits 32 0 1 2 0b00000011 == 0b00000110
    && shift_bits 32 0 2 1 0b00000001 == 0b00000100
    && shift_bits 32 0 2 2 0b00000011 == 0b00001100
    && get_bits 8 0 1 255 == 1
    && get_bits 8 1 1 255 == 1

abbrev test_sra : ℕ → ℕ → ℕ → Bool
test_sra arg expected shift = arithmetic_shift 8 arg shift == expected

abbrev asserts_sra : Bool
asserts_sra =
    test_sra 0 0 5
    && test_sra 255 255 5
    && test_sra 0b00100000 1 5
    && test_sra 0b10100000 0b11101000 2
    && test_sra 0b10110000 0b11110110 3

abbrev asserts_get_bits : Bool
asserts_get_bits =
    get_bits 32 0 1 0b00000001 == 0b00000001
    && get_bits 32 0 2 0b00000011 == 0b00000011
    && get_bits 32 1 1 0b00000010 == 0b00000001
    && get_bits 32 0 7 0x02c58533 == 0b00110011
    && get_bits 32 12 3 0x02c58533 == 0b00000000
    && get_bits 32 12 3 0x02c5c533 == 0b00000100
    && get_bits 32 12 3 0x02c5f533 == 0b00000111
    && eqb_ℤ (to_signed 32 (all_bits_mask 32)) (negsuc 0)
    && to_unsigned 32 (negsuc 0) == all_bits_mask 32

abbrev asserts_extend_sign : Bool
asserts_extend_sign =
    extend_sign 32 3 0 == 0
    && extend_sign 32 3 1 == 1
    && extend_sign 16 3 0b01000 == complement 16 0b0111
    && extend_sign 32 2 0b00100 == complement 32 0b0011
    && countl_zero 8 0b00000000 == 8
    && countl_zero 8 0b00010000 == 3
    && extend_sign_msb 8 0b01000 == complement 8 0b0111
    && extend_sign_msb 8 0b00100 == complement 8 0b0011
    && extend_sign_msb 8 0b0000 == 0
    && extend_sign_msb 8 (2 ^ 7) == 2 ^ 7
    && extend_sign_msb 8 255 == 255

-- All of them hold.
asserts_lem : (asserts_masks && asserts_sra && asserts_get_bits && asserts_extend_sign) ≡ true
unfolding make_mask get_bits shift_bits extend_sign extend_sign_msb arithmetic_shift countl_zero
    to_signed to_unsigned shr_ℤ
asserts_lem = refl
