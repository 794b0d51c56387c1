-- ===== src/BitTools.antt =====
-- `bits<Number>` of src/yeti-vm/vm_bit_tools.hxx for an unsigned `Number` of `w` bits: a word is a
-- number below 2 ^ w, and what a shift to the left pushes out is cut off by `% 2 ^ w`.
pub mod Digits
pub mod Fields
pub mod SignExtend
pub mod Asserts
use yeti_vm.Base.{ℕ, zero, suc, ◌+◌, ◌-◌, ◌*◌, ◌/◌, ◌%◌, ◌^◌, bit_and, bit_or}
use yeti_vm.Base.{leb, ltb, if◌then◌else◌}
use yeti_vm.Base.Int.{ℤ, pos, negsuc, shr_ℤ}

-- `~value`
abbrev pub complement : ℕ → ℕ → ℕ
complement w value = 2 ^ w - 1 - value

abbrev pub all_bits_mask : ℕ → ℕ
all_bits_mask w = 2 ^ w - 1

unfoldable pub to_signed : ℕ → ℕ → ℤ
to_signed w value = if ltb value (2 ^ (w - 1)) then pos value else negsuc (2 ^ w - 1 - value)

-- The conversion of a signed number to the unsigned type is modulo 2 ^ w.
unfoldable pub to_unsigned : ℕ → ℤ → ℕ
to_unsigned w (pos n) = n % 2 ^ w
to_unsigned w (negsuc n) = 2 ^ w - 1 - n % 2 ^ w

unfoldable pub make_mask : ℕ → ℕ → ℕ → ℕ
make_mask w start length =
    let from_start = bit_and (all_bits_mask w * 2 ^ start % 2 ^ w) (all_bits_mask w) in
    let from_end = bit_and (from_start * 2 ^ length % 2 ^ w) (all_bits_mask w) in
    bit_and from_start (complement w from_end)

-- `get_bits<start, length>(code)`
unfoldable pub get_bits : ℕ → ℕ → ℕ → ℕ → ℕ
unfolding make_mask
get_bits w start length code = bit_and (code / 2 ^ start) (make_mask w 0 length)

-- `get_bits(code, start, length)`
unfoldable pub get_bits_of : ℕ → ℕ → ℕ → ℕ → ℕ
get_bits_of w code start length =
    let shift = w - length in bit_and (code / 2 ^ start) (all_bits_mask w / 2 ^ shift)

-- `get_range<LSB, MSB>(code)`
unfoldable pub get_range : ℕ → ℕ → ℕ → ℕ → ℕ
get_range w lsb msb code =
    let shift = w - (msb - lsb + 1) in bit_and (code / 2 ^ lsb) (all_bits_mask w / 2 ^ shift)

-- `shift_bits<start, to, length>(code)`
unfoldable pub shift_bits : ℕ → ℕ → ℕ → ℕ → ℕ → ℕ
unfolding make_mask
shift_bits w start to length code =
    let mask = make_mask w start length in bit_and code mask / 2 ^ start * 2 ^ to % 2 ^ w

-- `extend_sign<position>(code)` and `extend_sign(code, position)`
unfoldable pub extend_sign : ℕ → ℕ → ℕ → ℕ
unfolding to_signed to_unsigned shr_ℤ
extend_sign w position code =
    let sign = to_signed w (code / 2 ^ position * 2 ^ (w - 1) % 2 ^ w) in
    let mask = shr_ℤ sign (w - 1 - position) in bit_or code (to_unsigned w mask)

-- `std::countl_zero` of a word of `w` bits.
unfoldable pub countl_zero : ℕ → ℕ → ℕ
countl_zero zero code = 0
countl_zero (suc w) code = if leb (2 ^ w) code then 0 else suc (countl_zero w code)

-- `extend_sign(code)`: `position` is a `uint8_t`, so it is 255 for the code 0.
unfoldable pub extend_sign_msb : ℕ → ℕ → ℕ
unfolding extend_sign countl_zero
extend_sign_msb w code =
    let position = (w + 256 - countl_zero w code - 1) % 256 in
    if leb w position then code else extend_sign w position code

unfoldable pub arithmetic_shift : ℕ → ℕ → ℕ → ℕ
unfolding to_signed to_unsigned shr_ℤ
arithmetic_shift w code shift = to_unsigned w (shr_ℤ (to_signed w code) shift)
