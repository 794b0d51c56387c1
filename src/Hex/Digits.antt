-- ===== src/Hex/Digits.antt =====
-- The digits and bytes of vm_utility.cxx.
use yeti_vm.Base.{ℕ, ◌+◌, ◌-◌, ◌*◌, ◌%◌, ◌^◌, bit_or, Bool, ◌&&◌, List, [], ◌∷◌}
use yeti_vm.Base.{leb, if◌then◌else◌}

-- `in_range(c, lo, hi)`
unfoldable pub in_range : ℕ → ℕ → ℕ → Bool
in_range c lo hi = leb lo c && leb c hi

-- `from_hex(char)`; 0xff for what is no digit.
unfoldable pub from_hex_digit : ℕ → ℕ
unfolding in_range
from_hex_digit hex =
    if in_range hex b'0' b'9'
    then hex - b'0'
    else if in_range hex b'a' b'f'
    then hex - b'a' + 10
    else if in_range hex b'A' b'F'
    then hex - b'A' + 10
    else 0xff

-- `(hi << 4) | lo`, as an `int`.
abbrev pub join_digits : ℕ → ℕ → ℕ
join_digits hi lo = bit_or (hi * 2 ^ 4) lo

-- `from_hex(string_view)`; an odd last character is not read.
unfoldable pub from_hex : List ℕ → List ℕ
from_hex [] = []
from_hex (c ∷ []) = []
from_hex (hi ∷ lo ∷ rest) =
    join_digits (from_hex_digit hi) (from_hex_digit lo) % 2 ^ 8 ∷ from_hex rest

-- The loop of `hex_checksum`, on a sum of 8 bits.
unfoldable pub sum_bytes : ℕ → List ℕ → ℕ
sum_bytes sum [] = sum
sum_bytes sum (b ∷ bs) = sum_bytes ((sum + b) % 2 ^ 8) bs

unfoldable pub hex_checksum : List ℕ → ℕ
unfolding sum_bytes
hex_checksum bytes = (1 + (255 - sum_bytes 0 bytes)) % 2 ^ 8
