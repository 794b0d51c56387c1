-- ===== src/Hex/Record.antt =====
-- `hex_record` and `parse_hex_record` of vm_utility.hxx and vm_utility.cxx.
use yeti_vm.Base.{
  ℕ, zero, suc, ◌+◌, ◌*◌, ◌%◌, ◌^◌, bit_or, Bool, ◌&&◌, ◌||◌, Option, none, some, List, String,
}
use yeti_vm.Base.{◌==◌, leb, if◌then◌else◌, length, get_or, drop, take, last_or, init}
use yeti_vm.Hex.Digits.{from_hex, hex_checksum}

-- `hex_record::record_type`
pub data RecordType : Type 0 where
  hex_data hex_eof hex_segment_extend hex_segment_start : RecordType
  hex_linear_extend hex_linear_start hex_unknown : RecordType

-- `bytes` is the field `data`.
pub record HexRecord : Type 0 where
  pub count : ℕ
  pub type : ℕ
  pub sum_expected : ℕ
  pub sum_actual : ℕ
  pub offset : ℕ
  pub bytes : List ℕ

-- The enumerators in order.
unfoldable pub type_of : ℕ → RecordType
type_of zero = hex_data
type_of (suc zero) = hex_eof
type_of (suc (suc zero)) = hex_segment_extend
type_of (suc (suc (suc zero))) = hex_segment_start
type_of (suc (suc (suc (suc zero)))) = hex_linear_extend
type_of (suc (suc (suc (suc (suc zero))))) = hex_linear_start
type_of (suc (suc (suc (suc (suc (suc n)))))) = hex_unknown

unfoldable pub get_type : HexRecord → RecordType
get_type r = type_of r.type

unfoldable pub get_type_name : RecordType → String
get_type_name hex_data = "HEX_DATA"
get_type_name hex_eof = "HEX_EOF"
get_type_name hex_segment_extend = "HEX_SEGMENT_EXTEND"
get_type_name hex_segment_start = "HEX_SEGMENT_START"
get_type_name hex_linear_extend = "HEX_LINEAR_EXTEND"
get_type_name hex_linear_start = "HEX_LINEAR_START"
get_type_name hex_unknown = "HEX_UNKNOWN"

unfoldable pub is_valid : HexRecord → Bool
is_valid r = r.sum_actual == r.sum_expected && r.count == length r.bytes

unfoldable pub is_data : HexRecord → Bool
is_data r = r.type == 0

unfoldable pub is_eof : HexRecord → Bool
is_eof r = r.type == 1

unfoldable pub is_extend_segment : HexRecord → Bool
is_extend_segment r = r.type == 2

unfoldable pub is_start_segment : HexRecord → Bool
is_start_segment r = r.type == 3

unfoldable pub is_extend_linear : HexRecord → Bool
is_extend_linear r = r.type == 4

unfoldable pub is_start_linear : HexRecord → Bool
is_start_linear r = r.type == 5

-- `0` for a record of another type or length.
unfoldable pub get_extend : HexRecord → ℕ
get_extend r =
    if length r.bytes == 2
    then (let value = bit_or (get_or r.bytes 0 0 * 2 ^ 8) (get_or r.bytes 1 0) in
        if is_extend_segment r
        then value * 2 ^ 4 % 2 ^ 32
        else if is_extend_linear r
        then value * 2 ^ 16 % 2 ^ 32
        else 0)
    else 0

unfoldable pub get_start : HexRecord → ℕ
get_start r =
    if length r.bytes == 4 && (is_start_linear r || is_start_segment r)
    then bit_or
        (bit_or (bit_or (get_or r.bytes 0 0 * 2 ^ 24) (get_or r.bytes 1 0 * 2 ^ 16))
          (get_or r.bytes 2 0 * 2 ^ 8))
        (get_or r.bytes 3 0)
    else 0

-- What is read of the bytes of a line; those after the counted ones but for the last are ignored.
unfoldable pub read_fields : List ℕ → HexRecord
read_fields bytes = record {
  count = get_or bytes 0 0;
  type = get_or bytes 3 0;
  sum_expected = last_or bytes 0;
  sum_actual = hex_checksum (init bytes);
  offset = bit_or (get_or bytes 1 0 * 2 ^ 8) (get_or bytes 2 0);
  bytes = take (get_or bytes 0 0) (drop 4 bytes);
}

-- `none` where C++ reads outside the vector of bytes.
unfoldable pub read_record : List ℕ → Option HexRecord
unfolding read_fields
read_record bytes =
    if leb 4 (length bytes) && leb (4 + get_or bytes 0 0) (length bytes)
    then some (read_fields bytes)
    else none

-- `parse_hex_record`
unfoldable pub parse_hex_record : List ℕ → Option HexRecord
parse_hex_record line = read_record (from_hex line)
