-- ===== src/Hex/File.antt =====
-- `parse_hex(istream)` of vm_utility.cxx, on the lines that `std::getline` gives. The overload that
-- takes a path opens the file and calls this one.
use yeti_vm.Base.{ℕ, ◌+◌, ◌*◌, Option, none, some, List, [], ◌∷◌}
use yeti_vm.Base.{◌==◌, ltb, if◌then◌else◌, length, get_or, drop}
use yeti_vm.Memory.Block.{Access, done, refused, undefined}
use yeti_vm.Hex.Digits.{from_hex_digit, join_digits}
use yeti_vm.Hex.Record.{HexRecord, is_eof, parse_hex_record}

-- `line.substr(line.find(':'))`; `none` for npos.
unfoldable pub from_colon : List ℕ → Option (List ℕ)
from_colon [] = none
from_colon (c ∷ cs) = let rest = from_colon cs in if c == b':' then some (c ∷ cs) else rest

-- ':'<count><address><type><checksum>
abbrev pub min_record_size : ℕ
min_record_size = 1 + (1 + 2 + 1 + 1) * 2

-- The size that is asked of a line from its colon on. The count is added once, though each of its
-- bytes is two characters.
abbrev pub record_size : List ℕ → ℕ
record_size line =
    min_record_size
    + join_digits (from_hex_digit (get_or line 1 0)) (from_hex_digit (get_or line 2 0))

unfoldable pub to_access : Option HexRecord → Access HexRecord
to_access none = undefined
to_access (some r) = done r

-- A line from its colon on. Its second and third character are read without a test.
unfoldable pub parse_from_colon : List ℕ → Access HexRecord
unfolding to_access
parse_from_colon line =
    if ltb (length line) 3
    then undefined
    else if ltb (length line) (record_size line)
    then refused
    else to_access (parse_hex_record (drop 1 line))

-- One turn of the loop: `none` for `continue`. The first test is of the whole line.
unfoldable pub parse_line : List ℕ → Option (Access HexRecord)
unfolding from_colon parse_from_colon
parse_line line = elim (from_colon line) [
  | none ↦ none
  | some rest ↦ some (if ltb (length line) min_record_size then refused else parse_from_colon rest)
]

-- The record before those of the later lines.
unfoldable pub cons_record : HexRecord → Access (List HexRecord) → Access (List HexRecord)
cons_record r refused = refused
cons_record r undefined = undefined
cons_record r (done rs) = done (r ∷ rs)

-- What a turn adds to the later lines' result. The loop stops after an EOF record.
unfoldable pub next_record :
    Option (Access HexRecord) → Access (List HexRecord) → Access (List HexRecord)
unfolding cons_record
next_record none rest = rest
next_record (some refused) rest = refused
next_record (some undefined) rest = undefined
next_record (some (done r)) rest = if is_eof r then done (r ∷ []) else cons_record r rest

unfoldable pub parse_hex : List (List ℕ) → Access (List HexRecord)
unfolding next_record parse_line
parse_hex [] = done []
parse_hex (line ∷ lines) = next_record (parse_line line) (parse_hex lines)
