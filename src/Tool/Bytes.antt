-- ===== src/Tool/Bytes.antt =====
-- The bytes of a HEX program in the memory of tools/yeti_main.cxx.
use yeti_vm.Base.{
  ℕ, zero, suc, ◌-◌, ◌<◌, arith, Bool, true, false, inl, inr, none, some, Option, List, [], ◌∷◌,
  All,
}
use yeti_vm.Base.{get_or, if◌then◌else◌, Bool-cases}
use yeti_vm.Memory.Image.{Image, IsBytes, byte_or_zero, covers, peek, patch, byte_of}
use yeti_vm.Memory.Mmu.{find_block}
use yeti_vm.Hex.Record.{HexRecord}
use yeti_vm.Hex.Addresses.{extension_of}
use yeti_vm.Hex.Printer.{IsByte, to_record}
use yeti_vm.Hex.RoundTrip.{HexText}
use yeti_vm.Vm.Program.{by_type, image_of, address_of}
use yeti_vm.Tool.Prepare.{code_block, data_block, tool_mmu}
use yeti_vm.Memory.Block.{Block}

-- Bytes written over bytes.
get_or-IsByte : (xs : List ℕ) (i : ℕ) → All IsByte xs → get_or xs i 0 < 256
get_or-IsByte [] i h = omega arith
get_or-IsByte (x ∷ xs) zero (p, h) = p
get_or-IsByte (x ∷ xs) (suc i) (p, h) = get_or-IsByte xs i h

pub patch-All :
    (m : Image) (a : ℕ) (xs : List ℕ) → All IsByte xs → IsBytes m → IsBytes (patch m a xs)
unfolding patch
patch-All m a xs h w c lt = elim (Bool-cases (covers a xs c)) [
  | inl e ↦ rw e (get_or-IsByte xs (c - a) h)
  | inr e ↦ rw e (w c lt)
]

by_type-IsBytes :
    (t : ℕ) (d x s e : Image)
    → IsBytes d
    → IsBytes x
    → IsBytes s
    → IsBytes e
    → IsBytes (by_type t d x s e)
by_type-IsBytes zero d x s e p q r u = p
by_type-IsBytes (suc zero) d x s e p q r u = u
by_type-IsBytes (suc (suc zero)) d x s e p q r u = q
by_type-IsBytes (suc (suc (suc zero))) d x s e p q r u = r
by_type-IsBytes (suc (suc (suc (suc zero)))) d x s e p q r u = q
by_type-IsBytes (suc (suc (suc (suc (suc zero))))) d x s e p q r u = r
by_type-IsBytes (suc (suc (suc (suc (suc (suc n)))))) d x s e p q r u = u

pub image_of-IsBytes :
    (offset : ℕ) (rs : List HexRecord) (m : Image)
    → All (λ r. All IsByte r.bytes) rs
    → IsBytes m
    → IsBytes (image_of offset rs m)
unfolding image_of
image_of-IsBytes offset [] m h w = w
image_of-IsBytes offset (r ∷ rs) m (p, h) w =
    by_type-IsBytes r.type _ _ _ _
      (image_of-IsBytes offset rs _ h (patch-All m (address_of offset r) r.bytes p w))
      (image_of-IsBytes (extension_of r) rs m h w) (image_of-IsBytes offset rs m h w) w

-- The bytes of records that a text prints.
pub HexText-IsByte :
    (lines : List (List ℕ)) (rs : List HexRecord)
    → HexText lines rs
    → All (λ r. All IsByte r.bytes) rs
unfolding to_record
HexText-IsByte _ _ (HexText.comment line ls rs e t) = HexText-IsByte ls rs t
HexText-IsByte _ _ (HexText.frame f ls rs v ne t) = (v.bytes_lt, HexText-IsByte ls rs t)
HexText-IsByte _ _ (HexText.end_of_file f rest v e) = (v.bytes_lt, tt)

abbrev IsByteOf : ℕ → Option Block → Type 0
IsByteOf a o = byte_or_zero (byte_of a o) < 256

if-IsByteOf :
    (a : ℕ) (c : Bool) (x y : Option Block)
    → IsByteOf a x
    → IsByteOf a y
    → IsByteOf a (if c then x else y)
if-IsByteOf a true x y p q = p
if-IsByteOf a false x y p q = q

some-IsByteOf : (a : ℕ) (b : Block) → ((i : ℕ) → b.bytes i < 256) → IsByteOf a (some b)
unfolding byte_of
some-IsByteOf a b h = h (a - b.params.block_start)

none-IsByteOf : (a : ℕ) → IsByteOf a none
unfolding byte_of
none-IsByteOf a = omega arith

pub tool_mmu-IsBytes : IsBytes (peek tool_mmu)
unfolding peek find_block
tool_mmu-IsBytes a lt =
    if-IsByteOf a _ _ _ (some-IsByteOf a code_block (λ i. omega arith))
      (if-IsByteOf a _ _ _ (some-IsByteOf a data_block (λ i. omega arith)) (none-IsByteOf a))
