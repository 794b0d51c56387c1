-- ===== src/Hex/Sums.antt =====
-- The checksum of vm_utility.cxx and the sum of the bytes that it stands for.
use yeti_vm.Base.{ℕ, ◌+◌, ◌%◌, ◌^◌, ◌<◌, ◌≡◌, arith, List, [], ◌∷◌, ◌++◌}
use yeti_vm.Hex.Digits.{sum_bytes, hex_checksum}
use yeti_vm.Hex.Printer.{sum_of, checksum}

sum_bytes_lem : (sum : ℕ) (bs : List ℕ) → sum < 2 ^ 8 → sum_bytes sum bs ≡ (sum + sum_of bs) % 2 ^ 8
unfolding sum_bytes sum_of
sum_bytes_lem sum [] h = omega arith
sum_bytes_lem sum (b ∷ bs) h = omega (arith, sum_bytes_lem ((sum + b) % 2 ^ 8) bs (omega arith))

pub hex_checksum_lem : (bytes : List ℕ) → hex_checksum bytes ≡ checksum bytes
unfolding hex_checksum checksum
hex_checksum_lem bytes = omega (arith, sum_bytes_lem 0 bytes (omega arith))

pub sum_of-append : (xs ys : List ℕ) → sum_of (xs ++ ys) ≡ sum_of xs + sum_of ys
unfolding sum_of
sum_of-append [] ys = omega arith
sum_of-append (x ∷ xs) ys = omega (arith, sum_of-append xs ys)

pub checksum-lt : (bytes : List ℕ) → checksum bytes < 2 ^ 8
unfolding checksum
checksum-lt bytes = omega arith
