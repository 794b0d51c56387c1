-- ===== src/Hex.antt =====
-- The reader of Intel HEX programs in src/yeti-vm/vm_utility.hxx and vm_utility.cxx.
pub mod Digits
pub mod Record
pub mod File
pub mod Files
pub mod Addresses
pub mod Printer
pub mod Sums
pub mod RoundTrip
pub mod Bounds
