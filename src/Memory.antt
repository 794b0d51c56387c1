-- ===== src/Memory.antt =====
-- src/yeti-vm/vm_memory.hxx and vm_memory.cxx: memory regions and the unit that holds them.
pub mod Params
pub mod Block
pub mod Mmu
pub mod Contents
pub mod Layout
pub mod Lookup
pub mod Image
pub mod Regions
