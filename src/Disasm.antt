-- ===== src/Disasm.antt =====
-- The text of an instruction: `get_register_alias` of vm_base_types.cxx, `to_hex` of vm_opcode.hxx,
-- `mnemonic` and `disassemblyArgs` of the handlers. A text is the list of its characters.
pub mod Numbers
pub mod Alias
pub mod Mnemonic
pub mod Args
pub mod Operands
pub mod Fields
pub mod Bounds
pub mod Unique
pub mod Dump
