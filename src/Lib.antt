-- ===== src/Lib.antt =====
-- yeti-vm: a virtual machine for RISC-V, 32 bits, with the sets RV32I and RV32M.
--
-- The program. A word of an instruction is decoded (`src/yeti-vm/vm_opcode.cxx`), the registry of
-- handlers finds the handler that its fields name (`vm_handler.cxx`), and the handler acts on the
-- machine through `MachineInterface` (`vm_interface.hxx`). `basic_vm` (`vm_basic.cxx`) implements the
-- interface: registers, the program counter, memory by way of the memory management unit
-- (`vm_memory.cxx`), and system calls (`vm_syscall.cxx`).
--
-- The files.
--   Base: shared names, tests, lists, integers, methods that change a state and may throw.
--   BitTools: `bits<T>` of vm_bit_tools.hxx at any width. Digits, Fields and SignExtend hold lemmas,
--   Asserts the assertions of vm_bit_tools.cxx.
--   Opcode: vm_opcode.hxx and .cxx. Groups: `OpcodeType`; Decoder and Encoder: the classes of the
--   same names; Fields, Words and RoundTrip: lemmas on the fields of a word.
--   Machine: `MachineInterface`, as a record of methods over a state.
--   Handler: vm_handler, vm_handlers_rv32i and vm_handlers_rv32m. Kinds: the handler classes;
--   Rv32i, Csr and Rv32m: their `exec`, over any machine; Dispatch: the virtual call; Registry:
--   `HandlerRegistry` and the sets. Alu, Compare, Immediate and Muldiv compare what is computed with
--   the manual, Lookup and Sound are about the registry, Keeps about the use of the interface.
--   Memory: vm_memory. Params, Block and Mmu: `params`, `generic_memory` and
--   `memory_management_unit`; Image: a unit as a map from addresses to bytes; Contents, Layout,
--   Lookup and Regions: lemmas.
--   Syscall: vm_syscall. Registered: lemmas.
--   Vm: vm_basic. State: the fields; Access: registers, memory and the program counter; Setup and
--   Load: what comes before `start`; Step: `run_step` and `run`; Program and Binary: what a
--   program of HEX records or of plain bytes puts into memory. Words, Memory, Registers,
--   Invariant, Safety, Instruction, Arithmetic, Target, Jumps, Bytes, Transfers, Errors, Cycle, Csr, Start and Fuel:
--   lemmas.
--   Hex: the reader of Intel HEX programs in vm_utility. Digits, Record and File: `from_hex`,
--   `hex_record` and `parse_hex`; Files: `load_program` and `parse_hex` of a path;
--   Printer and Addresses: a description of the format; Sums, RoundTrip and Bounds: lemmas.
--   Disasm: the text of instructions. Numbers: `to_hex`; Alias: `get_register_alias` of
--   vm_base_types.cxx; Mnemonic and Args: `mnemonic` and `disassemblyArgs` of the handlers; Dump:
--   `dump_state` of vm_basic.cxx; Operands, Fields, Bounds and Unique: lemmas.
--   Tool: tools/yeti_main.cxx. Loader: `load_helper`; Syscalls: `init_syscalls`; RunVm: `run_vm`;
--   Listing: `disasm`; Main: `main`; ViewHex: tools/view_hex.cxx; MakeDummy:
--   tools/make_dummy.cxx; Prepare: the machine that `run_vm` prepares; Programs: the program files of both formats that fit it; Safety, Fill, Boot, Buffer,
--   Answers, Bytes, Execution and Sound: lemmas.
--   Isa: the instruction set, as the manual describes it, on registers and a map of bytes. Encoding:
--   the opcodes and the fields; Manual: the immediates and what each instruction computes; Arch: the
--   step relation; Trap: where it takes no step, and the exception that stands for that. Decoding,
--   Bounds, Fetch, Access, Calls, Represents, Body, Simulation, Traces, Traps, Cases and Sound: the
--   machine against it.
--   Tests: the theorems at concrete inputs.
--
-- Conventions. A word is a number below 2 ^ 32 and wraps by `% 2 ^ 32`; a signed reading is `to_signed`.
-- A method gives its result or its exception beside the state that it leaves, so what was written
-- before an exception stays written. What C++ leaves undefined is the error `undefined_behaviour`,
-- or `none` for a computed value. The host is little-endian, as a static assertion of
-- vm_bit_tools.hxx asks. The vector of a memory block is a function from offsets to bytes, and its
-- size is the block's. `run` is bounded by fuel, as a program of the machine need not halt;
-- that a run ends is said only of programs that the instruction set takes to their end. In the step relation
-- the system calls are an environment: a relation that says what those that are answered do, and
-- for each number whether it is answered, unknown or left open.
--
-- The index of the loop of the tool's `read` wraps; its fuel is the number of words of the address
-- space. A text is the list of its lines, a line the list of its characters, and the
-- lines of a file are its bytes up to each newline.
--
-- Not modelled: the text of exceptions, debug output, titles and padding; the file system and
-- the streams, so what a path names, with its size, its bytes and how reading it ends, is a parameter
-- (an error of the test or of the size of a file is left out); the programs under tests and examples. What `data()` of an empty vector gives is a parameter of the loader. The
-- callbacks of system calls are code of the program that embeds the machine: they are a parameter
-- of the machine, which Tool fills with those of tools/yeti_main.cxx.
pub mod Base
pub mod BitTools
pub mod Opcode
pub mod Machine
pub mod Handler
pub mod Memory
pub mod Syscall
pub mod Hex
pub mod Vm
pub mod Isa
pub mod Disasm
pub mod Tool
pub mod Tests
