-- ===== src/Tests/Hex.antt =====
-- The HEX reader, the loader and the tool on a program that makes the system call `exit`.
use mathlib.Core.List.Memᴰ.{head}
use yeti_vm.Base.{
  ℕ, ◌+◌, ◌-◌, ◌*◌, ◌/◌, ◌%◌, ◌^◌, ◌<◌, ◌≡◌, ◌↔◌, refl, sym, subst, ◌++◌, String, arith, inr, true,
  false, List, [], ◌∷◌,
}
use yeti_vm.Base.{length}
use yeti_vm.Base.Exec.{ok, pure, ◌>>=◌}
use yeti_vm.Memory.Block.{done, undefined}
use yeti_vm.Memory.Image.{peek, patch}
use yeti_vm.Memory.Regions.{regions}
use yeti_vm.Hex.Digits
use yeti_vm.Hex.Record
use yeti_vm.Hex.Record.{HexRecord, is_valid, parse_hex_record}
use yeti_vm.Hex.File.{from_colon, parse_hex, parse_from_colon}
use yeti_vm.Hex.Printer
use yeti_vm.Hex.Printer.{Frame, IsFrame, print_frame, to_record}
use yeti_vm.Hex.Files.{FilePath, IsFile, get_lines}
use yeti_vm.Hex.RoundTrip.{HexText, parse_hex-HexText}
use yeti_vm.Hex.Bounds.{count_of, parse_from_colon-undefined_iff, parse_hex_record-is_valid_iff}
use yeti_vm.Vm.State.{Vm}
use yeti_vm.Vm.Fuel.{IsEnd}
use yeti_vm.Vm.Step.{get_current, run}
use yeti_vm.Vm.Setup
use yeti_vm.Vm.Load.{set_program_hex}
use yeti_vm.Vm.Program.{Fits, Loaded, image_of, entry_of, set_program_hex-Loaded}
use yeti_vm.Tool.Syscalls.{fill, fill_fuel}
use yeti_vm.Tool.Fill.{fill-IsEnd}
use yeti_vm.Tool.Loader.{hex_data, load_file}
use yeti_vm.Tool.RunVm.{run_vm, ran}
use yeti_vm.Tool.Safety.{tool_syscalls}
use yeti_vm.Tool.Boot.{Booted, run_vm-Booted, run_vm-get_current}
use yeti_vm.Tool.Prepare.{tool_mmu, tool_mmu-IsMmu, tool_vm}
use yeti_vm.Vm.Binary.{set_program-Loaded}
use yeti_vm.Tool.Bytes.{HexText-IsByte}
use yeti_vm.Tool.Programs.{ProgramFile, entry_point, program_image}
use yeti_vm.Tool.Loader.{bin_data}
use yeti_vm.Tool.ViewHex.{view_hex, shown, Row, AllShow, view_hex-HexText}
use yeti_vm.Tests.Data.{vm_at}
use yeti_vm.Tests.Machines.{started}

-- addi a7, x0, 10; ecall.
abbrev code_frame : Frame
code_frame = record {
  offset = 0;
  type = 0;
  bytes = 0x93 ∷ 0x08 ∷ 0xA0 ∷ 0x00 ∷ 0x73 ∷ 0x00 ∷ 0x00 ∷ 0x00 ∷ [];
}

abbrev start_frame : Frame
start_frame = record { offset = 0; type = 5; bytes = 0 ∷ 0 ∷ 0 ∷ 0 ∷ [] }

abbrev eof_frame : Frame
eof_frame = record { offset = 0; type = 1; bytes = [] }

code_frame-IsFrame : IsFrame code_frame
code_frame-IsFrame = record {
  offset_lt = omega arith;
  type_lt = omega arith;
  bytes_lt = (
    omega arith,
    (
      omega arith,
      (omega arith, (omega arith, (omega arith, (omega arith, (omega arith, (omega arith, tt)))))),
    ),
  );
  length_lt = omega arith;
}

start_frame-IsFrame : IsFrame start_frame
start_frame-IsFrame = record {
  offset_lt = omega arith;
  type_lt = omega arith;
  bytes_lt = (omega arith, (omega arith, (omega arith, (omega arith, tt))));
  length_lt = omega arith;
}

eof_frame-IsFrame : IsFrame eof_frame
eof_frame-IsFrame = record {
  offset_lt = omega arith;
  type_lt = omega arith;
  bytes_lt = tt;
  length_lt = omega arith;
}

-- A comment, three records and a line that is not read.
abbrev pub exit_lines : List (List ℕ)
exit_lines =
    (b'#' ∷ [])
    ∷ print_frame code_frame
    ∷ print_frame start_frame
    ∷ print_frame eof_frame
    ∷ (b':' ∷ [])
    ∷ []

abbrev pub exit_records : List HexRecord
exit_records = to_record code_frame ∷ to_record start_frame ∷ to_record eof_frame ∷ []

pub exit_text : HexText exit_lines exit_records
unfolding from_colon
exit_text = HexText.comment _ _ _ refl (
    HexText.frame code_frame _ _ code_frame-IsFrame (λ e. omega (arith, e))
      (HexText.frame start_frame _ _ start_frame-IsFrame (λ e. omega (arith, e))
        (HexText.end_of_file eof_frame _ eof_frame-IsFrame refl)))

parse_hex-HexText_example : parse_hex exit_lines ≡ done exit_records
parse_hex-HexText_example = parse_hex-HexText exit_lines exit_records exit_text

pub exit_Fits : Fits (regions tool_mmu) 0 exit_records
unfolding to_record is_valid Record.get_type Record.type_of Printer.checksum Printer.sum_of
exit_Fits =
    Fits.data_record 0 _ _ _ refl refl (head refl) (omega arith)
      (omega arith, omega arith, omega arith)
      (Fits.start_record 0 _ _ refl (inr refl) (Fits.eof_record 0 _ _ refl refl))

set_program_hex-Loaded_example :
    Loaded
      (set_program_hex true exit_records)
      (entry_of 0 exit_records)
      (image_of 0 exit_records (peek tool_mmu))
      (tool_vm false)
unfolding Setup.is_flag_set
set_program_hex-Loaded_example =
    set_program_hex-Loaded true exit_records (tool_vm false) refl refl tool_mmu-IsMmu
      (HexText-IsByte exit_lines exit_records exit_text) exit_Fits

-- A file of that size, that can be read.
abbrev file_of : String → List ℕ → FilePath
file_of extension bytes = record {
  extension = extension;
  is_regular = true;
  file_size = length bytes;
  opens = true;
  bytes = bytes;
  read_fails = false;
}

file_of-IsFile :
    (extension : String) (bytes : List ℕ) → IsFile extension bytes (file_of extension bytes)
file_of-IsFile extension bytes = record {
  has_extension = refl;
  regular = refl;
  size = refl;
  can_open = refl;
  has_bytes = refl;
  can_read = refl;
}

-- The bytes of those lines, the last without an end.
abbrev exit_bytes : List ℕ
exit_bytes =
    b'#' ∷ b'\n' ∷ print_frame code_frame
    ++ b'\n' ∷ print_frame start_frame
    ++ b'\n' ∷ print_frame eof_frame
    ++ b'\n' ∷ b':' ∷ []

exit_bytes-get_lines : get_lines exit_bytes ≡ exit_lines
unfolding get_lines print_frame Printer.print_digit Printer.print_bytes Printer.checksum
    Printer.sum_of
exit_bytes-get_lines = refl

abbrev pub exit_path : FilePath
exit_path = file_of ".hex" exit_bytes

exit_HexText : HexText (get_lines exit_bytes) exit_records
exit_HexText = subst (λ ls. HexText ls exit_records) (sym exit_bytes-get_lines) exit_text

pub exit_file : ProgramFile exit_path (hex_data exit_records)
exit_file =
    ProgramFile.hex_file exit_bytes exit_records (file_of-IsFile ".hex" exit_bytes) exit_HexText
      exit_Fits

run_vm-Booted_example :
    (load_file exit_path ≡ done (hex_data exit_records))
    × (vm : Vm) × Booted
        (entry_point (hex_data exit_records))
        (program_image (hex_data exit_records))
        vm
    × ((fuel : ℕ)
        → run_vm true (hex_data exit_records) false fuel
          ≡ (run tool_syscalls fuel >>= λ stopped. pure (ran stopped)) vm)
unfolding entry_of to_record Record.get_type Record.type_of Record.get_start Record.is_start_linear
run_vm-Booted_example =
    run_vm-Booted true false exit_path (hex_data exit_records)
      (record { block_start = 0; block_size = 4 * 1024 * 1024 }) (omega arith) (head refl)
      (omega arith, omega arith, omega arith) exit_file

-- `addi x3, x1, -1` as plain bytes.
abbrev pub addi_bytes : List ℕ
addi_bytes = 147 ∷ 129 ∷ 240 ∷ 255 ∷ []

set_program-Loaded_example :
    Loaded (Setup.set_program addi_bytes 0) 0 (patch (peek tool_mmu) 0 addi_bytes) (tool_vm false)
unfolding Setup.is_flag_set
set_program-Loaded_example =
    set_program-Loaded addi_bytes 0 (record { block_start = 0; block_size = 4 * 1024 * 1024 })
      (tool_vm false) refl refl tool_mmu-IsMmu (head refl) (omega arith)
      (omega arith, omega arith, omega arith)

abbrev pub addi_path : FilePath
addi_path = file_of ".bin" addi_bytes

pub addi_file : ProgramFile addi_path (bin_data addi_bytes)
addi_file =
    ProgramFile.bin_file addi_bytes (file_of-IsFile ".bin" addi_bytes)
      (omega arith, (omega arith, (omega arith, (omega arith, tt)))) (omega arith) (omega arith)

run_vm-get_current_example :
    (word : ℕ) × (get_current (run_vm true (bin_data addi_bytes) true 3).1
      ≡ (ok word, (run_vm true (bin_data addi_bytes) true 3).1))
run_vm-get_current_example =
    run_vm-get_current true true addi_path (bin_data addi_bytes)
      (record { block_start = 0; block_size = 4 * 1024 * 1024 }) (omega arith) (head refl)
      (omega arith, omega arith, omega arith) addi_file 3

-- The largest size, from an aligned address.
fill-IsEnd_example : IsEnd (fill fill_fuel 4096 (2 ^ 32 - 1) 0 (vm_at 0)).0
fill-IsEnd_example = fill-IsEnd 4096 (2 ^ 32 - 1) (vm_at 0) started

-- A record of two bytes, and what is left of its line.
abbrev two_bytes : List ℕ
two_bytes =
    b'0' ∷ b'2' ∷ b'0' ∷ b'0' ∷ b'1' ∷ b'0' ∷ b'0' ∷ b'0' ∷ b'a' ∷ b'b' ∷ b'1' ∷ b'2' ∷ b'3' ∷ b'1'
    ∷ []

parse_hex_record-is_valid_iff_example :
    (is_valid (record {
      count = 2;
      type = 0;
      sum_expected = 0x31;
      sum_actual = 0x31;
      offset = 0x10;
      bytes = 0xab ∷ 0x12 ∷ [];
    })
      ≡ true)
    ↔ (Printer.sum_of (Digits.from_hex two_bytes) % 2 ^ 8 ≡ 0)
unfolding parse_hex_record Record.read_record Record.read_fields Digits.from_hex
    Digits.from_hex_digit Digits.in_range Digits.hex_checksum Digits.sum_bytes
parse_hex_record-is_valid_iff_example = parse_hex_record-is_valid_iff two_bytes _ refl

-- A line that has one character for each byte of its record, as the size test asks.
abbrev short_line : List ℕ
short_line =
    b':' ∷ b'0' ∷ b'4' ∷ b'0' ∷ b'0' ∷ b'0' ∷ b'0' ∷ b'0' ∷ b'0' ∷ b'1' ∷ b'2' ∷ b'3' ∷ b'4' ∷ b'0'
    ∷ b'0' ∷ []

parse_from_colon-undefined_iff_example :
    (parse_from_colon short_line ≡ undefined)
    ↔ ((length short_line - 1) / 2 < 4 + count_of short_line % 2 ^ 8)
unfolding Digits.from_hex_digit Digits.in_range
parse_from_colon-undefined_iff_example = parse_from_colon-undefined_iff short_line (omega arith)

view_hex-HexText_example :
    (rows : List Row) × (view_hex exit_path ([] ∷ [] ∷ []) ≡ done (shown rows))
    × AllShow 1 exit_records rows
view_hex-HexText_example =
    view_hex-HexText ".hex" exit_bytes exit_path exit_records [] [] []
      (file_of-IsFile ".hex" exit_bytes) exit_HexText
