-- ===== src/Tool/Programs.antt =====
-- The program files of tools/yeti_main.cxx in both formats: which fit its memory, and what they
-- are once they are loaded.
use mathlib.Core.List.Memᴰ.{head}
use yeti_vm.Base.{ℕ, ◌<◌, ◌≤◌, ◌≡◌, refl, arith, Bool, false, List, [], ◌∷◌, All}
use yeti_vm.Base.{length}
use yeti_vm.Hex.Record.{HexRecord}
use yeti_vm.Hex.Files.{FilePath, IsFile, get_lines, load_program-IsFile, parse_hex_path-IsFile}
use yeti_vm.Hex.Printer.{IsByte}
use yeti_vm.Hex.RoundTrip.{HexText, parse_hex-HexText}
use yeti_vm.Memory.Params.{Params}
use yeti_vm.Memory.Block.{done}
use yeti_vm.Memory.Image.{Image, IsBytes, peek, patch}
use yeti_vm.Vm.State.{def_code_base, def_code_size}
use yeti_vm.Vm.Setup
use yeti_vm.Vm.Program.{Fits, Loaded, image_of, entry_of, set_program_hex-Loaded}
use yeti_vm.Vm.Binary.{set_program-Loaded}
use yeti_vm.Tool.Loader
use yeti_vm.Tool.Loader.{ProgramData, bin_data, hex_data, null_data, load_file, is_empty, is_null}
use yeti_vm.Tool.Prepare.{tool_mmu, tool_mmu-IsMmu, tool_regions, tool_vm}
use yeti_vm.Tool.Bytes.{image_of-IsBytes, HexText-IsByte, patch-All, tool_mmu-IsBytes}

-- Where a program starts: one of plain bytes at 0.
abbrev pub entry_point : ProgramData → ℕ
entry_point (bin_data code) = 0
entry_point (hex_data records) = entry_of 0 records
entry_point null_data = 0

-- The bytes of the memory with a program in it.
abbrev pub program_image : ProgramData → Image
program_image (bin_data code) = patch (peek tool_mmu) def_code_base code
program_image (hex_data records) = image_of 0 records (peek tool_mmu)
program_image null_data = peek tool_mmu

-- The file of a program that fits the memory of the tool. One of plain bytes has the extension
-- ".bin", is not empty and fits the region of the code; one of records has the extension ".hex",
-- and its lines are the text of the records.
pub data ProgramFile (file : FilePath) : ProgramData → Type 0 where
  bin_file :
      (code : List ℕ)
      → IsFile ".bin" code file
      → All IsByte code
      → 0 < length code
      → length code ≤ def_code_size
      → ProgramFile file (bin_data code)
  hex_file :
      (bytes : List ℕ) (records : List HexRecord)
      → IsFile ".hex" bytes file
      → HexText (get_lines bytes) records
      → Fits tool_regions 0 records
      → ProgramFile file (hex_data records)

pub Fits-is_empty :
    (ps : List Params) (offset : ℕ) (rs : List HexRecord)
    → Fits ps offset rs
    → is_empty (hex_data rs) ≡ false
unfolding is_empty
Fits-is_empty ps _ _ (Fits.data_record offset r rs p v t m pos within f) = refl
Fits-is_empty ps _ _ (Fits.start_record offset r rs v t f) = refl
Fits-is_empty ps _ _ (Fits.extend_record offset r rs v t f) = refl
Fits-is_empty ps _ _ (Fits.eof_record offset r rs v t) = refl

bytes-is_empty : (code : List ℕ) → 0 < length code → is_empty (bin_data code) ≡ false
unfolding is_empty
bytes-is_empty [] pos = absurd (omega (arith, pos))
bytes-is_empty (b ∷ bs) pos = refl

-- What the tool makes of such a file, and what the machine makes of its program.
pub record Ready (file : FilePath) (program : ProgramData) : Type 0 where
  pub loads : load_file file ≡ done program
  pub present : is_null program ≡ false
  pub not_empty : is_empty program ≡ false
  pub bytes : IsBytes (program_image program)
  pub fits :
      (null debug : Bool)
      → Loaded
          (Loader.set_program null program 0)
          (entry_point program)
          (program_image program)
          (tool_vm debug)

pub ProgramFile-Ready :
    (file : FilePath) (program : ProgramData) → ProgramFile file program → Ready file program
unfolding load_file is_null Loader.set_program Setup.is_flag_set
ProgramFile-Ready file _ (bin_file code i v pos le) =
    let e = bytes-is_empty code pos in
    record {
      loads = rw (load_program-IsFile ".bin" code file i) (rw i.has_extension refl);
      present = refl;
      not_empty = e;
      bytes = patch-All (peek tool_mmu) def_code_base code v tool_mmu-IsBytes;
      fits = λ null debug.
          let l =
            set_program-Loaded code 0
              (record { block_start = def_code_base; block_size = def_code_size }) (tool_vm debug)
              refl refl tool_mmu-IsMmu (head refl) pos
              (omega arith, omega (arith, pos), omega (arith, le)) in
          record {
            mmu = l.mmu;
            returns = rw e l.returns;
            IsMmu_after = l.IsMmu_after;
            regions_after = l.regions_after;
            image_after = l.image_after;
          };
    }
ProgramFile-Ready file _ (hex_file bytes records i text f) =
    let e = Fits-is_empty tool_regions 0 records f in
    record {
      loads =
          rw (parse_hex_path-IsFile ".hex" bytes file i)
            (rw (i.has_extension, parse_hex-HexText (get_lines bytes) records text) refl);
      present = refl;
      not_empty = e;
      bytes =
          image_of-IsBytes 0 records (peek tool_mmu) (HexText-IsByte (get_lines bytes) records text)
            tool_mmu-IsBytes;
      fits = λ null debug.
          let l =
            set_program_hex-Loaded null records (tool_vm debug) refl refl tool_mmu-IsMmu
              (HexText-IsByte (get_lines bytes) records text) f in
          record {
            mmu = l.mmu;
            returns = rw e l.returns;
            IsMmu_after = l.IsMmu_after;
            regions_after = l.regions_after;
            image_after = l.image_after;
          };
    }
