-- ===== src/Tool/Listing.antt =====
-- `disasm` of tools/yeti_main.cxx, on the bytes of a program: the lines behind the title, without
-- the padding of their columns.
use yeti_vm.Base.{
  ℕ, ◌+◌, ◌%◌, ◌≡◌, ◌≢◌, ◌↔◌, refl, arith, Option, none, some, List, [], ◌∷◌, String,
}
use yeti_vm.Base.{length}
use yeti_vm.Opcode.Decoder.{get_code}
use yeti_vm.Opcode.Groups.{get_op_id}
use yeti_vm.Handler.Kinds.{Handler}
use yeti_vm.Handler.Registry.{find_handler}
use yeti_vm.Handler.Lookup.{isa}
use yeti_vm.Memory.Block.{Access, done, refused, undefined}
use yeti_vm.Vm.Access.{of_bytes}
use yeti_vm.Disasm.Mnemonic.{mnemonic}
use yeti_vm.Disasm.Args.{disassembly_args}

-- The columns; the address and the code are shown by their hexadecimal digits.
pub record Line : Type 0 where
  pub addr : ℕ
  pub code : ℕ
  pub group : String
  pub instr : String
  pub args : List ℕ

unfoldable pub instr_of : Option Handler → String
instr_of none = "UNKNOWN"
instr_of (some handler) = mnemonic handler

unfoldable pub args_of : Option Handler → ℕ → List ℕ
args_of none code = b'U' ∷ b'N' ∷ b'K' ∷ b'N' ∷ b'O' ∷ b'W' ∷ b'N' ∷ []
args_of (some handler) code = disassembly_args handler code

unfoldable pub line_of : ℕ → ℕ → Line
line_of addr code =
    let handler = find_handler isa code in
    record {
      addr = addr;
      code = code;
      group = get_op_id (get_code code);
      instr = instr_of handler;
      args = args_of handler code;
    }

abbrev pub cons_line : Line → Access (List Line) → Access (List Line)
cons_line l (done ls) = done (l ∷ ls)
cons_line l refused = refused
cons_line l undefined = undefined

-- The loop; a word that reaches past the last byte is read outside the vector.
unfoldable pub disasm_from : ℕ → List ℕ → Access (List Line)
disasm_from i [] = done []
disasm_from i (a ∷ b ∷ c ∷ d ∷ rest) =
    cons_line (line_of i (of_bytes (a ∷ b ∷ c ∷ d ∷ []))) (disasm_from (i + 4) rest)
disasm_from i _ = undefined

unfoldable pub disasm : List ℕ → Access (List Line)
disasm code = disasm_from 0 code

cons_line-undefined_iff :
    (l : Line) (x : Access (List Line)) → (cons_line l x ≡ undefined) ↔ (x ≡ undefined)
cons_line-undefined_iff l (done ls) = (λ e. cc, λ e. cc)
cons_line-undefined_iff l refused = (λ e. cc, λ e. cc)
cons_line-undefined_iff l undefined = (λ e. refl, λ e. refl)

disasm_from-undefined_iff :
    (i : ℕ) (code : List ℕ) → (disasm_from i code ≡ undefined) ↔ (length code % 4 ≢ 0)
unfolding disasm_from
disasm_from-undefined_iff i [] = (λ e. cc, λ n. absurd (n (omega arith)))
disasm_from-undefined_iff i (a ∷ []) = (λ e n. omega (arith, n), λ n. refl)
disasm_from-undefined_iff i (a ∷ b ∷ []) = (λ e n. omega (arith, n), λ n. refl)
disasm_from-undefined_iff i (a ∷ b ∷ c ∷ []) = (λ e n. omega (arith, n), λ n. refl)
disasm_from-undefined_iff i (a ∷ b ∷ c ∷ d ∷ rest) =
    let l = line_of i (of_bytes (a ∷ b ∷ c ∷ d ∷ [])) in
    let (f, g) = cons_line-undefined_iff l (disasm_from (i + 4) rest) in
    let (p, q) = disasm_from-undefined_iff (i + 4) rest in
    (λ e n. p (f e) (omega (arith, n)), λ n. g (q (λ m. n (omega (arith, m)))))

-- The listing of a program reads outside the bytes of the program exactly when their number is
-- not a multiple of 4.
pub disasm-undefined_iff : (code : List ℕ) → (disasm code ≡ undefined) ↔ (length code % 4 ≢ 0)
unfolding disasm
disasm-undefined_iff code = disasm_from-undefined_iff 0 code
