-- ===== src/Isa/Decoding.antt =====
-- The tables of handler classes against the encodings of the manual: `GenericHandler` of
-- vm_handler.hxx with the arguments that the classes of vm_handlers_rv32i.hxx and
-- vm_handlers_rv32m.hxx give it, and the fields that `Decoder` reads.
use yeti_vm.Base.{
  ℕ, ◌/◌, ◌%◌, ◌^◌, ◌≡◌, ◌≢◌, ◌↔◌, inl, inr, refl, sym, subst, ap, ap₂, ◌∙◌, arith, Option, none,
  some,
}
use yeti_vm.Base.{◌==◌, ==_iff, if◌then◌else◌, Bool-cases}
use yeti_vm.Opcode.Decoder.{get_rd, get_rs1, get_rs2}
use yeti_vm.Opcode.Fields.{
  get_code_lem, get_func3_lem, get_func7_lem, get_rd_lem, get_rs1_lem, get_rs2_lem,
}
use yeti_vm.Handler.Kinds
use yeti_vm.Handler.Kinds.{Handler, get_group_id, get_func_a, get_func_b}
use yeti_vm.Handler.Lookup.{Matches, isa}
use yeti_vm.Handler.Registry.{find_handler}
use yeti_vm.Handler.Sound.{find_handler-isa_iff}
use yeti_vm.Isa.Encoding.{rs1, rs2, opcode_of, func3_of, func7_of, Field, Encodes}
use yeti_vm.Isa.Manual.{
  computed_by, computed_with, destination_by, destination_with, access_by, access_with,
}

-- A function id of a handler class, where `any` stands for none.
abbrev asked : ℕ → ℕ → Option ℕ
asked any f = if f == any then none else some f

opcode_of-get_group_id : (h : Handler) → get_group_id h ≡ opcode_of h
unfolding get_group_id
opcode_of-get_group_id Kinds.lui = refl
opcode_of-get_group_id _ = refl

func3_of-get_func_a : (h : Handler) → func3_of h ≡ asked 16 (get_func_a h)
unfolding get_func_a
func3_of-get_func_a Kinds.lui = refl
func3_of-get_func_a (Kinds.branch Kinds.beq) = refl
func3_of-get_func_a (Kinds.branch _) = refl
func3_of-get_func_a (Kinds.load Kinds.lb) = refl
func3_of-get_func_a (Kinds.load _) = refl
func3_of-get_func_a (Kinds.store Kinds.sb) = refl
func3_of-get_func_a (Kinds.store _) = refl
func3_of-get_func_a (Kinds.int_imm Kinds.addi) = refl
func3_of-get_func_a (Kinds.int_imm _) = refl
func3_of-get_func_a (Kinds.shift_imm Kinds.slli) = refl
func3_of-get_func_a (Kinds.shift_imm _) = refl
func3_of-get_func_a (Kinds.int_r Kinds.add_r) = refl
func3_of-get_func_a (Kinds.int_r _) = refl
func3_of-get_func_a (Kinds.misc_mem Kinds.fence) = refl
func3_of-get_func_a (Kinds.misc_mem _) = refl
func3_of-get_func_a (Kinds.csr Kinds.csrrw) = refl
func3_of-get_func_a (Kinds.csr _) = refl
func3_of-get_func_a (Kinds.math Kinds.mul) = refl
func3_of-get_func_a (Kinds.math _) = refl
func3_of-get_func_a _ = refl

func7_of-get_func_b : (h : Handler) → func7_of h ≡ asked 256 (get_func_b h)
unfolding get_func_b
func7_of-get_func_b Kinds.lui = refl
func7_of-get_func_b (Kinds.shift_imm Kinds.slli) = refl
func7_of-get_func_b (Kinds.shift_imm _) = refl
func7_of-get_func_b (Kinds.int_r Kinds.add_r) = refl
func7_of-get_func_b (Kinds.int_r _) = refl
func7_of-get_func_b _ = refl

Field-asked_iff : (any f x : ℕ) → Field (asked any f) x ↔ (f ≢ any → x ≡ f)
Field-asked_iff any f x = elim (Bool-cases (f == any)) [
  | inl e ↦ let same : f ≡ any = (==_iff f any).0 e in rw e (λ u ne. absurd (ne same), λ g. tt)
  | inr e ↦ rw e (λ y ne. y, λ g. g (λ same. ground (arith, same, e)))
]

-- A word has the fields of a handler class exactly when it is the instruction of the manual.
pub Matches-Encodes_iff : (h : Handler) (code : ℕ) → Matches h code ↔ Encodes h code
Matches-Encodes_iff h code =
    let a = Field-asked_iff 16 (get_func_a h) (code / 2 ^ 12 % 2 ^ 3) in
    let b = Field-asked_iff 256 (get_func_b h) (code / 2 ^ 25 % 2 ^ 7) in
    let at_a : Option ℕ → Type 0 = λ o. Field o (code / 2 ^ 12 % 2 ^ 3) in
    let at_b : Option ℕ → Type 0 = λ o. Field o (code / 2 ^ 25 % 2 ^ 7) in
    (
      λ x. record {
        opcode = sym (get_code_lem code) ∙ x.group ∙ opcode_of-get_group_id h;
        func3 =
            subst at_a (sym (func3_of-get_func_a h))
              (a.1 (λ ne. sym (get_func3_lem code) ∙ x.func_a ne));
        func7 =
            subst at_b (sym (func7_of-get_func_b h))
              (b.1 (λ ne. sym (get_func7_lem code) ∙ x.func_b ne));
      },
      λ x. record {
        group = get_code_lem code ∙ x.opcode ∙ sym (opcode_of-get_group_id h);
        func_a = λ ne. get_func3_lem code ∙ a.0 (subst at_a (func3_of-get_func_a h) x.func3) ne;
        func_b = λ ne. get_func7_lem code ∙ b.0 (subst at_b (func7_of-get_func_b h) x.func7) ne;
      },
    )

-- In the registry that init_isa fills, a word finds a handler exactly when it is the instruction that
-- the manual lists for it: its opcode and the function fields that the instruction has are those of
-- the word.
pub find_handler-Encodes_iff :
    (code : ℕ) (h : Handler) → (find_handler isa code ≡ some h) ↔ Encodes h code
find_handler-Encodes_iff code h =
    let f = find_handler-isa_iff code h in
    let e = Matches-Encodes_iff h code in (λ x. e.0 (f.0 x), λ x. f.1 (e.1 x))

module _ (h : Handler) (regs : ℕ → ℕ) (code : ℕ) where
  pub computed_by_lem :
      computed_by h regs code ≡ computed_with h regs code (get_rs1 code) (get_rs2 code)
  computed_by_lem =
      ap₂ (computed_with h regs code) (sym (get_rs1_lem code)) (sym (get_rs2_lem code))

  pub destination_by_lem :
      destination_by h regs code
      ≡ destination_with h regs code (get_rd code) (get_rs1 code) (get_rs2 code)
  destination_by_lem =
      ap (λ d. destination_with h regs code d (rs1 code) (rs2 code)) (sym (get_rd_lem code))
      ∙ ap₂ (destination_with h regs code (get_rd code)) (sym (get_rs1_lem code))
          (sym (get_rs2_lem code))

  pub access_by_lem : access_by h regs code ≡ access_with h regs code (get_rs1 code)
  access_by_lem = ap (access_with h regs code) (sym (get_rs1_lem code))
