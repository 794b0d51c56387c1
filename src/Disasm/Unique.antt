-- ===== src/Disasm/Unique.antt =====
-- The text of an instruction and its word: `mnemonic` and `disassemblyArgs` of the handlers.
use yeti_vm.Base.{ℕ, ◌^◌, ◌<◌, ◌≡◌, ◌≢◌, refl, sym, subst, ◌∙◌, Bool, true, false, List}
use yeti_vm.Base.Int.{pos}
use yeti_vm.Opcode.Decoder.{
  get_code, get_rd, get_rs1, get_rs2, get_func3, get_func7, decode_i, decode_s, decode_b, decode_u,
  decode_j,
}
use yeti_vm.Opcode.Fields.{get_rs2_lem}
use yeti_vm.Handler.Kinds
use yeti_vm.Handler.Kinds.{Handler, get_func_a, get_func_b, get_group_id}
use yeti_vm.Handler.Lookup.{Matches}
use yeti_vm.Handler.Rv32i.{signed, shift_amount}
use yeti_vm.Handler.Immediate.{shift_amount_lem}
use yeti_vm.Disasm.Numbers.{
  to_string, to_hex, to_string-injective, to_hex-injective, amount-injective,
}
use yeti_vm.Disasm.Alias.{get_register_alias, get_register_alias-injective}
use yeti_vm.Disasm.Mnemonic.{mnemonic, mnemonic-injective}
use yeti_vm.Disasm.Args.{after_one, after_two, disassembly_args}
use yeti_vm.Disasm.Operands.{after_one-injective, after_two-injective}
use yeti_vm.Disasm.Fields.{same_u, same_r, same_i, same_s, same_b, same_j}
use yeti_vm.Disasm.Bounds.{
  amount-lt, decode_b-lt, decode_i-lt, decode_j-lt, decode_s-lt, decode_u-lt, func_a-lt, has_func_a,
  int_r-func_b, math-func_b, rd-lt, rs1-lt, rs2-lt, shift-func_b,
}

-- Of a system instruction and of a fence the text does not show the whole word.
abbrev pub shows_word : Handler → Bool
shows_word Kinds.env_call = false
shows_word (Kinds.misc_mem k) = false
shows_word (Kinds.csr k) = false
shows_word _ = true

module _ (v w : ℕ) (v-lt : v < 2 ^ 32) (w-lt : w < 2 ^ 32) (h : Handler) (m : Matches h v)
    (n : Matches h w) where
  group : get_code v ≡ get_code w
  group = m.group ∙ sym n.group

  func3 : has_func_a h ≡ true → get_func3 v ≡ get_func3 w
  func3 t = m.func_a (func_a-lt h t) ∙ sym (n.func_a (func_a-lt h t))

  func7 : get_func_b h ≢ 256 → get_func7 v ≡ get_func7 w
  func7 t = m.func_b t ∙ sym (n.func_b t)

  one :
      (xs ys : List ℕ)
      → after_one (get_rd v) xs ≡ after_one (get_rd w) ys
      → (get_rd v ≡ get_rd w) × (xs ≡ ys)
  one xs ys e = after_one-injective (get_rd v) (get_rd w) xs ys (rd-lt v) (rd-lt w) e

  two :
      (xs ys : List ℕ)
      → after_two (get_rd v) (get_rs1 v) xs ≡ after_two (get_rd w) (get_rs1 w) ys
      → (get_rd v ≡ get_rd w) × (get_rs1 v ≡ get_rs1 w) × (xs ≡ ys)
  two xs ys e =
      after_two-injective (get_rd v) (get_rd w) (get_rs1 v) (get_rs1 w) xs ys (rd-lt v) (rd-lt w)
        (rs1-lt v) (rs1-lt w) e

  from_u :
      after_one (get_rd v) (to_hex (decode_u v)) ≡ after_one (get_rd w) (to_hex (decode_u w))
      → v ≡ w
  from_u e =
      let (rd, x) = one _ _ e in
      same_u v w v-lt w-lt group rd
        (to_hex-injective (decode_u v) (decode_u w) (decode_u-lt v v-lt) (decode_u-lt w w-lt) x)

  from_j :
      after_one (get_rd v) (to_string (signed (decode_j v)))
        ≡ after_one (get_rd w) (to_string (signed (decode_j w)))
      → v ≡ w
  from_j e =
      let (rd, x) = one _ _ e in
      same_j v w v-lt w-lt group rd
        (to_string-injective (decode_j v) (decode_j w) (decode_j-lt v) (decode_j-lt w) x)

  from_i :
      has_func_a h ≡ true
      → after_two (get_rd v) (get_rs1 v) (to_string (signed (decode_i v)))
        ≡ after_two (get_rd w) (get_rs1 w) (to_string (signed (decode_i w)))
      → v ≡ w
  from_i t e =
      let (rd, rs1, x) = two _ _ e in
      same_i v w v-lt w-lt group rd rs1 (func3 t)
        (to_string-injective (decode_i v) (decode_i w) (decode_i-lt v) (decode_i-lt w) x)

  from_i_hex :
      has_func_a h ≡ true
      → after_two (get_rd v) (get_rs1 v) (to_hex (decode_i v))
        ≡ after_two (get_rd w) (get_rs1 w) (to_hex (decode_i w))
      → v ≡ w
  from_i_hex t e =
      let (rd, rs1, x) = two _ _ e in
      same_i v w v-lt w-lt group rd rs1 (func3 t)
        (to_hex-injective (decode_i v) (decode_i w) (decode_i-lt v) (decode_i-lt w) x)

  from_r :
      has_func_a h ≡ true
      → get_func_b h ≢ 256
      → after_two (get_rd v) (get_rs1 v) (get_register_alias (get_rs2 v))
        ≡ after_two (get_rd w) (get_rs1 w) (get_register_alias (get_rs2 w))
      → v ≡ w
  from_r t u e =
      let (rd, rs1, x) = two _ _ e in
      same_r v w v-lt w-lt group rd rs1
        (get_register_alias-injective (get_rs2 v) (get_rs2 w) (rs2-lt v) (rs2-lt w) x) (func3 t)
        (func7 u)

  from_amount :
      has_func_a h ≡ true
      → get_func_b h ≢ 256
      → after_two (get_rd v) (get_rs1 v) (to_string (pos (shift_amount v)))
        ≡ after_two (get_rd w) (get_rs1 w) (to_string (pos (shift_amount w)))
      → v ≡ w
  from_amount t u e =
      let (rd, rs1, x) = two _ _ e in
      let y = amount-injective (shift_amount v) (shift_amount w) (amount-lt v) (amount-lt w) x in
      let rs2 : get_rs2 v ≡ get_rs2 w =
        get_rs2_lem v ∙ sym (shift_amount_lem v) ∙ y ∙ shift_amount_lem w ∙ sym (get_rs2_lem w) in
      same_r v w v-lt w-lt group rd rs1 rs2 (func3 t) (func7 u)

  from_b :
      has_func_a h ≡ true
      → after_two (get_rs1 v) (get_rs2 v) (to_string (signed (decode_b v)))
        ≡ after_two (get_rs1 w) (get_rs2 w) (to_string (signed (decode_b w)))
      → v ≡ w
  from_b t e =
      let (rs1, rs2, x) =
        after_two-injective (get_rs1 v) (get_rs1 w) (get_rs2 v) (get_rs2 w) _ _ (rs1-lt v)
          (rs1-lt w) (rs2-lt v) (rs2-lt w) e in
      same_b v w v-lt w-lt group rs1 rs2 (func3 t)
        (to_string-injective (decode_b v) (decode_b w) (decode_b-lt v) (decode_b-lt w) x)

  from_s :
      has_func_a h ≡ true
      → after_two (get_rs2 v) (get_rs1 v) (to_string (signed (decode_s v)))
        ≡ after_two (get_rs2 w) (get_rs1 w) (to_string (signed (decode_s w)))
      → v ≡ w
  from_s t e =
      let (rs2, rs1, x) =
        after_two-injective (get_rs2 v) (get_rs2 w) (get_rs1 v) (get_rs1 w) _ _ (rs2-lt v)
          (rs2-lt w) (rs1-lt v) (rs1-lt w) e in
      same_s v w v-lt w-lt group rs1 rs2 (func3 t)
        (to_string-injective (decode_s v) (decode_s w) (decode_s-lt v) (decode_s-lt w) x)

module _ (v w : ℕ) (v-lt : v < 2 ^ 32) (w-lt : w < 2 ^ 32) where
  args-injective :
      (h : Handler)
      → shows_word h ≡ true
      → Matches h v
      → Matches h w
      → disassembly_args h v ≡ disassembly_args h w
      → v ≡ w
  unfolding disassembly_args
  args-injective Kinds.lui t m n e = from_u v w v-lt w-lt _ m n e
  args-injective Kinds.auipc t m n e = from_u v w v-lt w-lt _ m n e
  args-injective Kinds.jal t m n e = from_j v w v-lt w-lt _ m n e
  args-injective Kinds.jalr t m n e = from_i v w v-lt w-lt Kinds.jalr m n refl e
  args-injective (Kinds.branch k) t m n e = from_b v w v-lt w-lt (Kinds.branch k) m n refl e
  args-injective (Kinds.load k) t m n e = from_i v w v-lt w-lt (Kinds.load k) m n refl e
  args-injective (Kinds.store k) t m n e = from_s v w v-lt w-lt (Kinds.store k) m n refl e
  args-injective (Kinds.int_imm Kinds.sltiu) t m n e =
      from_i_hex v w v-lt w-lt (Kinds.int_imm Kinds.sltiu) m n refl e
  args-injective (Kinds.int_imm _) t m n e = from_i v w v-lt w-lt _ m n refl e
  args-injective (Kinds.shift_imm k) t m n e =
      from_amount v w v-lt w-lt (Kinds.shift_imm k) m n refl (shift-func_b k) e
  args-injective (Kinds.int_r k) t m n e =
      from_r v w v-lt w-lt (Kinds.int_r k) m n refl (int_r-func_b k) e
  args-injective (Kinds.math k) t m n e =
      from_r v w v-lt w-lt (Kinds.math k) m n refl (math-func_b k) e
  args-injective _ t m n e = cc

  -- If two words match handlers of the two sets, the first neither a system instruction nor a
  -- fence, and their mnemonics and the texts of their arguments are the same, the words are the
  -- same.
  pub same_text :
      (h k : Handler)
      → Matches h v
      → Matches k w
      → shows_word h ≡ true
      → mnemonic h ≡ mnemonic k
      → disassembly_args h v ≡ disassembly_args k w
      → v ≡ w
  same_text h k m n t name args =
      let same : h ≡ k = mnemonic-injective h k name in
      args-injective h t m (subst (λ x. Matches x w) (sym same) n)
        (subst (λ x. disassembly_args h v ≡ disassembly_args x w) (sym same) args)
