-- ===== src/Handler/Sound.antt =====
-- The handler that `find_handler` of vm_handler.cxx finds, and the fields of the word.
use yeti_vm.Base.{
  ℕ, ◌+◌, ◌*◌, ◌%◌, ◌^◌, ◌<◌, ◌≤◌, ◌≡◌, ◌≢◌, ◌↔◌, refl, subst, arith, sym, bit_or, Bool, true,
  false, Option, none, some, List, [], ◌∷◌, All,
}
use yeti_vm.Base.{if◌then◌else◌}
use yeti_vm.BitTools.Fields.{bit_or_below}
use yeti_vm.Opcode.Decoder.{get_code, get_func3, get_func7}
use yeti_vm.Opcode.Fields.{get_code_lem, get_func3_lem, get_func7_lem}
use yeti_vm.Handler.Kinds
use yeti_vm.Handler.Kinds.{Handler, get_group_id, get_func_a, get_func_b}
use yeti_vm.Handler.Registry.{
  HandlerRegistry, empty_registry, instruction_id, register_handler, add_handler, register_all,
  register_rv32i_set, register_rv32m_set, rv32i_set, rv32m_set, find_handler, find_fields, find,
  contains,
}
use yeti_vm.Handler.Lookup.{Matches, isa, table, expected_a, expected_b}

-- Every handler stands under its own id.
abbrev pub IsKeyed : List (ℕ × Handler) → Type 0
IsKeyed = All (λ e. e.0 ≡ instruction_id (get_group_id e.1) (get_func_a e.1) (get_func_b e.1))

abbrev id_of : Handler → ℕ
id_of h = instruction_id (get_group_id h) (get_func_a h) (get_func_b h)

add_handler-IsKeyed :
    (h : Handler) (r : HandlerRegistry) (o : Option Handler)
    → IsKeyed r.handlers
    → IsKeyed (add_handler h r o).0.handlers
unfolding add_handler
add_handler-IsKeyed h r (some _) k = k
add_handler-IsKeyed h r none k = (refl, k)

register_handler-IsKeyed :
    (h : Handler) (r : HandlerRegistry)
    → IsKeyed r.handlers
    → IsKeyed (register_handler h r).0.handlers
unfolding register_handler
register_handler-IsKeyed h r k = add_handler-IsKeyed h r (find (id_of h) r.handlers) k

register_all-IsKeyed :
    (hs : List Handler) (r : HandlerRegistry) (ok : Bool)
    → IsKeyed r.handlers
    → IsKeyed (register_all hs (r, ok)).0.handlers
unfolding register_all
register_all-IsKeyed [] r ok k = k
register_all-IsKeyed (h ∷ hs) r true k =
    register_all-IsKeyed hs (register_handler h r).0 (register_handler h r).1
      (register_handler-IsKeyed h r k)
register_all-IsKeyed (h ∷ hs) r false k = register_all-IsKeyed hs r false k

find-key :
    (id : ℕ) (l : List (ℕ × Handler)) (h : Handler) → IsKeyed l → find id l ≡ some h → id ≡ id_of h
unfolding find
find-key id [] h k e = cc
find-key id ((key, g) ∷ rest) h k e = ground (arith, find-key id rest h)

-- The three parts of an id.
instruction_id_lem :
    (group a b : ℕ)
    → group < 2 ^ 7
    → a ≤ 16
    → instruction_id group a b ≡ b * 2 ^ 16 % 2 ^ 32 + a * 2 ^ 8 + group
instruction_id_lem group a b hg ha =
    ground (arith, bit_or_below 8 a group, bit_or_below 16 (b % 2 ^ 16) (a * 2 ^ 8 + group))

group-lt : (h : Handler) → get_group_id h < 2 ^ 7
unfolding get_group_id
group-lt Kinds.lui = omega arith
group-lt _ = omega arith

func_a-le : (h : Handler) → get_func_a h ≤ 16
unfolding get_func_a
func_a-le Kinds.lui = omega arith
func_a-le (Kinds.branch Kinds.beq) = omega arith
func_a-le (Kinds.branch _) = omega arith
func_a-le (Kinds.load Kinds.lb) = omega arith
func_a-le (Kinds.load _) = omega arith
func_a-le (Kinds.store Kinds.sb) = omega arith
func_a-le (Kinds.store _) = omega arith
func_a-le (Kinds.int_imm Kinds.addi) = omega arith
func_a-le (Kinds.int_imm _) = omega arith
func_a-le (Kinds.shift_imm Kinds.slli) = omega arith
func_a-le (Kinds.shift_imm _) = omega arith
func_a-le (Kinds.int_r Kinds.add_r) = omega arith
func_a-le (Kinds.int_r _) = omega arith
func_a-le (Kinds.misc_mem Kinds.fence) = omega arith
func_a-le (Kinds.misc_mem _) = omega arith
func_a-le (Kinds.csr Kinds.csrrw) = omega arith
func_a-le (Kinds.csr _) = omega arith
func_a-le (Kinds.math Kinds.mul) = omega arith
func_a-le (Kinds.math _) = omega arith
func_a-le _ = omega arith

func_b-le : (h : Handler) → get_func_b h ≤ 256
unfolding get_func_b
func_b-le (Kinds.shift_imm Kinds.slli) = omega arith
func_b-le (Kinds.shift_imm _) = omega arith
func_b-le (Kinds.int_r Kinds.add_r) = omega arith
func_b-le (Kinds.int_r _) = omega arith
func_b-le _ = omega arith

-- A handler that a registry finds for a word is one whose fields the word has.
pub find_handler-Matches :
    (r : HandlerRegistry) (code : ℕ) (h : Handler)
    → IsKeyed r.handlers
    → find_handler r code ≡ some h
    → Matches h code
unfolding find_handler find_fields
find_handler-Matches r code h k e =
    let op = get_code code in
    let func3 = get_func3 code in
    let func7 = get_func7 code in
    let a = if contains r.func_a op then func3 else 16 in
    let b = if contains r.func_b (bit_or op (func3 * 2 ^ 8 % 2 ^ 32)) then func7 else 256 in
    let key : instruction_id op a b ≡ id_of h = find-key (instruction_id op a b) r.handlers h k e in
    let a-le : a ≤ 16 = ground (arith, get_func3_lem code) in
    let b-le : b ≤ 256 = ground (arith, get_func7_lem code) in
    let parts : (op ≡ get_group_id h) × (a ≡ get_func_a h) × (b ≡ get_func_b h) = omega (
      arith,
      key,
      get_code_lem code,
      a-le,
      b-le,
      func_a-le h,
      func_b-le h,
      group-lt h,
      instruction_id_lem op a b (omega (arith, get_code_lem code)) a-le,
      instruction_id_lem (get_group_id h) (get_func_a h) (get_func_b h) (group-lt h) (func_a-le h),
    ) in
    record {
      group = parts.0;
      func_a = λ ne. ground (arith, parts.1, ne);
      func_b = λ ne. ground (arith, parts.2, ne);
    }

isa-IsKeyed : IsKeyed isa.handlers
unfolding register_rv32i_set register_rv32m_set
isa-IsKeyed =
    register_all-IsKeyed rv32m_set (register_rv32i_set empty_registry).0 true
      (register_all-IsKeyed rv32i_set empty_registry true tt)

expected_a_lem :
    (h : Handler) (any : ℕ) → (get_func_a h ≢ 16 → any ≡ get_func_a h) → expected_a h any ≡ any
expected_a_lem h any m = ground (arith, m)

expected_b_lem :
    (h : Handler) (any : ℕ) → (get_func_b h ≢ 256 → any ≡ get_func_b h) → expected_b h any ≡ any
expected_b_lem h any m = ground (arith, m)

found : (code : ℕ) (h : Handler) → Matches h code → find_handler isa code ≡ some h
unfolding find_handler
found code h m =
    let a = expected_a_lem h (get_func3 code) m.func_a in
    let b = expected_b_lem h (get_func7 code) m.func_b in
    let t = table h (get_func3 code) (get_func7 code) (ground (arith, get_func3_lem code)) in
    subst (λ g. find_fields isa g (get_func3 code) (get_func7 code) ≡ some h) (sym m.group)
      (subst (λ x. find_fields isa (get_group_id h) x (get_func7 code) ≡ some h) a
        (subst (λ y. find_fields isa (get_group_id h) (expected_a h (get_func3 code)) y ≡ some h) b
          t))

-- After `init_isa` a handler is found for a word exactly when the word has its fields.
pub find_handler-isa_iff :
    (code : ℕ) (h : Handler) → (find_handler isa code ≡ some h) ↔ Matches h code
find_handler-isa_iff code h = (find_handler-Matches isa code h isa-IsKeyed, found code h)
