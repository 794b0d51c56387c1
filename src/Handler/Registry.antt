-- ===== src/Handler/Registry.antt =====
-- `InstructionId` and `HandlerRegistry` of vm_handler.hxx and vm_handler.cxx, and the two sets of
-- handlers that are registered. The registry's hash tables are lists; nothing reads their order.
use yeti_vm.Base.{
  ℕ, ◌*◌, ◌%◌, ◌^◌, bit_or, Bool, true, false, ◌||◌, Option, none, some, List, [], ◌∷◌, ◌++◌,
}
use yeti_vm.Base.{◌==◌, ◌!=◌, if◌then◌else◌}
use yeti_vm.Opcode.Decoder.{get_code, get_func3, get_func7}
use yeti_vm.Handler.Kinds
use yeti_vm.Handler.Kinds.{Handler}

-- The `id` that the maps compare and hash.
abbrev pub instruction_id : ℕ → ℕ → ℕ → ℕ
instruction_id group func_a func_b =
    bit_or (bit_or group (func_a * 2 ^ 8 % 2 ^ 32)) (func_b * 2 ^ 16 % 2 ^ 32)

pub record HandlerRegistry : Type 0 where
  pub handlers : List (ℕ × Handler)
  pub func_a : List ℕ
  pub func_b : List ℕ

abbrev pub empty_registry : HandlerRegistry
empty_registry = record { handlers = []; func_a = []; func_b = [] }

unfoldable pub contains : List ℕ → ℕ → Bool
contains [] x = false
contains (y ∷ ys) x = x == y || contains ys x

-- `std::unordered_set::insert`
unfoldable pub insert : ℕ → List ℕ → List ℕ
insert x xs = if contains xs x then xs else x ∷ xs

unfoldable pub find : ℕ → List (ℕ × Handler) → Option Handler
find id [] = none
find id ((key, h) ∷ rest) = if id == key then some h else find id rest

abbrev pub get_id : Handler → ℕ
get_id h = instruction_id (Kinds.get_group_id h) (Kinds.get_func_a h) (Kinds.get_func_b h)

-- What `register_handler` does once the map was asked for the id.
unfoldable pub add_handler : Handler → HandlerRegistry → Option Handler → HandlerRegistry × Bool
add_handler h r (some _) = (r, false)
add_handler h r none = (
  record {
    handlers = (get_id h, h) ∷ r.handlers;
    func_a =
        if Kinds.get_func_a h != Kinds.no_func_a
        then insert (Kinds.get_group_id h) r.func_a
        else r.func_a;
    func_b =
        if Kinds.get_func_b h != Kinds.no_func_b
        then insert (bit_or (Kinds.get_group_id h) (Kinds.get_func_a h * 2 ^ 8 % 2 ^ 32)) r.func_b
        else r.func_b;
  },
  true,
)

-- `false` if the id is registered already.
unfoldable pub register_handler : Handler → HandlerRegistry → HandlerRegistry × Bool
register_handler h r = add_handler h r (find (get_id h) r.handlers)

-- The map is asked for the id that the fields make; a function id counts where a handler of the
-- group, or of the group and the first function, was registered with one.
unfoldable pub find_fields : HandlerRegistry → ℕ → ℕ → ℕ → Option Handler
find_fields r op func3 func7 =
    let func_a = if contains r.func_a op then func3 else Kinds.no_func_a in
    let func_b =
      if contains r.func_b (bit_or op (func3 * 2 ^ 8 % 2 ^ 32)) then func7 else Kinds.no_func_b in
    find (instruction_id op func_a func_b) r.handlers

unfoldable pub find_handler : HandlerRegistry → ℕ → Option Handler
find_handler r code = find_fields r (get_code code) (get_func3 code) (get_func7 code)

-- `ok = ok && r->register_handler<H>()`, down a list of classes.
unfoldable pub register_all : List Handler → HandlerRegistry × Bool → HandlerRegistry × Bool
register_all [] state = state
register_all (h ∷ hs) (r, ok) = register_all hs (if ok then register_handler h r else (r, false))

abbrev pub branch_set : List Handler
branch_set =
    Kinds.branch Kinds.beq
    ∷ Kinds.branch Kinds.bne
    ∷ Kinds.branch Kinds.blt
    ∷ Kinds.branch Kinds.bge
    ∷ Kinds.branch Kinds.bltu
    ∷ Kinds.branch Kinds.bgeu
    ∷ []

abbrev pub load_set : List Handler
load_set =
    Kinds.load Kinds.lb
    ∷ Kinds.load Kinds.lh
    ∷ Kinds.load Kinds.lw
    ∷ Kinds.load Kinds.lbu
    ∷ Kinds.load Kinds.lhu
    ∷ []

abbrev pub store_set : List Handler
store_set = Kinds.store Kinds.sb ∷ Kinds.store Kinds.sh ∷ Kinds.store Kinds.sw ∷ []

abbrev pub int_imm_set : List Handler
int_imm_set =
    Kinds.int_imm Kinds.addi
    ∷ Kinds.int_imm Kinds.slti
    ∷ Kinds.int_imm Kinds.sltiu
    ∷ Kinds.int_imm Kinds.xori
    ∷ Kinds.int_imm Kinds.ori
    ∷ Kinds.int_imm Kinds.andi
    ∷ []

abbrev pub shift_imm_set : List Handler
shift_imm_set =
    Kinds.shift_imm Kinds.slli ∷ Kinds.shift_imm Kinds.srli ∷ Kinds.shift_imm Kinds.srai ∷ []

abbrev pub int_set : List Handler
int_set =
    Kinds.int_r Kinds.add_r
    ∷ Kinds.int_r Kinds.sub_r
    ∷ Kinds.int_r Kinds.sll_r
    ∷ Kinds.int_r Kinds.slt_r
    ∷ Kinds.int_r Kinds.sltu_r
    ∷ Kinds.int_r Kinds.xor_r
    ∷ Kinds.int_r Kinds.srl_r
    ∷ Kinds.int_r Kinds.sra_r
    ∷ Kinds.int_r Kinds.or_r
    ∷ Kinds.int_r Kinds.and_r
    ∷ []

abbrev pub misc_set : List Handler
misc_set = Kinds.misc_mem Kinds.fence ∷ Kinds.misc_mem Kinds.fence_i ∷ []

abbrev pub system_set : List Handler
system_set =
    Kinds.env_call
    ∷ Kinds.csr Kinds.csrrw
    ∷ Kinds.csr Kinds.csrrs
    ∷ Kinds.csr Kinds.csrrc
    ∷ Kinds.csr Kinds.csrrwi
    ∷ Kinds.csr Kinds.csrrsi
    ∷ Kinds.csr Kinds.csrrci
    ∷ []

abbrev pub rv32i_set : List Handler
rv32i_set =
    branch_set
    ++ (load_set
        ++ (store_set
            ++ (int_imm_set
                ++ (shift_imm_set
                    ++ (int_set
                        ++ (misc_set
                            ++ (system_set
                                ++ Kinds.lui ∷ Kinds.auipc ∷ Kinds.jal ∷ Kinds.jalr ∷ [])))))))

abbrev pub rv32m_set : List Handler
rv32m_set =
    Kinds.math Kinds.mul
    ∷ Kinds.math Kinds.mulh
    ∷ Kinds.math Kinds.mulhsu
    ∷ Kinds.math Kinds.mulhu
    ∷ Kinds.math Kinds.div
    ∷ Kinds.math Kinds.divu
    ∷ Kinds.math Kinds.rem
    ∷ Kinds.math Kinds.remu
    ∷ []

unfoldable pub register_rv32i_set : HandlerRegistry → HandlerRegistry × Bool
register_rv32i_set r = register_all rv32i_set (r, true)

unfoldable pub register_rv32m_set : HandlerRegistry → HandlerRegistry × Bool
register_rv32m_set r = register_all rv32m_set (r, true)
