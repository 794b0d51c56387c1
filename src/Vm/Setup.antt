-- ===== src/Vm/Setup.antt =====
-- How `basic_vm` is made ready: flags, sizes, memory, the instruction set, the program, `start`.
use yeti_vm.Base.{ℕ, ◌%◌, ◌^◌, ◌-◌, bit_and, bit_or, Bool, true, false, ◌&&◌, none, some, List}
use yeti_vm.Base.{◌==◌, ◌!=◌, if◌then◌else◌, length}
use yeti_vm.Base.Exec.{Exec, Result, ok, err, ◌>>=◌, ◌>>◌, modify, gets, undefined_behaviour}
use yeti_vm.Handler.Registry.{register_rv32i_set, register_rv32m_set}
use yeti_vm.Memory.Block
use yeti_vm.Memory.Block.{Block, Access, done, refused, undefined}
use yeti_vm.Memory.Mmu.{add_block, find_block, replace_block}
use yeti_vm.Vm.State.{Vm, def_code_size, def_data_size}
use yeti_vm.Vm.Access.{set_pc}

-- `InitFlag`
abbrev pub have_code_flag : ℕ
have_code_flag = 1

abbrev pub have_data_flag : ℕ
have_data_flag = 2

abbrev pub isa_initialized : ℕ
isa_initialized = 4

abbrev pub pc_initialized : ℕ
pc_initialized = 8

abbrev pub all_flags_mask : ℕ
all_flags_mask = 15

unfoldable pub is_flag_set : ℕ → Vm → Bool
is_flag_set flag vm = bit_and vm.init_flags flag != 0

unfoldable pub have_code_block : Vm → Bool
have_code_block vm = is_flag_set have_code_flag vm

unfoldable pub have_data_block : Vm → Bool
have_data_block vm = is_flag_set have_data_flag vm

unfoldable pub set_flag : ℕ → Vm → Vm
set_flag flag vm = record vm { init_flags = bit_or vm.init_flags flag }

-- Without its flag: `initFlags &= ~flag` on 8 bits.
unfoldable pub clear_flag : ℕ → Vm → Vm
clear_flag flag vm = record vm { init_flags = bit_and vm.init_flags (255 - flag) }

unfoldable pub is_initialized : Vm → Bool
is_initialized vm = vm.init_flags == all_flags_mask

unfoldable pub set_ro_size : ℕ → Vm → Vm × Bool
set_ro_size size vm =
    if is_flag_set have_code_flag vm then (vm, false) else (record vm { ro_size = size }, true)

unfoldable pub set_rw_size : ℕ → Vm → Vm × Bool
set_rw_size size vm =
    if is_flag_set have_data_flag vm then (vm, false) else (record vm { rw_size = size }, true)

unfoldable pub set_ro_base : ℕ → Vm → Vm × Bool
set_ro_base base vm =
    if is_flag_set have_code_flag vm then (vm, false) else (record vm { code_base = base }, true)

unfoldable pub set_rw_base : ℕ → Vm → Vm × Bool
set_rw_base base vm =
    if is_flag_set have_data_flag vm then (vm, false) else (record vm { data_base = base }, true)

-- `add_memory(address, size)`: the size is a `size_t`, the block's constructor takes 32 bits of it.
unfoldable pub add_memory : ℕ → ℕ → Vm → Vm × Bool
add_memory address size vm =
    let (mmu, added) = add_block vm.mmu (Block.generic_memory address (size % 2 ^ 32)) in
    (record vm { mmu = mmu }, added)

unfoldable pub add_code_block : ℕ → ℕ → Vm → Vm × Bool
add_code_block address size vm =
    if is_flag_set have_code_flag vm
    then (vm, false)
    else (let (vm', added) = add_memory address size vm in
        if added then (set_flag have_code_flag vm', true) else (vm', false))

unfoldable pub add_data_block : ℕ → ℕ → Vm → Vm × Bool
add_data_block address size vm =
    if is_flag_set have_data_flag vm
    then (vm, false)
    else (let (vm', added) = add_memory address size vm in
        if added then (set_flag have_data_flag vm', true) else (vm', false))

-- Both sizes are set and both blocks are added whatever came before; only the result is combined.
unfoldable pub init_memory_sizes : ℕ → ℕ → Vm → Vm × Bool
init_memory_sizes code_size data_size vm =
    let (vm₁, ro_ok) = set_ro_size code_size vm in
    let (vm₂, rw_ok) = set_rw_size data_size vm₁ in
    let (vm₃, code_ok) = add_code_block vm₂.code_base vm₂.ro_size vm₂ in
    let (vm₄, data_ok) = add_data_block vm₃.data_base vm₃.rw_size vm₃ in
    (vm₄, ro_ok && rw_ok && code_ok && data_ok)

unfoldable pub init_memory : Vm → Vm × Bool
init_memory = init_memory_sizes def_code_size def_data_size

unfoldable pub init_isa : Vm → Vm × Bool
init_isa vm =
    let (r, rv32i_ok) = register_rv32i_set vm.opcodes in
    let (r', rv32m_ok) = register_rv32m_set r in
    let vm' : Vm = record vm { opcodes = r' } in
    if rv32i_ok && rv32m_ok then (set_flag isa_initialized vm', true) else (vm', false)

unfoldable pub init_pc : ℕ → Vm → Vm × Bool
init_pc address vm =
    if is_flag_set pc_initialized vm
    then (vm, false)
    else (set_flag pc_initialized (record vm { initial_pc = address }), true)

-- The result of a store through a pointer, in the machine.
abbrev pub stored : Vm → Access Block → Result Bool × Vm
stored vm (done block) = (ok true, record vm { mmu = replace_block vm.mmu block })
stored vm refused = (ok false, vm)
stored vm undefined = (err undefined_behaviour, vm)

-- `set_program(bin, pc_value)`, for a program below 4 GiB, whose size fits the 32 bits it is cut to.
unfoldable pub set_program : List ℕ → ℕ → Exec Vm Bool
set_program bin pc_value vm =
    if is_flag_set have_code_flag vm
    then (let (vm', ok_pc) = init_pc pc_value vm in
        if ok_pc
        then elim (find_block vm'.mmu vm'.code_base (length bin)) [
          | none ↦ (ok false, vm')
          | some code ↦ stored vm' (Block.store code vm'.code_base bin)
        ]
        else (ok false, vm'))
    else (ok false, vm)

unfoldable pub start : Exec Vm (Unit {0})
start = do
  modify (λ vm. record vm { registers = λ _. 0 })
  vm ← gets (λ vm. vm)
  set_pc vm.initial_pc
  modify (λ vm. record vm { running = is_initialized vm })

unfoldable pub is_running : Vm → Bool
is_running vm = vm.running

unfoldable pub is_debugging_enabled : Vm → Bool
is_debugging_enabled vm = vm.debugging

unfoldable pub enable_debugging : Bool → Vm → Vm
enable_debugging enable vm = record vm { debugging = enable }

unfoldable pub syscall_should_throw : Bool → Vm → Vm
syscall_should_throw enable vm = record vm { syscall_throw_on_error = enable }
