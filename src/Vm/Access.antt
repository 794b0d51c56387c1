-- ===== src/Vm/Access.antt =====
-- The operations of `basic_vm` on registers, memory and the program counter.
use yeti_vm.Base.{ℕ, zero, suc, ◌+◌, ◌*◌, ◌/◌, ◌%◌, ◌^◌, Bool, ◌||◌, Option, List, [], ◌∷◌}
use yeti_vm.Base.{ltb, leb, ◌==◌, ◌!=◌, if◌then◌else◌}
use yeti_vm.Base.Int.{ℤ}
use yeti_vm.Base.Exec.{
  Exec, pure, throw, gets, modify, lift_option, ◌>>=◌, Error, data_access_error, code_access_error,
}
use yeti_vm.Base.Exec.{control_access_error, undefined_behaviour}
use yeti_vm.BitTools.{to_unsigned}
use yeti_vm.Memory.Block
use yeti_vm.Memory.Block.{Block, Access, done, refused, undefined}
use yeti_vm.Memory.Mmu.{find_block, replace_block}
use yeti_vm.Vm.State.{Vm, register_count, pc_index, write_register}

-- The bytes of a word in the order of a little-endian host, and back.
unfoldable pub to_bytes : ℕ → ℕ → List ℕ
to_bytes zero value = []
to_bytes (suc n) value = value % 256 ∷ to_bytes n (value / 256)

unfoldable pub of_bytes : List ℕ → ℕ
of_bytes [] = 0
of_bytes (b ∷ bs) = b + of_bytes bs * 256

-- A variable whose first `size` bytes in memory are overwritten.
unfoldable pub overlay : ℕ → ℕ → List ℕ → ℕ
overlay value size bytes = value / 2 ^ (8 * size) * 2 ^ (8 * size) + of_bytes bytes

abbrev pub lift_access : {A : Type 0} → Error → Access A → Exec Vm A
lift_access e (done a) = pure a
lift_access e refused = throw e
lift_access e undefined = throw undefined_behaviour

unfoldable pub set_register : ℕ → ℕ → Exec Vm (Unit {0})
set_register r value =
    if leb register_count r
    then throw data_access_error
    else if ltb 0 r
    then modify (λ vm. record vm { registers = write_register vm.registers r value })
    else pure tt

unfoldable pub get_register : ℕ → Exec Vm ℕ
get_register r =
    if leb register_count r
    then throw data_access_error
    else if ltb 0 r
    then gets (λ vm. vm.registers r)
    else pure 0

unfoldable pub get_pc : Exec Vm ℕ
get_pc = gets (λ vm. vm.registers pc_index)

unfoldable pub set_pc : ℕ → Exec Vm (Unit {0})
set_pc value = do
  vm ← gets (λ vm. vm)
  _ ← lift_option code_access_error (find_block vm.mmu value 4)
  modify (λ vm. record vm { registers = write_register vm.registers pc_index value })

unfoldable pub inc_pc : Exec Vm (Unit {0})
inc_pc = do pc ← get_pc; set_pc ((pc + 4) % 2 ^ 32)

unfoldable pub halt : Exec Vm (Unit {0})
halt = modify (λ vm. record vm { running = Bool.false })

unfoldable pub jump_abs : ℕ → Exec Vm (Unit {0})
jump_abs dest = if dest % 4 != 0 then throw code_access_error else set_pc dest

unfoldable pub jump_to : ℤ → Exec Vm (Unit {0})
jump_to value = do pc ← get_pc; jump_abs ((pc + to_unsigned 32 value) % 2 ^ 32)

unfoldable pub jump_if : Bool → ℤ → Exec Vm (Unit {0})
jump_if condition value = if condition then jump_to value else inc_pc

unfoldable pub jump_if_abs : Bool → ℕ → Exec Vm (Unit {0})
jump_if_abs condition value = if condition then jump_abs value else inc_pc

-- `debug` and `barrier` do nothing here, and there are no control registers.
abbrev pub debug : Exec Vm (Unit {0})
debug = pure tt

abbrev pub barrier : Exec Vm (Unit {0})
barrier = pure tt

abbrev pub control_get : ℕ → Exec Vm ℕ
control_get csr_id = throw control_access_error

abbrev pub control_set : ℕ → ℕ → Exec Vm (Unit {0})
control_set csr_id value = throw control_access_error

-- `get_ptr_ro` and `get_ptr_rw`, which are alike; `address % 0` is undefined.
unfoldable pub get_ptr : ℕ → ℕ → Exec Vm (Option Block)
get_ptr address size =
    if size == 0
    then throw undefined_behaviour
    else if address % size != 0
    then throw data_access_error
    else gets (λ vm. find_block vm.mmu address size)

unfoldable pub read_memory : ℕ → ℕ → ℕ → Exec Vm ℕ
read_memory from size value = do
  ptr ← get_ptr from size
  block ← lift_option data_access_error ptr
  bytes ←
      if ltb 4 size
      then throw data_access_error
      else lift_access data_access_error (Block.load block from size)
  pure (overlay value size bytes)

unfoldable pub write_memory : ℕ → ℕ → ℕ → Exec Vm (Unit {0})
write_memory from size value = if size == 0 || ltb 4 size then throw data_access_error else do
  ptr ← get_ptr from size
  block ← lift_option data_access_error ptr
  block' ← lift_access data_access_error (Block.store block from (to_bytes size value))
  modify (λ vm. record vm { mmu = replace_block vm.mmu block' })
