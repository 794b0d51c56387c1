-- ===== src/Vm/State.antt =====
-- The fields of `basic_vm`. The system calls are no field here: they act on the machine, and no
-- operation of the machine changes them, so they are a parameter of what calls them.
use yeti_vm.Base.{ℕ, ◌*◌, Bool, true, false, []}
use yeti_vm.Base.{◌==◌, if◌then◌else◌}
use yeti_vm.Handler.Registry.{HandlerRegistry, empty_registry}
use yeti_vm.Memory.Mmu.{Mmu}

-- `registers` holds the general registers at 0 to 31 and the program counter at 32.
pub record Vm : Type 0 where
  pub init_flags : ℕ
  pub opcodes : HandlerRegistry
  pub mmu : Mmu
  pub registers : ℕ → ℕ
  pub ro_size : ℕ
  pub rw_size : ℕ
  pub code_base : ℕ
  pub data_base : ℕ
  pub initial_pc : ℕ
  pub running : Bool
  pub debugging : Bool
  pub syscall_throw_on_error : Bool

abbrev pub register_count : ℕ
register_count = 32

-- `RegAlias::pc`
abbrev pub pc_index : ℕ
pc_index = register_count

abbrev pub def_code_base : ℕ
def_code_base = 0

abbrev pub def_data_base : ℕ
def_data_base = 4 * 1024 * 1024

abbrev pub def_code_size : ℕ
def_code_size = 4 * 1024 * 1024

abbrev pub def_data_size : ℕ
def_data_size = 4 * 1024 * 1024

-- A machine as its constructor leaves it.
abbrev pub new_vm : Vm
new_vm = record {
  init_flags = 0;
  opcodes = empty_registry;
  mmu = [];
  registers = λ _. 0;
  ro_size = def_code_size;
  rw_size = def_data_size;
  code_base = def_code_base;
  data_base = def_data_base;
  initial_pc = 0;
  running = false;
  debugging = false;
  syscall_throw_on_error = true;
}

-- `registers[r] = value`
abbrev pub write_register : (ℕ → ℕ) → ℕ → ℕ → ℕ → ℕ
write_register registers r value i = if i == r then value else registers i
