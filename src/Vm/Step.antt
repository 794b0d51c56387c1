-- ===== src/Vm/Step.antt =====
-- The cycle of `basic_vm`: fetch, find the handler, execute, advance. Debug output is not modelled;
-- the registers that it prints are always in range. `current` points into memory, but every handler
-- reads the instruction before it writes, so the word is passed by value.
use yeti_vm.Base.{ℕ, zero, suc, Bool, true, false, Option, none, some, List}
use yeti_vm.Base.{if◌then◌else◌}
use yeti_vm.Base.Exec.{
  Exec, ok, pure, throw, gets, lift_option, ◌>>=◌, ◌>>◌, unknown_instruction, unknown_syscall,
  undefined_behaviour,
}
use yeti_vm.Syscall
use yeti_vm.Syscall.{SyscallFunctor}
use yeti_vm.Machine.{Machine}
use yeti_vm.Handler.Kinds.{skip}
use yeti_vm.Handler.Dispatch.{exec}
use yeti_vm.Handler.Registry.{find_handler}
use yeti_vm.Memory.Block.{get_ro}
use yeti_vm.Vm.State.{Vm}
use yeti_vm.Vm.Access

-- `syscall_registry::get_syscall_id` reads a7.
unfoldable pub get_syscall_id : Exec Vm ℕ
get_syscall_id = Access.get_register 17

-- A null block is dereferenced; a block that gives no pointer yields no instruction.
unfoldable pub get_current : Exec Vm ℕ
get_current = do
  pc ← Access.get_pc
  ptr ← Access.get_ptr pc 4
  block ← lift_option undefined_behaviour ptr
  bytes ← Access.lift_access unknown_instruction (get_ro block pc 4)
  pure (Access.of_bytes bytes)

-- The rest of `syscall`, once the map was asked.
unfoldable pub call_handler : Option (SyscallFunctor Vm) → Exec Vm (Unit {0})
call_handler none vm = if vm.syscall_throw_on_error then throw unknown_syscall vm else pure tt vm
call_handler (some handler) vm = handler.callback vm

module _ (syscalls : List (SyscallFunctor Vm)) where
  unfoldable pub syscall : Exec Vm (Unit {0})
  syscall = do id ← get_syscall_id; call_handler (Syscall.find_handler syscalls id)

  -- `basic_vm` as an implementation of the interface.
  abbrev pub basic_machine : Machine Vm
  basic_machine = record {
    halt = Access.halt;
    jump_abs = Access.jump_abs;
    jump_to = Access.jump_to;
    jump_if = Access.jump_if;
    jump_if_abs = Access.jump_if_abs;
    syscall = syscall;
    debug = Access.debug;
    control_get = Access.control_get;
    control_set = Access.control_set;
    barrier = Access.barrier;
    read_memory = Access.read_memory;
    write_memory = Access.write_memory;
    set_register = Access.set_register;
    get_register = Access.get_register;
    get_pc = Access.get_pc;
  }

  unfoldable pub run_step : Exec Vm (Unit {0})
  run_step = do
    current ← get_current
    vm ← gets (λ vm. vm)
    handler ← lift_option unknown_instruction (find_handler vm.opcodes current)
    exec basic_machine handler current
    if skip handler then pure tt else Access.inc_pc

  -- The loop of `run`; `false` means that the fuel ran out while the machine was running.
  unfoldable pub run : ℕ → Exec Vm Bool
  run zero vm = (ok (if vm.running then false else true), vm)
  run (suc fuel) vm =
      let rest = (run_step >>= λ _. run fuel) vm in if vm.running then rest else pure true vm
