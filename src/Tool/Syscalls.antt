-- ===== src/Tool/Syscalls.antt =====
-- `init_syscalls` of tools/yeti_main.cxx. The callbacks get the machine they are called on.
use yeti_vm.Base.{ℕ, zero, suc, ◌+◌, ◌*◌, ◌%◌, ◌^◌, Bool, true, false, List}
use yeti_vm.Base.{ltb, if◌then◌else◌}
use yeti_vm.Base.Exec.{Exec, pure, ◌>>=◌, ◌>>◌}
use yeti_vm.Syscall.{SyscallFunctor, register_handler}
use yeti_vm.Vm.State.{Vm}
use yeti_vm.Vm.Access.{get_register, set_register, write_memory, halt}

-- `vm::a0` to `vm::a2`
abbrev pub a0 : ℕ
a0 = 10

abbrev pub a1 : ℕ
a1 = 11

abbrev pub a2 : ℕ
a2 = 12

unfoldable pub open_callback : Exec Vm (Unit {0})
open_callback = do name_ptr ← get_register a0; flags ← get_register a1; set_register a0 0

-- The loop of `read`; `false` means that the fuel ran out.
unfoldable pub fill : ℕ → ℕ → ℕ → ℕ → Exec Vm Bool
fill zero buff_ptr buff_sz i = pure false
fill (suc fuel) buff_ptr buff_sz i =
    if ltb i buff_sz
    then (do
      write_memory ((buff_ptr + i) % 2 ^ 32) 4 (i * i % 2 ^ 32)
      fill fuel buff_ptr buff_sz ((i + 4) % 2 ^ 32))
    else pure true

-- The loop takes at most as many turns as there are words.
abbrev pub fill_fuel : ℕ
fill_fuel = 2 ^ 30

unfoldable pub read_callback : Exec Vm (Unit {0})
read_callback = do
  file_id ← get_register a0
  buff_ptr ← get_register a1
  buff_sz ← get_register a2
  finished ← fill fill_fuel buff_ptr buff_sz 0
  set_register a0 0

unfoldable pub close_callback : Exec Vm (Unit {0})
close_callback = do file_id ← get_register a0; set_register a0 0

unfoldable pub put_char_callback : Exec Vm (Unit {0})
put_char_callback = do value ← get_register a0; set_register a0 0

unfoldable pub put_int_callback : Exec Vm (Unit {0})
put_int_callback = do value ← get_register a0; set_register a0 0

unfoldable pub exit_callback : Exec Vm (Unit {0})
exit_callback = do halt; set_register a0 0

unfoldable pub init_syscalls : Exec (List (SyscallFunctor Vm)) Bool
init_syscalls = do
  opened ← register_handler (record { id = 1024; name = "open"; callback = open_callback })
  read ← register_handler (record { id = 63; name = "read"; callback = read_callback })
  closed ← register_handler (record { id = 57; name = "close"; callback = close_callback })
  char ← register_handler (record { id = 11; name = "put_char"; callback = put_char_callback })
  int ← register_handler (record { id = 1; name = "put_int"; callback = put_int_callback })
  register_handler (record { id = 10; name = "exit"; callback = exit_callback })
