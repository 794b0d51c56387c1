-- ===== src/Tool/Safety.antt =====
-- What the system calls of tools/yeti_main.cxx leave of the machine.
use yeti_vm.Base.{
  ℕ, zero, suc, ◌+◌, ◌*◌, ◌%◌, ◌^◌, ◌≡◌, refl, subst, Bool, true, false, Option, none, some, List,
  [], ◌∷◌,
}
use yeti_vm.Base.{ltb, ◌==◌, if◌then◌else◌}
use yeti_vm.Base.Exec.{ok}
use yeti_vm.Base.Keeps.{Keeps, bind-Keeps, if-Keeps, pure-Keeps}
use yeti_vm.Syscall.{SyscallFunctor, find_handler, register_handler}
use yeti_vm.Vm.State.{Vm}
use yeti_vm.Vm.Access.{write_memory}
use yeti_vm.Vm.Invariant.{IsVm, write_memory-IsVm}
use yeti_vm.Vm.Safety.{get_register-Keeps, set_register-Keeps, halt-Keeps}
use yeti_vm.Tool.Syscalls.{
  fill, fill_fuel, open_callback, read_callback, close_callback, put_char_callback,
  put_int_callback, exit_callback, init_syscalls, a0, a1, a2,
}

write_memory-Keeps : (a n v : ℕ) → Keeps IsVm (write_memory a n v)
write_memory-Keeps a n v = record { at = write_memory-IsVm a n v }

fill-Keeps : (fuel ptr sz i : ℕ) → Keeps IsVm (fill fuel ptr sz i)
unfolding fill
fill-Keeps zero ptr sz i = pure-Keeps IsVm false
fill-Keeps (suc fuel) ptr sz i =
    if-Keeps IsVm (ltb i sz) _ _
      (bind-Keeps IsVm _ _ (write_memory-Keeps ((ptr + i) % 2 ^ 32) 4 (i * i % 2 ^ 32))
        (λ _. fill-Keeps fuel ptr sz ((i + 4) % 2 ^ 32)))
      (pure-Keeps IsVm true)

return-Keeps : Keeps IsVm (λ vm. (ok tt, vm))
return-Keeps = pure-Keeps IsVm tt

open-Keeps : Keeps IsVm open_callback
unfolding open_callback
open-Keeps =
    bind-Keeps IsVm _ _ (get_register-Keeps a0)
      (λ _. bind-Keeps IsVm _ _ (get_register-Keeps a1) (λ _. set_register-Keeps a0 0))

read-Keeps : Keeps IsVm read_callback
unfolding read_callback
read-Keeps = bind-Keeps IsVm _ _ (get_register-Keeps a0) (λ _.
    bind-Keeps IsVm _ _ (get_register-Keeps a1) (λ ptr.
      bind-Keeps IsVm _ _ (get_register-Keeps a2)
        (λ sz. bind-Keeps IsVm _ _ (fill-Keeps fill_fuel ptr sz 0) (λ _. set_register-Keeps a0 0))))

close-Keeps : Keeps IsVm close_callback
unfolding close_callback
close-Keeps = bind-Keeps IsVm _ _ (get_register-Keeps a0) (λ _. set_register-Keeps a0 0)

put_char-Keeps : Keeps IsVm put_char_callback
unfolding put_char_callback
put_char-Keeps = bind-Keeps IsVm _ _ (get_register-Keeps a0) (λ _. set_register-Keeps a0 0)

put_int-Keeps : Keeps IsVm put_int_callback
unfolding put_int_callback
put_int-Keeps = bind-Keeps IsVm _ _ (get_register-Keeps a0) (λ _. set_register-Keeps a0 0)

exit-Keeps : Keeps IsVm exit_callback
unfolding exit_callback
exit-Keeps = bind-Keeps IsVm _ _ halt-Keeps (λ _. set_register-Keeps a0 0)

-- The map of system calls that `init_syscalls` leaves.
abbrev pub tool_syscalls : List (SyscallFunctor Vm)
tool_syscalls =
    record { id = 10; name = "exit"; callback = exit_callback }
    ∷ record { id = 1; name = "put_int"; callback = put_int_callback }
    ∷ record { id = 11; name = "put_char"; callback = put_char_callback }
    ∷ record { id = 57; name = "close"; callback = close_callback }
    ∷ record { id = 63; name = "read"; callback = read_callback }
    ∷ record { id = 1024; name = "open"; callback = open_callback }
    ∷ []

pub init_syscalls_lem : init_syscalls [] ≡ (ok true, tool_syscalls)
unfolding init_syscalls register_handler find_handler
init_syscalls_lem = refl

abbrev OnFound : Option (SyscallFunctor Vm) → Type 0
OnFound none = Unit
OnFound (some f) = Keeps IsVm f.callback

if-OnFound :
    (c : Bool) (f : SyscallFunctor Vm) (o : Option (SyscallFunctor Vm))
    → Keeps IsVm f.callback
    → OnFound o
    → OnFound (if c then some f else o)
if-OnFound true f o k p = k
if-OnFound false f o k p = p

tool-OnFound : (id : ℕ) → OnFound (find_handler tool_syscalls id)
unfolding find_handler
tool-OnFound id = if-OnFound (id == 10) _ _ exit-Keeps (
    if-OnFound (id == 1) _ _ put_int-Keeps (
      if-OnFound (id == 11) _ _ put_char-Keeps (
        if-OnFound (id == 57) _ _ close-Keeps
          (if-OnFound (id == 63) _ _ read-Keeps (if-OnFound (id == 1024) _ _ open-Keeps tt)))))

-- No system call of the tool breaks the machine.
pub tool-Keeps :
    (id : ℕ) (f : SyscallFunctor Vm)
    → find_handler tool_syscalls id ≡ some f
    → Keeps IsVm f.callback
tool-Keeps id f e = subst OnFound e (tool-OnFound id)
