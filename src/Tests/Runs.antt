-- ===== src/Tests/Runs.antt =====
-- `start`, and the registry of system calls.
use yeti_vm.Base.{some, ◌⊎◌, ◌≡◌, refl, arith, []}
use yeti_vm.Base.Exec.{ok, err, code_access_error}
use yeti_vm.Syscall
use yeti_vm.Syscall.Registered.{find_handler-register_handler}
use yeti_vm.Vm.State.{Vm}
use yeti_vm.Vm.Access
use yeti_vm.Vm.Setup.{start}
use yeti_vm.Vm.Start.{IsStarted, start-IsStarted}
use yeti_vm.Isa.Arch.{InRegion}
use yeti_vm.Memory.Regions.{regions}
use yeti_vm.Tests.Machines.{pages-IsMmu}
use yeti_vm.Tests.Data.{vm_at}

-- A machine of which every part was initialized.
abbrev ready : Vm
ready = record (vm_at 8) { init_flags = 15; initial_pc = 8 }

start-IsStarted_example :
    (InRegion (regions ready.mmu) 8 4
      × (vm' : Vm) × (start ready ≡ (ok tt, vm'))
      × IsStarted ready vm')
    ⊎ ((¬ InRegion (regions ready.mmu) 8 4)
        × (start ready ≡ (err code_access_error, record ready { registers = λ _. 0 })))
start-IsStarted_example = start-IsStarted ready pages-IsMmu (omega arith) refl (omega arith)

abbrev exit_call : Syscall.SyscallFunctor Vm
exit_call = record { id = 93; name = "exit"; callback = Access.halt }

find_handler-register_handler_example :
    Syscall.find_handler (Syscall.register_handler exit_call []).1 93 ≡ some exit_call
unfolding Syscall.find_handler
find_handler-register_handler_example = find_handler-register_handler [] exit_call 93
