-- ===== src/Syscall.antt =====
-- src/yeti-vm/vm_syscall.hxx and vm_syscall.cxx. A handler is its id, its name and its callback on
-- the machine; the map is a list of them.
pub mod Registered
use yeti_vm.Base.{ℕ, String, Bool, true, Option, none, some, List, [], ◌∷◌}
use yeti_vm.Base.{◌==◌, if◌then◌else◌}
use yeti_vm.Base.Exec.{Exec, ok, err, domain_error}

pub record SyscallFunctor (S : Type 0) : Type 0 where
  pub id : ℕ
  pub name : String
  pub callback : Exec S (Unit {0})

module _ {S : Type 0} where
  unfoldable pub find_handler : List (SyscallFunctor S) → ℕ → Option (SyscallFunctor S)
  find_handler [] id = none
  find_handler (h ∷ hs) id = if id == h.id then some h else find_handler hs id

  -- `ensure(ok, …)` throws if the id was taken; the registry is unchanged then.
  unfoldable pub register_handler : SyscallFunctor S → Exec (List (SyscallFunctor S)) Bool
  register_handler h handlers = elim (find_handler handlers h.id) [
    | none ↦ (ok true, h ∷ handlers)
    | some _ ↦ (err domain_error, handlers)
  ]
