-- ===== src/Machine.antt =====
-- src/yeti-vm/vm_interface.hxx: what an instruction handler may ask of the machine. `S` is the
-- state of the machine that implements it; every operation may change it and may throw.
use yeti_vm.Base.{ℕ, Bool}
use yeti_vm.Base.Int.{ℤ}
use yeti_vm.Base.Exec.{Exec}

pub record Machine (S : Type 0) : Type 0 where
  pub halt : Exec S (Unit {0})
  pub jump_abs : ℕ → Exec S (Unit {0})
  pub jump_to : ℤ → Exec S (Unit {0})
  pub jump_if : Bool → ℤ → Exec S (Unit {0})
  pub jump_if_abs : Bool → ℕ → Exec S (Unit {0})
  pub syscall : Exec S (Unit {0})
  pub debug : Exec S (Unit {0})
  -- The value is the one that the source writes through a reference.
  pub control_get : ℕ → Exec S ℕ
  pub control_set : ℕ → ℕ → Exec S (Unit {0})
  pub barrier : Exec S (Unit {0})
  -- Address, size, the old value of the variable that is read into; the result is its new value.
  pub read_memory : ℕ → ℕ → ℕ → Exec S ℕ
  pub write_memory : ℕ → ℕ → ℕ → Exec S (Unit {0})
  pub set_register : ℕ → ℕ → Exec S (Unit {0})
  pub get_register : ℕ → Exec S ℕ
  pub get_pc : Exec S ℕ
