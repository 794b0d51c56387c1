-- ===== src/Handler/Keeps.antt =====
-- The handlers of vm_handlers_rv32i.hxx and vm_handlers_rv32m.hxx as clients of the machine's
-- interface: what the operations of the machine leave true.
use yeti_vm.Base.{ℕ, Bool}
use yeti_vm.Base.Int.{ℤ}
use yeti_vm.Base.Exec.{Exec, ◌>>=◌}
use yeti_vm.Base.Keeps.{Keeps, bind-Keeps, if-Keeps, lift_option-Keeps, pure-Keeps}
use yeti_vm.Machine.{Machine}
use yeti_vm.Handler.Kinds
use yeti_vm.Handler.Kinds.{Handler}
use yeti_vm.Handler.Rv32i.{
  exec_lui, exec_auipc, exec_jal, exec_jalr, exec_env_call, exec_branch, exec_load, exec_store,
  read_value,
}
use yeti_vm.Handler.Rv32i.{exec_int_imm, exec_shift_imm, exec_int_r, exec_misc_mem}
use yeti_vm.Handler.Csr.{
  exec_csr, exec_csrrw, exec_csrrs, exec_csrrc, exec_csrrwi, exec_csrrsi, exec_csrrci,
}
use yeti_vm.Handler.Rv32m.{exec_math}
use yeti_vm.Handler.Dispatch.{exec}

-- The law that the operations of a machine have to fulfil.
pub record MachineKeeps {S : Type 0} (P : S → Type 0) (m : Machine S) : Type 0 where
  pub halt : Keeps P m.halt
  pub jump_abs : (dest : ℕ) → Keeps P (m.jump_abs dest)
  pub jump_to : (offset : ℤ) → Keeps P (m.jump_to offset)
  pub jump_if : (c : Bool) (offset : ℤ) → Keeps P (m.jump_if c offset)
  pub syscall : Keeps P m.syscall
  pub debug : Keeps P m.debug
  pub control_get : (id : ℕ) → Keeps P (m.control_get id)
  pub control_set : (id value : ℕ) → Keeps P (m.control_set id value)
  pub barrier : Keeps P m.barrier
  pub read_memory : (a n v : ℕ) → Keeps P (m.read_memory a n v)
  pub write_memory : (a n v : ℕ) → Keeps P (m.write_memory a n v)
  pub set_register : (r v : ℕ) → Keeps P (m.set_register r v)
  pub get_register : (r : ℕ) → Keeps P (m.get_register r)
  pub get_pc : Keeps P m.get_pc

module _ {S : Type 0} (P : S → Type 0) (m : Machine S) (k : MachineKeeps P m) where
  -- Read a register, or two, and go on.
  with_register :
      {A : Type 0} (r : ℕ) (f : ℕ → Exec S A)
      → ((v : ℕ) → Keeps P (f v))
      → Keeps P (m.get_register r >>= f)
  with_register r f l = bind-Keeps P (m.get_register r) f (k.get_register r) l

  -- Read a control register into a register, and go on with its value.
  with_control :
      {A : Type 0} (id r : ℕ) (f : ℕ → Exec S A)
      → ((v : ℕ) → Keeps P (f v))
      → Keeps P (m.control_get id >>= λ v. m.set_register r v >>= λ _. f v)
  with_control id r f l =
      bind-Keeps P _ _ (k.control_get id) (λ v. bind-Keeps P _ _ (k.set_register r v) (λ _. l v))

  exec_csr-Keeps : (kind : Kinds.Csr) (code : ℕ) → Keeps P (exec_csr m kind code)
  unfolding exec_csr exec_csrrw exec_csrrs exec_csrrc exec_csrrwi exec_csrrsi exec_csrrci
  exec_csr-Keeps Kinds.csrrw code =
      bind-Keeps P _ _
        (if-Keeps P _ _ _ (bind-Keeps P _ _ (k.control_get _) (λ v. k.set_register _ _))
          (pure-Keeps P _))
        (λ _. with_register _ _ (λ v. k.control_set _ _))
  exec_csr-Keeps Kinds.csrrs code =
      with_control _ _ _
        (λ v. if-Keeps P _ _ _ (with_register _ _ (λ w. k.control_set _ _)) (pure-Keeps P _))
  exec_csr-Keeps Kinds.csrrc code =
      with_control _ _ _
        (λ v. if-Keeps P _ _ _ (with_register _ _ (λ w. k.control_set _ _)) (pure-Keeps P _))
  exec_csr-Keeps Kinds.csrrwi code =
      bind-Keeps P _ _
        (if-Keeps P _ _ _ (bind-Keeps P _ _ (k.control_get _) (λ v. k.set_register _ _))
          (pure-Keeps P _))
        (λ _. k.control_set _ _)
  exec_csr-Keeps Kinds.csrrsi code =
      with_control _ _ _ (λ v. if-Keeps P _ _ _ (k.control_set _ _) (pure-Keeps P _))
  exec_csr-Keeps Kinds.csrrci code =
      with_control _ _ _ (λ v. if-Keeps P _ _ _ (k.control_set _ _) (pure-Keeps P _))

  -- What every operation of a machine keeps, whether it returns or throws, every handler keeps on
  -- every word.
  pub exec-Keeps : (h : Handler) (code : ℕ) → Keeps P (exec m h code)
  unfolding exec exec_lui exec_auipc exec_jal exec_jalr exec_env_call exec_branch exec_load
      exec_store read_value exec_int_imm exec_shift_imm exec_int_r exec_misc_mem exec_math
  exec-Keeps Kinds.lui code = k.set_register _ _
  exec-Keeps Kinds.auipc code = bind-Keeps P _ _ k.get_pc (λ v. k.set_register _ _)
  exec-Keeps Kinds.jal code =
      bind-Keeps P _ _ k.get_pc (λ v. bind-Keeps P _ _ (k.set_register _ _) (λ u. k.jump_to _))
  exec-Keeps Kinds.jalr code = bind-Keeps P _ _ k.get_pc (λ v.
      bind-Keeps P _ _ (k.get_register _)
        (λ b. bind-Keeps P _ _ (k.set_register _ _) (λ u. k.jump_abs _)))
  exec-Keeps Kinds.env_call code = if-Keeps P _ _ _ k.debug k.syscall
  exec-Keeps (Kinds.branch kind) code =
      with_register _ _ (λ l. with_register _ _ (λ r. k.jump_if _ _))
  exec-Keeps (Kinds.load kind) code = with_register _ _ (λ b.
      bind-Keeps P _ _ (bind-Keeps P _ _ (k.read_memory _ _ _) (λ v. pure-Keeps P _))
        (λ v. k.set_register _ _))
  exec-Keeps (Kinds.store kind) code =
      with_register _ _ (λ v. with_register _ _ (λ b. k.write_memory _ _ _))
  exec-Keeps (Kinds.int_imm kind) code = with_register _ _ (λ v. k.set_register _ _)
  exec-Keeps (Kinds.shift_imm kind) code = with_register _ _ (λ v. k.set_register _ _)
  exec-Keeps (Kinds.int_r kind) code = with_register _ _ (λ l.
      with_register _ _ (λ r. bind-Keeps P _ _ (lift_option-Keeps P _ _) (λ v. k.set_register _ _)))
  exec-Keeps (Kinds.misc_mem Kinds.fence) code = k.barrier
  exec-Keeps (Kinds.misc_mem Kinds.fence_i) code = k.barrier
  exec-Keeps (Kinds.csr kind) code = exec_csr-Keeps kind code
  exec-Keeps (Kinds.math kind) code = with_register _ _ (λ l.
      with_register _ _ (λ r. bind-Keeps P _ _ (lift_option-Keeps P _ _) (λ v. k.set_register _ _)))
