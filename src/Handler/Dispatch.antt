-- ===== src/Handler/Dispatch.antt =====
-- The virtual `exec` of the handlers.
use yeti_vm.Base.{ℕ}
use yeti_vm.Base.Exec.{Exec}
use yeti_vm.Machine.{Machine}
use yeti_vm.Handler.Kinds.{
  Handler, lui, auipc, jal, jalr, env_call, branch, load, store, int_imm, shift_imm, int_r,
  misc_mem, csr, math,
}
use yeti_vm.Handler.Rv32i.{
  exec_lui, exec_auipc, exec_jal, exec_jalr, exec_env_call, exec_branch, exec_load, exec_store,
}
use yeti_vm.Handler.Rv32i.{exec_int_imm, exec_shift_imm, exec_int_r, exec_misc_mem}
use yeti_vm.Handler.Csr.{exec_csr}
use yeti_vm.Handler.Rv32m.{exec_math}

module _ {S : Type 0} (m : Machine S) where
  unfoldable pub exec : Handler → ℕ → Exec S (Unit {0})
  exec lui = exec_lui m
  exec auipc = exec_auipc m
  exec jal = exec_jal m
  exec jalr = exec_jalr m
  exec env_call = exec_env_call m
  exec (branch k) = exec_branch m k
  exec (load k) = exec_load m k
  exec (store k) = exec_store m k
  exec (int_imm k) = exec_int_imm m k
  exec (shift_imm k) = exec_shift_imm m k
  exec (int_r k) = exec_int_r m k
  exec (misc_mem k) = exec_misc_mem m k
  exec (csr k) = exec_csr m k
  exec (math k) = exec_math m k
