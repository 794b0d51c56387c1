-- ===== src/Handler/Csr.antt =====
-- The CSR handlers of vm_handlers_rv32i.hxx, over any machine.
use yeti_vm.Base.{ℕ, bit_and, bit_or}
use yeti_vm.Base.{◌!=◌, if◌then◌else◌}
use yeti_vm.Base.Exec.{Exec, pure, ◌>>=◌, ◌>>◌}
use yeti_vm.BitTools.{complement}
use yeti_vm.Opcode.Decoder.{get_rd, get_rs1, decode_i_u}
use yeti_vm.Machine.{Machine}
use yeti_vm.Handler.Kinds.{Csr, csrrw, csrrs, csrrc, csrrwi, csrrsi, csrrci}

module _ {S : Type 0} (m : Machine S) (csr_id src_id dst_id : ℕ) where
  -- The read of the two writing instructions, left out for the register 0.
  abbrev read_unless_zero : Exec S (Unit {0})
  read_unless_zero =
      let read : Exec S (Unit {0}) = (do
        value ← m.control_get csr_id
        m.set_register dst_id value) in
      if dst_id != 0 then read else pure tt

  unfoldable pub exec_csrrw : Exec S (Unit {0})
  exec_csrrw = do read_unless_zero; value ← m.get_register src_id; m.control_set csr_id value

  unfoldable pub exec_csrrs : Exec S (Unit {0})
  exec_csrrs = do
    value ← m.control_get csr_id
    m.set_register dst_id value
    let update : Exec S (Unit {0}) = (do
      mask ← m.get_register src_id
      m.control_set csr_id (bit_or value mask))
    if src_id != 0 then update else pure tt

  unfoldable pub exec_csrrc : Exec S (Unit {0})
  exec_csrrc = do
    value ← m.control_get csr_id
    m.set_register dst_id value
    let update : Exec S (Unit {0}) = (do
      mask ← m.get_register src_id
      m.control_set csr_id (bit_and value (complement 32 mask)))
    if src_id != 0 then update else pure tt

  unfoldable pub exec_csrrwi : Exec S (Unit {0})
  exec_csrrwi = do read_unless_zero; m.control_set csr_id src_id

  unfoldable pub exec_csrrsi : Exec S (Unit {0})
  exec_csrrsi = do
    value ← m.control_get csr_id
    m.set_register dst_id value
    let update = m.control_set csr_id (bit_or value src_id)
    if src_id != 0 then update else pure tt

  unfoldable pub exec_csrrci : Exec S (Unit {0})
  exec_csrrci = do
    value ← m.control_get csr_id
    m.set_register dst_id value
    let update = m.control_set csr_id (bit_and value (complement 32 src_id))
    if src_id != 0 then update else pure tt

-- `csr::exec`
module _ {S : Type 0} (m : Machine S) where
  unfoldable pub exec_csr : Csr → ℕ → Exec S (Unit {0})
  exec_csr csrrw code = exec_csrrw m (decode_i_u code) (get_rs1 code) (get_rd code)
  exec_csr csrrs code = exec_csrrs m (decode_i_u code) (get_rs1 code) (get_rd code)
  exec_csr csrrc code = exec_csrrc m (decode_i_u code) (get_rs1 code) (get_rd code)
  exec_csr csrrwi code = exec_csrrwi m (decode_i_u code) (get_rs1 code) (get_rd code)
  exec_csr csrrsi code = exec_csrrsi m (decode_i_u code) (get_rs1 code) (get_rd code)
  exec_csr csrrci code = exec_csrrci m (decode_i_u code) (get_rs1 code) (get_rd code)
