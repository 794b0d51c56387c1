-- ===== src/Vm/Arithmetic.antt =====
-- A whole cycle on any instruction that computes a register from registers and the program counter:
-- `run_step` of vm_basic.cxx and the `exec` of vm_handlers_rv32i.hxx and vm_handlers_rv32m.hxx.
use mathlib.Core.Option.{some-injective}
use yeti_vm.Base.{
  ℕ, ◌+◌, ◌/◌, ◌%◌, ◌^◌, ◌<◌, ◌≡◌, refl, subst, ap, ◌∙◌, arith, Bool, true, false, ◌&&◌, Option,
  none, some, List,
}
use yeti_vm.Base.{if◌then◌else◌, leb}
use yeti_vm.Base.Exec.{ok, err, undefined_behaviour}
use yeti_vm.Syscall.{SyscallFunctor}
use yeti_vm.Opcode.Decoder.{get_rd, get_rs1, get_rs2}
use yeti_vm.Opcode.Fields.{decode_u_lem, decode_i-sign_extended}
use yeti_vm.Handler.Kinds.{
  Handler, IntImm, ShiftImm, IntR, Math, lui, auipc, int_imm, shift_imm, int_r, math, skip,
}
use yeti_vm.Handler.Rv32i.{exec_lui, exec_auipc, exec_int_imm, exec_shift_imm, exec_int_r}
use yeti_vm.Handler.Rv32i as Rv32i
use yeti_vm.Handler.Rv32m.{exec_math}
use yeti_vm.Handler.Rv32m as Rv32m
use yeti_vm.Handler.Dispatch.{exec}
use yeti_vm.Handler.Alu.{alu, is_shift, calculate-alu}
use yeti_vm.Handler.Muldiv.{overflows, calculate-muldiv}
use yeti_vm.Handler.Immediate.{
  imm_op, shift_op, calculate_imm-alu, calculate_shift-alu, shift_amount_lem,
}
use yeti_vm.Isa.Manual.{imm_i, imm_u, computed_with}
use yeti_vm.Vm.State.{Vm, register_count}
use yeti_vm.Vm.Access.{get_pc}
use yeti_vm.Vm.Step.{basic_machine, run_step}
use yeti_vm.Vm.Registers.{reading, writing, get_register_lem, set_register_lem}
use yeti_vm.Vm.Instruction.{
  Fetched, advanced, found_handler, reading-lt, rd-lt, rs1-lt, rs2-lt, run_step_lem, exec_int_r_lem,
  exec_math_lem,
}

-- What the manual says is stored in the destination.
abbrev pub computed : Handler → Vm → ℕ → Option ℕ
computed h vm code = computed_with h vm.registers code (get_rs1 code) (get_rs2 code)

unless : (c : Bool) (x v : ℕ) → (if c then none else some x) ≡ some v → (c ≡ false) × (x ≡ v)
unless true x v e = cc
unless false x v e = (refl, cc)

pub imm_i-lt : (code : ℕ) → imm_i code < 2 ^ 32
imm_i-lt code = ground arith

module _ (syscalls : List (SyscallFunctor Vm)) (vm : Vm) (code : ℕ) where
  exec_lui_lem :
      code < 2 ^ 32
      → exec_lui (basic_machine syscalls) code vm ≡ (ok tt, writing vm (get_rd code) (imm_u code))
  unfolding exec_lui
  exec_lui_lem lt =
      rw (decode_u_lem code lt)
        (set_register_lem (get_rd code) (imm_u code) vm (rd-lt syscalls vm code))

  exec_auipc_lem :
      code < 2 ^ 32
      → exec_auipc (basic_machine syscalls) code vm
        ≡ (ok tt, writing vm (get_rd code) ((imm_u code + vm.registers register_count) % 2 ^ 32))
  unfolding exec_auipc get_pc
  exec_auipc_lem lt =
      rw (decode_u_lem code lt) (set_register_lem (get_rd code) _ vm (rd-lt syscalls vm code))

  exec_int_imm_lem :
      (k : IntImm)
      → ((i : ℕ) → vm.registers i < 2 ^ 32)
      → exec_int_imm (basic_machine syscalls) k code vm ≡ (
        ok tt,
        writing vm (get_rd code) (alu (imm_op k) (reading vm (get_rs1 code)) (imm_i code)),
      )
  unfolding exec_int_imm
  exec_int_imm_lem k words =
      rw (get_register_lem (get_rs1 code) vm (rs1-lt syscalls vm code), decode_i-sign_extended code)
        (rw
          (calculate_imm-alu k (reading vm (get_rs1 code)) (imm_i code) (reading-lt vm _ words)
            (imm_i-lt code))
          (set_register_lem (get_rd code) _ vm (rd-lt syscalls vm code)))

  exec_shift_imm_lem :
      (k : ShiftImm)
      → ((i : ℕ) → vm.registers i < 2 ^ 32)
      → exec_shift_imm (basic_machine syscalls) k code vm ≡ (
        ok tt,
        writing vm
            (get_rd code)
            (alu (shift_op k) (reading vm (get_rs1 code)) (code / 2 ^ 20 % 2 ^ 5)),
      )
  unfolding exec_shift_imm
  exec_shift_imm_lem k words =
      rw (get_register_lem (get_rs1 code) vm (rs1-lt syscalls vm code), shift_amount_lem code)
        (rw
          (calculate_shift-alu k (reading vm (get_rs1 code)) (code / 2 ^ 20 % 2 ^ 5)
            (reading-lt vm _ words) (omega arith))
          (set_register_lem (get_rd code) _ vm (rd-lt syscalls vm code)))

  abbrev Stores : Handler → ℕ → Type 0
  Stores h v = exec (basic_machine syscalls) h code vm ≡ (ok tt, writing vm (get_rd code) v)

  -- What a handler stores in the destination.
  pub exec-computed :
      (h : Handler) (v : ℕ)
      → code < 2 ^ 32
      → ((i : ℕ) → vm.registers i < 2 ^ 32)
      → computed h vm code ≡ some v
      → exec (basic_machine syscalls) h code vm ≡ (ok tt, writing vm (get_rd code) v)
  unfolding exec
  exec-computed lui v lt words e = subst (Stores lui) (some-injective _ v e) (exec_lui_lem lt)
  exec-computed auipc v lt words e = subst (Stores auipc) (some-injective _ v e) (exec_auipc_lem lt)
  exec-computed (int_imm k) v lt words e =
      subst (Stores (int_imm k)) (some-injective _ v e) (exec_int_imm_lem k words)
  exec-computed (shift_imm k) v lt words e =
      subst (Stores (shift_imm k)) (some-injective _ v e) (exec_shift_imm_lem k words)
  exec-computed (int_r op) v lt words e =
      let (c, x) = unless _ _ v e in
      exec_int_r_lem syscalls vm code op v (
        calculate-alu op _ _ (reading-lt vm _ words) (reading-lt vm _ words)
        ∙ rw c (ap (λ (t : ℕ). some t) x))
  exec-computed (math op) v lt words e =
      let (c, x) = unless _ _ v e in
      exec_math_lem syscalls vm code op v (
        calculate-muldiv _ _ (reading-lt vm _ words) (reading-lt vm _ words) op
        ∙ rw c (ap (λ (t : ℕ). some t) x))
  exec-computed _ v lt words e = cc

  pub skip-computed : (h : Handler) (v : ℕ) → computed h vm code ≡ some v → skip h ≡ false
  unfolding skip
  skip-computed lui v e = refl
  skip-computed auipc v e = refl
  skip-computed (int_imm k) v e = refl
  skip-computed (shift_imm k) v e = refl
  skip-computed (int_r op) v e = refl
  skip-computed (math op) v e = refl
  skip-computed _ v e = cc

  -- A register shift by 32 or more, and a product that does not fit a signed word.
  pub exec-shift_undefined :
      (op : IntR)
      → ((i : ℕ) → vm.registers i < 2 ^ 32)
      → (is_shift op && leb 32 (reading vm (get_rs2 code))) ≡ true
      → exec (basic_machine syscalls) (int_r op) code vm ≡ (err undefined_behaviour, vm)
  unfolding exec exec_int_r
  exec-shift_undefined op words big =
      let l = reading vm (get_rs1 code) in
      let r = reading vm (get_rs2 code) in
      let c : Rv32i.calculate op l r ≡ none =
        calculate-alu op l r (reading-lt vm _ words) (reading-lt vm _ words) ∙ rw big refl in
      rw (get_register_lem (get_rs1 code) vm (rs1-lt syscalls vm code))
        (rw (get_register_lem (get_rs2 code) vm (rs2-lt syscalls vm code)) (rw c refl))

  pub exec-mul_undefined :
      (op : Math)
      → ((i : ℕ) → vm.registers i < 2 ^ 32)
      → overflows op (reading vm (get_rs1 code)) (reading vm (get_rs2 code)) ≡ true
      → exec (basic_machine syscalls) (math op) code vm ≡ (err undefined_behaviour, vm)
  unfolding exec exec_math
  exec-mul_undefined op words big =
      let l = reading vm (get_rs1 code) in
      let r = reading vm (get_rs2 code) in
      let c : Rv32m.calculate op l r ≡ none =
        calculate-muldiv l r (reading-lt vm _ words) (reading-lt vm _ words) op ∙ rw big refl in
      rw (get_register_lem (get_rs1 code) vm (rs1-lt syscalls vm code))
        (rw (get_register_lem (get_rs2 code) vm (rs2-lt syscalls vm code)) (rw c refl))

  -- In a machine with both instruction sets whose registers hold words, whose fetch returned a
  -- word with the fields of lui, auipc, or an operation of RV32I or RV32M on registers or on an
  -- immediate, and whose next word is in memory, a cycle returns: the destination holds what the
  -- manual says, with the immediates of the manual, and the program counter is behind the word. A
  -- register shift by 32 or more and a mul whose product does not fit a signed word are excluded.
  pub run_step-computed :
      (h : Handler) (v : ℕ)
      → code < 2 ^ 32
      → Fetched vm code h
      → computed h vm code ≡ some v
      → run_step syscalls vm ≡ (ok tt, advanced vm (get_rd code) v)
  run_step-computed h v lt f e =
      run_step_lem syscalls vm code h v f.block f.current (found_handler vm code h f)
        (skip-computed h v e) f.next (exec-computed h v lt f.words e)
