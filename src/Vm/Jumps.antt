-- ===== src/Vm/Jumps.antt =====
-- A whole cycle on a branch or a jump: `run_step` of vm_basic.cxx and the `exec` of `branch`, `jal`
-- and `jalr` of vm_handlers_rv32i.hxx.
use mathlib.Core.Option.{some-injective}
use yeti_vm.Base.{
  ℕ, ◌+◌, ◌*◌, ◌/◌, ◌%◌, ◌^◌, ◌<◌, ◌≡◌, refl, subst, arith, true, some, List, bit_and,
}
use yeti_vm.Base.{if◌then◌else◌}
use yeti_vm.Base.Exec.{Result, ok, err, continue, pure}
use yeti_vm.Syscall.{SyscallFunctor}
use yeti_vm.BitTools.{complement}
use yeti_vm.BitTools.Fields.{bit_and_mask}
use yeti_vm.Opcode.Decoder.{get_rd, get_rs1, get_rs2}
use yeti_vm.Opcode.Fields.{decode_i-sign_extended, decode_b-sign_extended, decode_j-sign_extended}
use yeti_vm.Handler.Kinds.{Handler, Branch, branch, jal, jalr, skip}
use yeti_vm.Handler.Rv32i.{exec_jal, exec_jalr, exec_branch}
use yeti_vm.Handler.Dispatch.{exec}
use yeti_vm.Handler.Registry.{find_handler}
use yeti_vm.Handler.Lookup.{Matches, isa}
use yeti_vm.Handler.Sound.{find_handler-isa_iff}
use yeti_vm.Handler.Immediate.{to_unsigned-to_signed}
use yeti_vm.Handler.Compare.{taken, compare-taken}
use yeti_vm.Vm.State.{Vm, register_count}
use yeti_vm.Vm.Access.{get_pc}
use yeti_vm.Vm.Step.{get_current, basic_machine, run_step}
use yeti_vm.Vm.Registers.{reading, writing, get_register_lem, set_register_lem}
use yeti_vm.Vm.Arithmetic.{imm_i-lt}
use yeti_vm.Isa.Manual.{imm_i, imm_b, imm_j}
use yeti_vm.Vm.Instruction.{reading-lt, rd-lt, rs1-lt, rs2-lt}
use yeti_vm.Vm.Target.{arrive, destination, jump_abs_lem, jump_to_lem, jump_if_lem}

-- The word that the machine has fetched is one of the handler, found among the two instruction
-- sets; its program counter is aligned, and its registers hold words.
pub record Decoded (vm : Vm) (code : ℕ) (h : Handler) : Type 0 where
  pub current : get_current vm ≡ (ok code, vm)
  pub opcodes : vm.opcodes ≡ isa
  pub matches : Matches h code
  pub aligned : vm.registers register_count % 4 ≡ 0
  pub words : (i : ℕ) → vm.registers i < 2 ^ 32

pub find_handler-Decoded :
    (vm : Vm) (code : ℕ) (h : Handler) → Decoded vm code h → find_handler vm.opcodes code ≡ some h
find_handler-Decoded vm code h d = rw d.opcodes ((find_handler-isa_iff code h).1 d.matches)

clear_bit : (x : ℕ) → x < 2 ^ 32 → bit_and x (complement 32 1) ≡ x / 2 * 2
clear_bit x lt = omega (arith, bit_and_mask 1 31 x)

imm_b-lt : (code : ℕ) → imm_b code < 2 ^ 32
imm_b-lt code = ground arith

imm_j-lt : (code : ℕ) → imm_j code < 2 ^ 32
imm_j-lt code = ground arith

-- Nothing follows the jump in the cycle.
no_more : (r : Result (Unit {0}) × Vm) → continue r (λ _. pure tt) ≡ r
no_more (ok u, vm) = refl
no_more (err e, vm) = refl

module _ (syscalls : List (SyscallFunctor Vm)) (vm : Vm) (code : ℕ) where
  exec_branch_lem :
      (k : Branch)
      → ((i : ℕ) → vm.registers i < 2 ^ 32)
      → vm.registers register_count % 4 ≡ 0
      → exec_branch (basic_machine syscalls) k code vm
        ≡ arrive vm (
            if taken k (reading vm (get_rs1 code)) (reading vm (get_rs2 code))
            then (vm.registers register_count + imm_b code) % 2 ^ 32
            else (vm.registers register_count + 4) % 2 ^ 32)
  unfolding exec_branch
  exec_branch_lem k words al =
      let l = reading vm (get_rs1 code) in
      let r = reading vm (get_rs2 code) in
      let c = compare-taken k l r (reading-lt vm _ words) (reading-lt vm _ words) in
      rw (get_register_lem (get_rs1 code) vm (rs1-lt syscalls vm code)) (
        rw
          (
            get_register_lem (get_rs2 code) vm (rs2-lt syscalls vm code),
            c,
            decode_b-sign_extended code,
          )
          (jump_if_lem (taken k l r) (imm_b code) vm (imm_b-lt code) al))

  exec_jal_lem :
      exec_jal (basic_machine syscalls) code vm
      ≡ arrive
          (writing vm (get_rd code) ((vm.registers register_count + 4) % 2 ^ 32))
          ((vm.registers register_count + imm_j code) % 2 ^ 32)
  unfolding exec_jal get_pc
  exec_jal_lem =
      let link = (vm.registers register_count + 4) % 2 ^ 32 in
      let pc : (writing vm (get_rd code) link).registers register_count
          ≡ vm.registers register_count =
        ground (arith, rd-lt syscalls vm code) in
      rw
        (
          set_register_lem (get_rd code) link vm (rd-lt syscalls vm code),
          decode_j-sign_extended code,
        )
        (rw (jump_to_lem (imm_j code) (writing vm (get_rd code) link) (imm_j-lt code), pc) refl)

  exec_jalr_lem :
      exec_jalr (basic_machine syscalls) code vm
      ≡ arrive
          (writing vm (get_rd code) ((vm.registers register_count + 4) % 2 ^ 32))
          ((reading vm (get_rs1 code) + imm_i code) % 2 ^ 32 / 2 * 2)
  unfolding exec_jalr get_pc
  exec_jalr_lem =
      let link = (vm.registers register_count + 4) % 2 ^ 32 in
      rw (get_register_lem (get_rs1 code) vm (rs1-lt syscalls vm code)) (
        rw
          (
            set_register_lem (get_rd code) link vm (rd-lt syscalls vm code),
            decode_i-sign_extended code,
            to_unsigned-to_signed (imm_i code) (imm_i-lt code),
            clear_bit ((reading vm (get_rs1 code) + imm_i code) % 2 ^ 32) (omega arith),
          )
          (jump_abs_lem _ _))

  -- A handler that sets the program counter itself, from the fetch to its end.
  skipping :
      (h : Handler) (r : Vm × ℕ)
      → Decoded vm code h
      → skip h ≡ true
      → exec (basic_machine syscalls) h code vm ≡ arrive r.0 r.1
      → run_step syscalls vm ≡ arrive r.0 r.1
  unfolding run_step
  skipping h r d s e =
      rw d.current (rw (find_handler-Decoded vm code h d) (rw e (rw s (no_more (arrive r.0 r.1)))))

  abbrev Arrives : Handler → Vm × ℕ → Type 0
  Arrives h r = exec (basic_machine syscalls) h code vm ≡ arrive r.0 r.1

  -- In a machine with both instruction sets whose registers hold words and whose program counter
  -- is aligned, a cycle on a fetched word of a branch, jal or jalr writes the return address of a
  -- jump and goes to the address that the manual says, with the immediates of the manual; where
  -- that is not aligned or in no block, it throws code_access_error instead, the return address
  -- written.
  pub run_step-destination :
      (h : Handler) (vm' : Vm) (t : ℕ)
      → Decoded vm code h
      → destination h vm code ≡ some (vm', t)
      → run_step syscalls vm ≡ arrive vm' t
  unfolding exec skip
  run_step-destination (branch k) vm' t d e =
      skipping (branch k) (vm', t) d refl
        (subst (Arrives (branch k)) (some-injective _ (vm', t) e)
          (exec_branch_lem k d.words d.aligned))
  run_step-destination jal vm' t d e =
      skipping jal (vm', t) d refl (subst (Arrives jal) (some-injective _ (vm', t) e) exec_jal_lem)
  run_step-destination jalr vm' t d e =
      skipping jalr (vm', t) d refl
        (subst (Arrives jalr) (some-injective _ (vm', t) e) exec_jalr_lem)
  run_step-destination _ vm' t d e = cc
