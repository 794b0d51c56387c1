-- ===== src/Vm/Instruction.antt =====
-- A whole cycle of `basic_vm` on a register operation: `run_step` of vm_basic.cxx, `int_r::exec` of
-- vm_handlers_rv32i.hxx and `math::exec` of vm_handlers_rv32m.hxx.
use yeti_vm.Base.{ℕ, ◌+◌, ◌%◌, ◌^◌, ◌<◌, ◌≡◌, refl, ap, sym, ◌∙◌, arith, false, some, List}
use yeti_vm.Base.{Option-cases, inl, inr}
use yeti_vm.Base.Exec.{ok, err, unknown_instruction}
use yeti_vm.Syscall.{SyscallFunctor}
use yeti_vm.Opcode.Decoder.{get_rd, get_rs1, get_rs2}
use yeti_vm.Opcode.Fields.{get_rd_lem, get_rs1_lem, get_rs2_lem}
use yeti_vm.Memory.Block.{Block}
use yeti_vm.Memory.Mmu.{find_block}
use yeti_vm.Handler.Kinds.{Handler, IntR, Math, skip}
use yeti_vm.Handler.Rv32i.{exec_int_r}
use yeti_vm.Handler.Rv32i as Rv32i
use yeti_vm.Handler.Rv32m.{exec_math}
use yeti_vm.Handler.Rv32m as Rv32m
use yeti_vm.Handler.Dispatch.{exec}
use yeti_vm.Handler.Registry.{find_handler}
use yeti_vm.Handler.Lookup.{Matches, isa}
use yeti_vm.Handler.Sound.{find_handler-isa_iff}
use yeti_vm.Vm.State.{Vm, register_count, write_register}
use yeti_vm.Vm.Access.{inc_pc, set_pc, get_pc}
use yeti_vm.Vm.Step.{get_current, basic_machine, run_step}
use yeti_vm.Vm.Registers.{reading, writing, get_register_lem, set_register_lem}

-- The machine after the word: the result in the destination, the program counter behind the word.
abbrev pub advanced : Vm → ℕ → ℕ → Vm
advanced vm rd result = record vm {
  registers =
      write_register (writing vm rd result).registers register_count
        ((vm.registers register_count + 4) % 2 ^ 32);
}

module _ (syscalls : List (SyscallFunctor Vm)) (vm : Vm) (code : ℕ) where
  pub rd-lt : get_rd code < 32
  rd-lt = omega (arith, get_rd_lem code)

  pub rs1-lt : get_rs1 code < 32
  rs1-lt = omega (arith, get_rs1_lem code)

  pub rs2-lt : get_rs2 code < 32
  rs2-lt = omega (arith, get_rs2_lem code)

  pub exec_int_r_lem :
      (op : IntR) (v : ℕ)
      → Rv32i.calculate op (reading vm (get_rs1 code)) (reading vm (get_rs2 code)) ≡ some v
      → exec_int_r (basic_machine syscalls) op code vm ≡ (ok tt, writing vm (get_rd code) v)
  unfolding exec_int_r
  exec_int_r_lem op v e = rw (get_register_lem (get_rs1 code) vm rs1-lt) (
      rw (get_register_lem (get_rs2 code) vm rs2-lt)
        (rw e (set_register_lem (get_rd code) v vm rd-lt)))

  pub exec_math_lem :
      (op : Math) (v : ℕ)
      → Rv32m.calculate op (reading vm (get_rs1 code)) (reading vm (get_rs2 code)) ≡ some v
      → exec_math (basic_machine syscalls) op code vm ≡ (ok tt, writing vm (get_rd code) v)
  unfolding exec_math
  exec_math_lem op v e = rw (get_register_lem (get_rs1 code) vm rs1-lt) (
      rw (get_register_lem (get_rs2 code) vm rs2-lt)
        (rw e (set_register_lem (get_rd code) v vm rd-lt)))

  inc_pc_lem :
      (v : ℕ) (b : Block)
      → find_block vm.mmu ((vm.registers register_count + 4) % 2 ^ 32) 4 ≡ some b
      → inc_pc (writing vm (get_rd code) v) ≡ (ok tt, advanced vm (get_rd code) v)
  unfolding inc_pc set_pc get_pc
  inc_pc_lem v b e =
      let pc : (writing vm (get_rd code) v).registers register_count ≡ vm.registers register_count =
        ground (arith, rd-lt) in
      rw pc (rw e refl)

  -- A handler that stores a result, from the fetch to the next word.
  pub run_step_lem :
      (h : Handler) (v : ℕ) (b : Block)
      → get_current vm ≡ (ok code, vm)
      → find_handler vm.opcodes code ≡ some h
      → skip h ≡ false
      → find_block vm.mmu ((vm.registers register_count + 4) % 2 ^ 32) 4 ≡ some b
      → exec (basic_machine syscalls) h code vm ≡ (ok tt, writing vm (get_rd code) v)
      → run_step syscalls vm ≡ (ok tt, advanced vm (get_rd code) v)
  unfolding run_step
  run_step_lem h v b g f s n e = rw g (rw f (rw e (rw s (inc_pc_lem v b n))))

pub reading-lt : (vm : Vm) (r : ℕ) → ((i : ℕ) → vm.registers i < 2 ^ 32) → reading vm r < 2 ^ 32
reading-lt vm r words = ground (arith, words r)

-- The word that the machine has fetched is one of the handler, found among the two instruction
-- sets, its registers hold words, and the word behind it is in memory.
pub record Fetched (vm : Vm) (code : ℕ) (h : Handler) : Type 0 where
  pub current : get_current vm ≡ (ok code, vm)
  pub opcodes : vm.opcodes ≡ isa
  pub matches : Matches h code
  pub words : (i : ℕ) → vm.registers i < 2 ^ 32
  pub block : Block
  pub next : find_block vm.mmu ((vm.registers register_count + 4) % 2 ^ 32) 4 ≡ some block

pub found_handler :
    (vm : Vm) (code : ℕ) (h : Handler) → Fetched vm code h → find_handler vm.opcodes code ≡ some h
found_handler vm code h f = rw f.opcodes ((find_handler-isa_iff code h).1 f.matches)

-- A cycle of a machine with both instruction sets on a word that no handler has the fields of
-- throws unknown_instruction, and the machine stays as it is.
pub run_step_unknown :
    (syscalls : List (SyscallFunctor Vm)) (vm : Vm) (code : ℕ)
    → get_current vm ≡ (ok code, vm)
    → vm.opcodes ≡ isa
    → ((h : Handler) → ¬ Matches h code)
    → run_step syscalls vm ≡ (err unknown_instruction, vm)
unfolding run_step
run_step_unknown syscalls vm code g o none_match =
    elim (Option-cases (find_handler vm.opcodes code)) [
      | inl e ↦ rw g (rw e refl)
      | inr (h, e) ↦ absurd (
          none_match h
            ((find_handler-isa_iff code h).0 (ap (λ x. find_handler x code) (sym o) ∙ e)))
    ]
