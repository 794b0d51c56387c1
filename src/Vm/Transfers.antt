-- ===== src/Vm/Transfers.antt =====
-- A whole cycle on a load or a store: `run_step` of vm_basic.cxx and the `exec` of `load` and
-- `store` of vm_handlers_rv32i.hxx, on the byte map of the memory.
use yeti_vm.Base.{
  ℕ, ◌+◌, ◌/◌, ◌%◌, ◌^◌, ◌<◌, ◌≡◌, refl, ◌∙◌, arith, true, false, Option, some, List,
}
use yeti_vm.Base.{◌!=◌, length}
use yeti_vm.Base.Exec.{ok}
use yeti_vm.Syscall.{SyscallFunctor}
use yeti_vm.Memory.Block.{Block}
use yeti_vm.Memory.Layout.{IsMmu}
use yeti_vm.Memory.Lookup.{same_key, replace_block-IsMmu}
use yeti_vm.Memory.Regions.{regions, regions-replace_block}
use yeti_vm.Memory.Mmu.{Mmu, find_block, replace_block}
use yeti_vm.Memory.Image.{IsBytes, peek, peek-store, patch, value_at}
use yeti_vm.Opcode.Decoder.{decode_i_u, get_rd, get_rs1, get_rs2}
use yeti_vm.Opcode.Fields.{decode_i_u_lem, decode_i-sign_extended, decode_s-sign_extended}
use yeti_vm.Handler.Kinds.{
  Handler, Load, Store, MiscMem, load, misc_mem, env_call, fence, fence_i, skip,
}
use yeti_vm.Handler.Rv32i.{
  exec_load, exec_store, exec_misc_mem, exec_env_call, read_value, load_size, store_size,
}
use yeti_vm.Handler.Dispatch.{exec}
use yeti_vm.Handler.Immediate.{to_unsigned-to_signed}
use yeti_vm.Vm.State.{Vm, register_count, write_register}
use yeti_vm.Vm.Access.{get_pc, set_pc, inc_pc, to_bytes}
use yeti_vm.Vm.Step.{basic_machine, run_step}
use yeti_vm.Vm.Memory.{Accessible, found, write_memory_lem, store_lem, rewritten}
use yeti_vm.Vm.Words.{length-to_bytes}
use yeti_vm.Vm.Registers.{reading, writing, get_register_lem, set_register_lem}
use yeti_vm.Vm.Arithmetic.{imm_i-lt}
use yeti_vm.Isa.Manual.{imm_i, imm_s, extended}
use yeti_vm.Vm.Instruction.{Fetched, advanced, found_handler, rd-lt, rs1-lt, rs2-lt, run_step_lem}
use yeti_vm.Vm.Bytes.{extend_loaded-extended, value_at-lt, read_memory-value_at, Accessible-end}

pub imm_s-lt : (code : ℕ) → imm_s code < 2 ^ 32
imm_s-lt code = ground arith

-- The machine with another memory, at the next word.
abbrev pub stepped : Vm → Mmu → Vm
stepped vm mmu = record vm {
  mmu = mmu;
  registers =
      write_register vm.registers register_count ((vm.registers register_count + 4) % 2 ^ 32);
}

-- What the write of a value leaves of the memory.
pub written_image :
    (a n v : ℕ) (vm : Vm)
    → IsMmu vm.mmu
    → (x : Accessible a n vm)
    → IsMmu (replace_block vm.mmu (rewritten a n v x.block))
      × (regions (replace_block vm.mmu (rewritten a n v x.block)) ≡ regions vm.mmu)
      × ((c : ℕ)
          → c < 2 ^ 32
          → peek (replace_block vm.mmu (rewritten a n v x.block)) c
            ≡ patch (peek vm.mmu) a (to_bytes n v) c)
written_image a n v vm w x =
    let b' : Block = rewritten a n v x.block in
    let keys = same_key vm.mmu x.block b' w x.member refl in
    let at_a : find_block vm.mmu a (length (to_bytes n v)) ≡ some x.block =
      rw (length-to_bytes n v) (found a n vm w x) in
    (
      replace_block-IsMmu vm.mmu b' w keys,
      regions-replace_block vm.mmu b' keys,
      peek-store vm.mmu a (to_bytes n v) x.block b' w x.address_lt at_a (store_lem a n v vm w x),
    )

module _ (syscalls : List (SyscallFunctor Vm)) (vm : Vm) (code : ℕ) where
  -- What a load stores in the destination.
  pub exec_load_lem :
      (k : Load) (a : ℕ)
      → IsMmu vm.mmu
      → IsBytes (peek vm.mmu)
      → (reading vm (get_rs1 code) + imm_i code) % 2 ^ 32 ≡ a
      → Accessible a (load_size k) vm
      → exec (basic_machine syscalls) (load k) code vm
        ≡ (ok tt, writing vm (get_rd code) (extended k (value_at (peek vm.mmu) a (load_size k))))
  unfolding exec exec_load read_value
  exec_load_lem k a w bytes e x =
      let v = value_at (peek vm.mmu) a (load_size k) in
      let ext =
        extend_loaded-extended k v (
          value_at-lt (peek vm.mmu) a (load_size k) bytes
            (Accessible-end a (load_size k) vm w x)) in
      rw
        (
          get_register_lem (get_rs1 code) vm (rs1-lt syscalls vm code),
          decode_i-sign_extended code,
          to_unsigned-to_signed (imm_i code) (imm_i-lt code),
          e,
        )
        (rw (read_memory-value_at a (load_size k) vm w x, ext)
          (set_register_lem (get_rd code) (extended k v) vm (rd-lt syscalls vm code)))

  -- In a machine with both instruction sets whose registers hold words and whose memory is well
  -- formed and holds bytes, a cycle on a fetched word of a load, whose variable is aligned and
  -- within a block and whose next word is in memory, stores what the manual says of the bytes that
  -- the memory holds there in the destination, and goes on to the next word.
  pub run_step-load :
      (k : Load) (a : ℕ)
      → Fetched vm code (load k)
      → IsMmu vm.mmu
      → IsBytes (peek vm.mmu)
      → (reading vm (get_rs1 code) + imm_i code) % 2 ^ 32 ≡ a
      → Accessible a (load_size k) vm
      → run_step syscalls vm
        ≡ (ok tt, advanced vm (get_rd code) (extended k (value_at (peek vm.mmu) a (load_size k))))
  unfolding skip
  run_step-load k a f w bytes e x =
      run_step_lem syscalls vm code (load k) (extended k (value_at (peek vm.mmu) a (load_size k)))
        f.block f.current (found_handler vm code (load k) f) refl f.next
        (exec_load_lem k a w bytes e x)

  inc_pc_stored :
      (mmu : Mmu) (o : Option Block) (b : Block)
      → o ≡ some b
      → find_block mmu ((vm.registers register_count + 4) % 2 ^ 32) 4 ≡ o
      → inc_pc (record vm { mmu = mmu }) ≡ (
        ok tt,
        record vm {
          mmu = mmu;
          registers =
              write_register vm.registers register_count
                ((vm.registers register_count + 4) % 2 ^ 32);
        },
      )
  unfolding inc_pc set_pc get_pc
  inc_pc_stored mmu o b e f = rw (f ∙ e) refl

  pub exec_store_lem :
      (k : Store) (a : ℕ)
      → IsMmu vm.mmu
      → (reading vm (get_rs1 code) + imm_s code) % 2 ^ 32 ≡ a
      → (x : Accessible a (store_size k) vm)
      → exec_store (basic_machine syscalls) k code vm ≡ (
        ok tt,
        record vm {
          mmu =
              replace_block vm.mmu (rewritten a (store_size k) (reading vm (get_rs2 code)) x.block);
        },
      )
  unfolding exec_store
  exec_store_lem k a w e x = rw (get_register_lem (get_rs2 code) vm (rs2-lt syscalls vm code)) (
      rw
        (
          get_register_lem (get_rs1 code) vm (rs1-lt syscalls vm code),
          decode_s-sign_extended code,
          to_unsigned-to_signed (imm_s code) (imm_s-lt code),
          e,
        )
        (write_memory_lem a (store_size k) (reading vm (get_rs2 code)) vm w x))

  -- A handler that changes the memory only, from the fetch to the next word.
  storing :
      (h : Handler) (mmu : Mmu) (o : Option Block) (b : Block)
      → Fetched vm code h
      → skip h ≡ false
      → o ≡ some b
      → find_block mmu ((vm.registers register_count + 4) % 2 ^ 32) 4 ≡ o
      → exec (basic_machine syscalls) h code vm ≡ (ok tt, record vm { mmu = mmu })
      → run_step syscalls vm ≡ (ok tt, stepped vm mmu)
  unfolding run_step
  storing h mmu o b f s q n e =
      rw f.current (rw (found_handler vm code h f) (rw e (rw s (inc_pc_stored mmu o b q n))))

  pub exec_misc_mem_lem :
      (k : MiscMem) → exec_misc_mem (basic_machine syscalls) k code vm ≡ (ok tt, vm)
  unfolding exec_misc_mem
  exec_misc_mem_lem fence = refl
  exec_misc_mem_lem fence_i = refl

  -- A fence goes on to the next word.
  pub run_step-misc_mem :
      (k : MiscMem)
      → Fetched vm code (misc_mem k)
      → run_step syscalls vm ≡ (ok tt, stepped vm vm.mmu)
  unfolding exec skip
  run_step-misc_mem k f =
      storing (misc_mem k) vm.mmu (some f.block) f.block f refl refl f.next (exec_misc_mem_lem k)

  pub exec_env_call_lem :
      code / 2 ^ 20 % 2 ^ 12 ≡ 1 → exec_env_call (basic_machine syscalls) code vm ≡ (ok tt, vm)
  unfolding exec_env_call
  exec_env_call_lem z =
      let i : (decode_i_u code != 0) ≡ true = ground (arith, decode_i_u_lem code, z) in rw i refl

  -- An ebreak goes on to the next word.
  pub run_step-env_call :
      Fetched vm code env_call
      → code / 2 ^ 20 % 2 ^ 12 ≡ 1
      → run_step syscalls vm ≡ (ok tt, stepped vm vm.mmu)
  unfolding exec skip
  run_step-env_call f z =
      storing env_call vm.mmu (some f.block) f.block f refl refl f.next (exec_env_call_lem z)
