-- ===== src/Vm/Errors.antt =====
-- A whole cycle on a load or a store that the memory refuses: `run_step` of vm_basic.cxx and the
-- `exec` of `load` and `store` of vm_handlers_rv32i.hxx.
use mathlib.Core.Option.{some-injective}
use yeti_vm.Base.{ℕ, ◌+◌, ◌%◌, ◌^◌, ◌<◌, ◌≤◌, ◌≡◌, ◌≢◌, ◌⊎◌, refl, sym, subst, none, some, List}
use yeti_vm.Base.Exec.{Error, err, data_access_error}
use yeti_vm.Syscall.{SyscallFunctor}
use yeti_vm.Memory.Mmu.{find_block}
use yeti_vm.Opcode.Decoder.{get_rs1, get_rs2}
use yeti_vm.Opcode.Fields.{decode_i-sign_extended, decode_s-sign_extended}
use yeti_vm.Handler.Kinds.{Handler, Load, Store, load, store, lb, sb}
use yeti_vm.Handler.Rv32i.{exec_load, exec_store, read_value, load_size, store_size}
use yeti_vm.Handler.Dispatch.{exec}
use yeti_vm.Handler.Immediate.{to_unsigned-to_signed}
use yeti_vm.Vm.State.{Vm}
use yeti_vm.Vm.Step.{basic_machine, run_step}
use yeti_vm.Vm.Memory.{memory_error}
use yeti_vm.Vm.Registers.{reading, get_register_lem}
use yeti_vm.Vm.Arithmetic.{imm_i-lt}
use yeti_vm.Vm.Instruction.{rs1-lt, rs2-lt}
use yeti_vm.Vm.Jumps.{Decoded, find_handler-Decoded}
use yeti_vm.Vm.Transfers.{imm_s-lt}
use yeti_vm.Isa.Manual.{imm_i, imm_s, access_with, load_width, store_width}
use yeti_vm.Isa.Bounds.{load_width-pos, store_width-pos}

-- The sizes of the code are those of the manual.
pub load_width-load_size : (k : Load) → load_width k ≡ load_size k
load_width-load_size lb = refl
load_width-load_size _ = refl

pub store_width-store_size : (k : Store) → store_width k ≡ store_size k
store_width-store_size sb = refl
store_width-store_size _ = refl

abbrev IsSize : ℕ → Type 0
IsSize n = (0 < n) × (n ≤ 4)

load_size-pos : (k : Load) → IsSize (load_size k)
load_size-pos k = subst IsSize (load_width-load_size k) (load_width-pos k)

store_size-pos : (k : Store) → IsSize (store_size k)
store_size-pos k = subst IsSize (store_width-store_size k) (store_width-pos k)

-- The address is not a multiple of the size, or no block contains the access.
abbrev pub IsRefused : Vm → ℕ → ℕ → Type 0
IsRefused vm a n = (a % n ≢ 0) ⊎ (find_block vm.mmu a n ≡ none)

module _ (syscalls : List (SyscallFunctor Vm)) (vm : Vm) (code : ℕ) where
  abbrev RefusesAt : ℕ × ℕ → Type 0
  RefusesAt x = IsRefused vm x.0 x.1

  -- A handler that throws and changes nothing.
  pub throwing :
      (h : Handler) (error : Error)
      → Decoded vm code h
      → exec (basic_machine syscalls) h code vm ≡ (err error, vm)
      → run_step syscalls vm ≡ (err error, vm)
  unfolding run_step
  throwing h error d e = rw d.current (rw (find_handler-Decoded vm code h d) (rw e refl))

  run_step-load_error :
      (k : Load)
      → Decoded vm code (load k)
      → IsRefused vm ((reading vm (get_rs1 code) + imm_i code) % 2 ^ 32) (load_size k)
      → run_step syscalls vm ≡ (err data_access_error, vm)
  unfolding exec exec_load read_value
  run_step-load_error k d bad =
      let (pos, le) = load_size-pos k in
      let a = (reading vm (get_rs1 code) + imm_i code) % 2 ^ 32 in
      throwing (load k) data_access_error d (
        rw
          (
            get_register_lem (get_rs1 code) vm (rs1-lt syscalls vm code),
            decode_i-sign_extended code,
            to_unsigned-to_signed (imm_i code) (imm_i-lt code),
          )
          (rw (memory_error a (load_size k) 0 vm pos le bad).0 refl))

  run_step-store_error :
      (k : Store)
      → Decoded vm code (store k)
      → IsRefused vm ((reading vm (get_rs1 code) + imm_s code) % 2 ^ 32) (store_size k)
      → run_step syscalls vm ≡ (err data_access_error, vm)
  unfolding exec exec_store
  run_step-store_error k d bad =
      let (pos, le) = store_size-pos k in
      let a = (reading vm (get_rs1 code) + imm_s code) % 2 ^ 32 in
      throwing (store k) data_access_error d (
        rw (get_register_lem (get_rs2 code) vm (rs2-lt syscalls vm code)) (
          rw
            (
              get_register_lem (get_rs1 code) vm (rs1-lt syscalls vm code),
              decode_s-sign_extended code,
              to_unsigned-to_signed (imm_s code) (imm_s-lt code),
            )
            (memory_error a (store_size k) (reading vm (get_rs2 code)) vm pos le bad).1))

  -- In a machine with both instruction sets whose registers hold words and whose program counter
  -- is aligned, a cycle on a fetched word of a load or a store whose address, with the immediate
  -- of the manual, is not a multiple of the size, or whose bytes are in no block, throws
  -- data_access_error, and the machine stays as it is, its program counter at the word.
  pub run_step-IsRefused :
      (h : Handler) (a n : ℕ)
      → Decoded vm code h
      → access_with h vm.registers code (get_rs1 code) ≡ some (a, n)
      → IsRefused vm a n
      → run_step syscalls vm ≡ (err data_access_error, vm)
  run_step-IsRefused (load k) a n d e bad = run_step-load_error k d (
      subst (IsRefused vm _) (load_width-load_size k)
        (subst RefusesAt (sym (some-injective _ (a, n) e)) bad))
  run_step-IsRefused (store k) a n d e bad = run_step-store_error k d (
      subst (IsRefused vm _) (store_width-store_size k)
        (subst RefusesAt (sym (some-injective _ (a, n) e)) bad))
  run_step-IsRefused _ a n d e bad = cc
