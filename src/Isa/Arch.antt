-- ===== src/Isa/Arch.antt =====
-- The instruction set RV32IM as a step relation on registers and a map of bytes, over the regions
-- of a memory and an environment that answers some system calls: the instructions of
-- vm_handlers_rv32i.hxx and vm_handlers_rv32m.hxx but those on control registers.
use mathlib.Core.List.{Memᴰ}
use yeti_vm.Base.{ℕ, ◌+◌, ◌%◌, ◌/◌, ◌^◌, ◌≡◌, some, List}
use yeti_vm.Memory.Params.{Params}
use yeti_vm.Memory.Contents.{Within}
use yeti_vm.Memory.Image.{Image, value_at, patch}
use yeti_vm.Handler.Kinds.{Handler, Load, Store, MiscMem, load, store, misc_mem, env_call}
use yeti_vm.Isa.Encoding.{rd, rs1, rs2, Encodes}
use yeti_vm.Vm.State.{register_count}
use yeti_vm.Vm.Access.{to_bytes}
use yeti_vm.Isa.Manual.{
  imm_i, imm_s, read, write, next_pc, at_pc, computed_by, destination_by, extended, load_width,
  store_width,
}

-- What a program sees.
pub record Arch : Type 0 where
  pub registers : ℕ → ℕ
  pub memory : Image

-- An access of `n` bytes within one region.
pub record InRegion (ps : List Params) (a n : ℕ) : Type 0 where
  pub region : Params
  pub member : Memᴰ region ps
  pub within : Within region a n

abbrev pub pc : Arch → ℕ
pc s = s.registers register_count

-- The word at the program counter.
abbrev pub word : Arch → ℕ
word s = value_at s.memory (pc s) 4

abbrev pub with_destination : Arch → ℕ → Arch
with_destination s v = record s { registers = write s.registers (rd (word s)) v }

-- The state behind the word, with a destination written.
abbrev pub after_word : Arch → ℕ → Arch
after_word s v = record s {
  registers = at_pc (write s.registers (rd (word s)) v) (next_pc s.registers);
}

-- The addresses of a load and of a store.
abbrev pub load_address : Arch → ℕ
load_address s = (read s.registers (rs1 (word s)) + imm_i (word s)) % 2 ^ 32

abbrev pub store_address : Arch → ℕ
store_address s = (read s.registers (rs1 (word s)) + imm_s (word s)) % 2 ^ 32

abbrev pub stored_memory : Arch → ℕ → Image
stored_memory s n = patch s.memory (store_address s) (to_bytes n (read s.registers (rs2 (word s))))

-- `a7`, which says which system call is asked for, and `a0`, which gets its answer.
abbrev pub call_number : Arch → ℕ
call_number s = s.registers 17

abbrev pub answer : ℕ
answer = 10

-- The word at the program counter is an ecall.
pub record IsEcall (s : Arch) : Type 0 where
  pub matches : Encodes env_call (word s)
  pub immediate : word s / 2 ^ 20 % 2 ^ 12 ≡ 0

-- What the word at the program counter does to the state before the program counter moves on to the
-- next word; `calls` are the system calls that are answered, by the state that each leaves.
pub data Body (calls : Arch → Arch → Type 0) (ps : List Params) (s : Arch) : Arch → Type 0 where
  computes :
      (h : Handler) (v : ℕ)
      → Encodes h (word s)
      → computed_by h s.registers (word s) ≡ some v
      → Body calls ps s (with_destination s v)
  loads :
      (k : Load)
      → Encodes (load k) (word s)
      → load_address s % load_width k ≡ 0
      → InRegion ps (load_address s) (load_width k)
      → Body calls ps s
          (with_destination s (extended k (value_at s.memory (load_address s) (load_width k))))
  stores :
      (k : Store)
      → Encodes (store k) (word s)
      → store_address s % store_width k ≡ 0
      → InRegion ps (store_address s) (store_width k)
      → Body calls ps s (record s { memory = stored_memory s (store_width k) })
  fences : (k : MiscMem) → Encodes (misc_mem k) (word s) → Body calls ps s s
  breaks : Encodes env_call (word s) → word s / 2 ^ 20 % 2 ^ 12 ≡ 1 → Body calls ps s s
  calls_out : (t : Arch) → IsEcall s → calls s t → Body calls ps s t

-- What the word does to the state.
pub data Effect (calls : Arch → Arch → Type 0) (ps : List Params) (s : Arch) : Arch → Type 0 where
  advances :
      (t : Arch)
      → Body calls ps s t
      → InRegion ps (next_pc s.registers) 4
      → Effect calls ps s (record t { registers = at_pc t.registers (next_pc s.registers) })
  goes :
      (h : Handler) (regs : ℕ → ℕ) (t : ℕ)
      → Encodes h (word s)
      → destination_by h s.registers (word s) ≡ some (regs, t)
      → t % 4 ≡ 0
      → InRegion ps t 4
      → Effect calls ps s (record s { registers = at_pc regs t })

-- One instruction: an aligned word of a region, and what it does.
pub record IsaStep (calls : Arch → Arch → Type 0) (ps : List Params) (s t : Arch) : Type 0 where
  pub aligned : pc s % 4 ≡ 0
  pub mapped : InRegion ps (pc s) 4
  pub effect : Effect calls ps s t

-- The state is at a system call, of this number.
pub record Asks (ps : List Params) (number : ℕ) (s : Arch) : Type 0 where
  pub aligned : pc s % 4 ≡ 0
  pub mapped : InRegion ps (pc s) 4
  pub ecall : IsEcall s
  pub asked : call_number s ≡ number
  pub next : InRegion ps (next_pc s.registers) 4
