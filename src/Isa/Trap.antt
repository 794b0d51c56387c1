-- ===== src/Isa/Trap.antt =====
-- Where the instruction set takes no step, and which exception of vm_basic.hxx stands for that.
use yeti_vm.Base.{ℕ, ◌/◌, ◌%◌, ◌^◌, ◌≡◌, ◌≢◌, ◌⊎◌, inl, inr, refl, true, ◌&&◌, none, some, List}
use yeti_vm.Base.{leb}
use yeti_vm.Base.Exec.{
  Error, unknown_instruction, unknown_syscall, code_access_error, data_access_error,
  control_access_error, undefined_behaviour,
}
use yeti_vm.Syscall.{SyscallFunctor, find_handler}
use yeti_vm.Vm.State.{Vm}
use yeti_vm.Memory.Params.{Params}
use yeti_vm.Handler.Kinds.{Handler, IntR, Math, Csr, int_r, math, csr, env_call}
use yeti_vm.Handler.Alu.{is_shift}
use yeti_vm.Handler.Muldiv.{overflows}
use yeti_vm.Isa.Encoding.{rs1, rs2, Encodes}
use yeti_vm.Isa.Manual.{read, next_pc, destination_by, access_by}
use yeti_vm.Isa.Arch.{Arch, InRegion, Body, IsEcall, word, call_number}

-- The address is not a multiple of the size, or no region has the access.
abbrev pub IsOutside : List Params → ℕ → ℕ → Type 0
IsOutside ps a n = (a % n ≢ 0) ⊎ (¬ InRegion ps a n)

-- How an environment takes the system calls, by their numbers: it answers them, it does not know
-- them, or they are left open.
pub data Service : Type 0 where
  served denied open_call : Service

-- The word at the program counter raises an exception, which leaves a state.
pub data Trap (calls : Arch → Arch → Type 0) (service : ℕ → Service) (ps : List Params) (s : Arch)
    : Error → Arch → Type 0 where
  denies : IsEcall s → service (call_number s) ≡ denied → Trap calls service ps s unknown_syscall s
  unknown : ((h : Handler) → ¬ Encodes h (word s)) → Trap calls service ps s unknown_instruction s
  controls : (k : Csr) → Encodes (csr k) (word s) → Trap calls service ps s control_access_error s
  shifts :
      (op : IntR)
      → Encodes (int_r op) (word s)
      → (is_shift op && leb 32 (read s.registers (rs2 (word s)))) ≡ true
      → Trap calls service ps s undefined_behaviour s
  multiplies :
      (op : Math)
      → Encodes (math op) (word s)
      → overflows op (read s.registers (rs1 (word s))) (read s.registers (rs2 (word s))) ≡ true
      → Trap calls service ps s undefined_behaviour s
  accesses :
      (h : Handler) (a n : ℕ)
      → Encodes h (word s)
      → access_by h s.registers (word s) ≡ some (a, n)
      → IsOutside ps a n
      → Trap calls service ps s data_access_error s
  goes_astray :
      (h : Handler) (regs : ℕ → ℕ) (t : ℕ)
      → Encodes h (word s)
      → destination_by h s.registers (word s) ≡ some (regs, t)
      → IsOutside ps t 4
      → Trap calls service ps s code_access_error (record s { registers = regs })
  runs_off :
      (t : Arch)
      → Body calls ps s t
      → ¬ InRegion ps (next_pc s.registers) 4
      → Trap calls service ps s code_access_error t

-- The word is a system instruction other than ebreak and the control registers': an ecall of a
-- number that is left open, or an instruction that the handler takes for a break.
pub record IsSystem (service : ℕ → Service) (s : Arch) : Type 0 where
  pub matches : Encodes env_call (word s)
  pub immediate : word s / 2 ^ 20 % 2 ^ 12 ≢ 1
  pub left_open : word s / 2 ^ 20 % 2 ^ 12 ≡ 0 → service (call_number s) ≡ open_call

-- The system calls that are served are answered.
abbrev pub Serves : (Arch → Arch → Type 0) → (ℕ → Service) → Type 0
Serves calls service =
    (s : Arch) → IsEcall s → service (call_number s) ≡ served → (t : Arch) × calls s t

-- The system calls that are denied have no callback.
abbrev pub Denies : (ℕ → Service) → List (SyscallFunctor Vm) → Type 0
Denies service syscalls = (id : ℕ) → service id ≡ denied → find_handler syscalls id ≡ none

pub Service-cases : (x : Service) → (x ≡ served) ⊎ ((x ≡ denied) ⊎ (x ≡ open_call))
Service-cases served = inl refl
Service-cases denied = inr (inl refl)
Service-cases open_call = inr (inr refl)
