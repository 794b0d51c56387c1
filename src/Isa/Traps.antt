-- ===== src/Isa/Traps.antt =====
-- The cycle of vm_basic.cxx where the instruction set takes no step.
use yeti_vm.Base.{
  ℕ, ◌%◌, ◌^◌, ◌<◌, ◌≤◌, ◌≡◌, inl, inr, refl, sym, subst, ap, ap₂, ◌∙◌, ◌&&◌, arith, true, false,
  some, List,
}
use yeti_vm.Base.{◌==◌, leb, Bool-cases, Option-cases}
use yeti_vm.Base.Exec.{Error, err, code_access_error, control_access_error, undefined_behaviour}
use yeti_vm.Syscall.{SyscallFunctor}
use yeti_vm.Handler.Kinds.{Handler, csr, int_r, math, load, store, env_call}
use yeti_vm.Handler.Alu.{is_shift}
use yeti_vm.Handler.Muldiv.{overflows}
use yeti_vm.Opcode.Fields.{get_rs1_lem, get_rs2_lem}
use yeti_vm.Vm.Registers.{reading}
use yeti_vm.Handler.Dispatch.{exec}
use yeti_vm.Memory.Params.{Params}
use yeti_vm.Memory.Block.{Block}
use yeti_vm.Memory.Mmu.{Mmu, find_block}
use yeti_vm.Memory.Image.{Image}
use yeti_vm.Vm.State.{Vm, register_count}
use yeti_vm.Vm.Step.{run_step}
use yeti_vm.Vm.Arithmetic.{exec-shift_undefined, exec-mul_undefined}
use yeti_vm.Vm.Csr.{exec_csr_error}
use yeti_vm.Vm.Errors.{IsRefused, throwing, run_step-IsRefused}
use yeti_vm.Vm.Instruction.{run_step_unknown}
use yeti_vm.Vm.Jumps.{run_step-destination}
use yeti_vm.Vm.Target.{arrive, with_registers}
use yeti_vm.Isa.Manual.{next_pc, access_by}
use yeti_vm.Isa.Bounds.{destination_with-lt, load_width-pos, store_width-pos}
use yeti_vm.Isa.Decoding.{Matches-Encodes_iff, destination_by_lem, access_by_lem}
use yeti_vm.Isa.Arch.{Arch, InRegion, word}
use yeti_vm.Isa.Access.{find_block-InRegion}
use yeti_vm.Isa.Calls.{run_step-denied}
use yeti_vm.Isa.Body.{Answers, Carries-Body}
use yeti_vm.Isa.Represents.{Represents, arch, moved, current, kept, decoded}
use yeti_vm.Isa.Trap.{
  IsOutside, Trap, Service, Denies, denies, unknown, controls, shifts, multiplies, accesses,
  goes_astray, runs_off,
}

module _ (ps : List Params) (vm : Vm) (m : Image) (r : Represents ps vm m) where
  -- What the unit finds is in a region.
  pub InRegion-found :
      (a n : ℕ) (b : Block) → a < 2 ^ 32 → n ≤ 4 → find_block vm.mmu a n ≡ some b → InRegion ps a n
  InRegion-found a n b lt le e =
      subst (λ qs. InRegion qs a n) r.layout (find_block-InRegion vm.mmu a n b r.mmu lt le e)

  IsRefused-IsOutside : (a n : ℕ) → a < 2 ^ 32 → n ≤ 4 → IsOutside ps a n → IsRefused vm a n
  IsRefused-IsOutside a n lt le (inl ne) = inl ne
  IsRefused-IsOutside a n lt le (inr miss) = elim (Option-cases (find_block vm.mmu a n)) [
    | inl e ↦ inr e
    | inr (b, e) ↦ absurd (miss (InRegion-found a n b lt le e))
  ]

  arrive_outside :
      (regs : ℕ → ℕ) (t : ℕ)
      → t < 2 ^ 32
      → IsOutside ps t 4
      → arrive (record vm { registers = regs }) t ≡ (err code_access_error, moved vm vm.mmu regs)
  arrive_outside regs t lt o = elim (IsRefused-IsOutside t 4 lt (omega arith) o) [
    | inl ne ↦ let e : (t % 4 == 0) ≡ false = ground (arith, ne) in rw e refl
    | inr e ↦ elim (Bool-cases (t % 4 == 0)) [ inl z ↦ rw (z, e) refl | inr z ↦ rw z refl ]
  ]

  access_by-bounds :
      (h : Handler) (code a n : ℕ)
      → access_by h vm.registers code ≡ some (a, n)
      → (a < 2 ^ 32) × (n ≤ 4)
  access_by-bounds (load k) code a n e = ground (arith, load_width-pos k)
  access_by-bounds (store k) code a n e = ground (arith, store_width-pos k)
  access_by-bounds _ code a n e = cc

-- A cycle that throws, in a machine in the state.
abbrev pub Throws : List (SyscallFunctor Vm) → List Params → Vm → Error → Arch → Type 0
Throws syscalls ps vm e t =
    (mmu : Mmu) × (run_step syscalls vm ≡ (err e, moved vm mmu t.registers))
    × Represents ps (moved vm mmu t.registers) t.memory

module _ (syscalls : List (SyscallFunctor Vm)) (ps : List Params) (vm : Vm) (m : Image)
    (r : Represents ps vm m) (al : vm.registers register_count % 4 ≡ 0)
    (here : InRegion ps (vm.registers register_count) 4) where
  abbrev code : ℕ
  code = word (arch vm m)

  -- For every exception that the word raises, a cycle throws it and leaves a machine in the state
  -- that the exception leaves: data_access_error for a load or a store whose address is not aligned
  -- or in no region, code_access_error for a jump to such an address, with the return address
  -- written, and for a word that does its work and has no word behind it, control_access_error for
  -- a control register, unknown_instruction for a word of no handler, unknown_syscall for an ecall
  -- that has no callback, and undefined behaviour for a register shift by 32 or more and for a mul
  -- whose product does not fit a signed word. The machine has both instruction sets, its registers
  -- hold words, its memory is well formed and holds bytes, its program counter is at an aligned
  -- word in memory, and it throws on unknown system calls. The callbacks of the machine do what the
  -- environment of the relation says of them.
  pub run_step-Trap :
      (calls : Arch → Arch → Type 0) (service : ℕ → Service) (e : Error) (t : Arch)
      → Answers calls ps syscalls
      → Denies service syscalls
      → vm.syscall_throw_on_error ≡ true
      → Trap calls service ps (arch vm m) e t
      → Throws syscalls ps vm e t
  unfolding exec
  run_step-Trap calls service _ _ env absent throws (denies e d) = (
    vm.mmu,
    run_step-denied syscalls vm code (decoded ps vm m r al here env_call e.matches) e.immediate
        (absent (vm.registers 17) d) throws,
    r,
  )
  run_step-Trap calls service _ _ env absent throws (unknown none_match) = (
    vm.mmu,
    run_step_unknown syscalls vm code (current ps vm m r al here) r.opcodes
        (λ h x. none_match h ((Matches-Encodes_iff h code).0 x)),
    r,
  )
  run_step-Trap calls service _ _ env absent throws (controls k matches) = (
    vm.mmu,
    throwing syscalls vm code (csr k) control_access_error
        (decoded ps vm m r al here (csr k) matches) (exec_csr_error syscalls vm k code),
    r,
  )
  run_step-Trap calls service _ _ env absent throws (shifts op matches big) = (
    vm.mmu,
    throwing syscalls vm code (int_r op) undefined_behaviour
        (decoded ps vm m r al here (int_r op) matches)
        (exec-shift_undefined syscalls vm code op r.words
          (ap (λ b. is_shift op && leb 32 (reading vm b)) (get_rs2_lem code) ∙ big)),
    r,
  )
  run_step-Trap calls service _ _ env absent throws (multiplies op matches big) = (
    vm.mmu,
    throwing syscalls vm code (math op) undefined_behaviour
        (decoded ps vm m r al here (math op) matches)
        (exec-mul_undefined syscalls vm code op r.words (
          ap₂ (λ b c. overflows op (reading vm b) (reading vm c)) (get_rs1_lem code)
            (get_rs2_lem code)
          ∙ big)),
    r,
  )
  run_step-Trap calls service _ _ env absent throws (accesses h a n matches e o) =
      let (lt, le) = access_by-bounds ps vm m r h code a n e in
      (
        vm.mmu,
        run_step-IsRefused syscalls vm code h a n (decoded ps vm m r al here h matches)
            (sym (access_by_lem h vm.registers code) ∙ e)
            (IsRefused-IsOutside ps vm m r a n lt le o),
        r,
      )
  run_step-Trap calls service _ _ env absent throws (goes_astray h regs t matches e o) =
      let d = ap (λ o. with_registers vm o) (sym (destination_by_lem h vm.registers code) ∙ e) in
      let (w, lt) = destination_with-lt h vm.registers regs code _ _ _ t r.words e in
      (
        vm.mmu,
        run_step-destination syscalls vm code h (record vm { registers = regs }) t
              (decoded ps vm m r al here h matches) d
            ∙ arrive_outside ps vm m r regs t lt o,
        kept ps vm m r regs w,
      )
  run_step-Trap calls service _ t env absent throws (runs_off _ b miss) =
      let (mmu, e, r') = Carries-Body syscalls ps vm m r al here calls t env b in
      let vm' = moved vm mmu t.registers in
      (
        mmu,
        e
            ∙ arrive_outside ps vm' t.memory r' t.registers (next_pc vm.registers) (omega arith)
                (inr miss),
        r',
      )
