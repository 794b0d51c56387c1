-- ===== src/Isa/Body.antt =====
-- What a cycle of vm_basic.cxx does before the program counter moves on, against the step relation.
use yeti_vm.Base.{
  ℕ, ◌+◌, ◌%◌, ◌^◌, ◌<◌, ◌≡◌, refl, sym, subst, ap, ◌∙◌, arith, arith, false, some, List,
}
use yeti_vm.Base.Exec.{ok}
use yeti_vm.Syscall.{SyscallFunctor, find_handler}
use yeti_vm.Opcode.Decoder.{get_rd, get_rs2}
use yeti_vm.Opcode.Fields.{get_rd_lem, get_rs1_lem, get_rs2_lem}
use yeti_vm.Handler.Kinds.{Handler, Load, Store, load, store, misc_mem, env_call, skip}
use yeti_vm.Handler.Dispatch.{exec}
use yeti_vm.Memory.Params.{Params}
use yeti_vm.Memory.Mmu.{Mmu, replace_block}
use yeti_vm.Memory.Image.{Image, peek, value_at}
use yeti_vm.Vm.State.{Vm, register_count}
use yeti_vm.Vm.Step.{basic_machine, run_step}
use yeti_vm.Vm.Memory.{Accessible, rewritten}
use yeti_vm.Vm.Arithmetic.{exec-computed, skip-computed}
use yeti_vm.Vm.Registers.{reading, writing}
use yeti_vm.Vm.Target.{arrive, inc_pc_lem}
use yeti_vm.Vm.Cycle.{advancing, pc-writing}
use yeti_vm.Vm.Transfers.{exec_load_lem, exec_store_lem, exec_misc_mem_lem, exec_env_call_lem}
use yeti_vm.Vm.Errors.{load_width-load_size, store_width-store_size}
use yeti_vm.Isa.Manual.{imm_i, imm_s, next_pc, extended, load_width, store_width}
use yeti_vm.Isa.Encoding.{rd, rs2, Encodes}
use yeti_vm.Isa.Decoding.{computed_by_lem}
use yeti_vm.Isa.Bounds.{
  extended-lt, write-IsWords, computed_with-lt, load_width-pos, store_width-pos,
}
use yeti_vm.Isa.Arch.{
  Arch, InRegion, Body, word, with_destination, load_address, store_address, computes, loads,
  stores, fences, breaks, calls_out,
}
use yeti_vm.Isa.Calls.{run_step-ecall}
use yeti_vm.Isa.Represents.{
  Represents, arch, moved, code-lt, kept, at, value-lt, value_lem, IsBytes-peek, decoded,
  Represents-write,
}

-- The callback of the system call that the machine asks for returns, in this state.
pub record Answered (syscalls : List (SyscallFunctor Vm)) (ps : List Params) (vm : Vm) (t : Arch)
    : Type 0 where
  pub functor : SyscallFunctor Vm
  pub mmu : Mmu
  pub found : find_handler syscalls (vm.registers 17) ≡ some functor
  pub returns : functor.callback vm ≡ (ok tt, moved vm mmu t.registers)
  pub represents : Represents ps (moved vm mmu t.registers) t.memory
  pub stays : t.registers register_count ≡ vm.registers register_count

-- The machine's system calls do what the environment of the step relation does.
pub record Answers (calls : Arch → Arch → Type 0) (ps : List Params)
    (syscalls : List (SyscallFunctor Vm)) : Type 0 where
  pub answers :
      (vm : Vm) (m : Image) (t : Arch)
      → Represents ps vm m
      → calls (arch vm m) t
      → Answered syscalls ps vm t

-- A cycle that has come to a machine in the state, and goes on to the next word.
abbrev pub Carries : List (SyscallFunctor Vm) → List Params → Vm → Arch → Type 0
Carries syscalls ps vm t =
    (mmu : Mmu) × (run_step syscalls vm ≡ arrive (moved vm mmu t.registers) (next_pc vm.registers))
    × Represents ps (moved vm mmu t.registers) t.memory

module _ (syscalls : List (SyscallFunctor Vm)) (ps : List Params) (vm : Vm) (m : Image)
    (r : Represents ps vm m) (al : vm.registers register_count % 4 ≡ 0)
    (here : InRegion ps (vm.registers register_count) 4) where
  abbrev state : Arch
  state = arch vm m

  abbrev code : ℕ
  code = word state

  -- A handler that stores a value in the destination.
  written :
      (h : Handler) (v : ℕ)
      → v < 2 ^ 32
      → Encodes h code
      → skip h ≡ false
      → exec (basic_machine syscalls) h code vm ≡ (ok tt, writing vm (get_rd code) v)
      → Carries syscalls ps vm (with_destination state v)
  written h v lt matches s e = (
    vm.mmu,
    advancing syscalls vm code h (writing vm (rd code) v) (decoded ps vm m r al here h matches) s
        (e ∙ ap (λ d. (ok tt, writing vm d v)) (get_rd_lem code))
        (pc-writing vm (rd code) v (omega arith)),
    kept ps vm m r _ (write-IsWords vm.registers (rd code) v r.words lt),
  )

  -- The load of a variable, and the store of one, with the sizes and the fields of the manual.
  loaded :
      (k : Load)
      → (let a = load_address state in
          let n = load_width k in
          Accessible a n vm
          → exec (basic_machine syscalls) (load k) code vm
            ≡ (ok tt, writing vm (get_rd code) (extended k (value_at (peek vm.mmu) a n))))
  loaded k =
      let a = load_address state in
      let P : ℕ → Type 0 = λ n.
        Accessible a n vm
        → exec (basic_machine syscalls) (load k) code vm
          ≡ (ok tt, writing vm (get_rd code) (extended k (value_at (peek vm.mmu) a n))) in
      subst P (sym (load_width-load_size k)) (
        exec_load_lem syscalls vm code k a r.mmu (IsBytes-peek ps vm m r)
          (ap (λ b. (reading vm b + imm_i code) % 2 ^ 32) (get_rs1_lem code)))

  stored :
      (k : Store)
      → (x : Accessible (store_address state) (store_width k) vm)
      → exec (basic_machine syscalls) (store k) code vm ≡ (
        ok tt,
        moved vm
            (replace_block vm.mmu
              (rewritten (store_address state) (store_width k) (reading vm (rs2 code)) x.block))
            vm.registers,
      )
  unfolding exec
  stored k x =
      let a = store_address state in
      let P : ℕ → Type 0 = λ n.
        (y : Accessible a n vm)
        → exec (basic_machine syscalls) (store k) code vm ≡ (
          ok tt,
          moved vm (replace_block vm.mmu (rewritten a n (reading vm (get_rs2 code)) y.block))
              vm.registers,
        ) in
      subst P (sym (store_width-store_size k))
        (exec_store_lem syscalls vm code k a r.mmu
          (ap (λ b. (reading vm b + imm_s code) % 2 ^ 32) (get_rs1_lem code)))
        x
      ∙ ap
          (λ b. (
            ok tt,
            moved vm (replace_block vm.mmu (rewritten a (store_width k) (reading vm b) x.block))
                vm.registers,
          ))
          (get_rs2_lem code)

  pub Carries-Body :
      (calls : Arch → Arch → Type 0) (t : Arch)
      → Answers calls ps syscalls
      → Body calls ps state t
      → Carries syscalls ps vm t
  unfolding skip exec
  Carries-Body calls _ env (computes h v matches e) =
      let lt = code-lt ps vm m r al here in
      let e' = sym (computed_by_lem h vm.registers code) ∙ e in
      written h v (computed_with-lt h vm.registers code _ _ v r.words lt e) matches
        (skip-computed syscalls vm code h v e') (exec-computed syscalls vm code h v lt r.words e')
  Carries-Body calls _ env (loads k matches even i) =
      let a = load_address state in
      let n = load_width k in
      let x = at ps vm m r a n (load_width-pos k) even i in
      written (load k) _ (extended-lt k _ (value-lt ps vm m r a n x)) matches refl (
        loaded k x
        ∙ ap (λ v. (ok tt, writing vm (get_rd code) (extended k v))) (value_lem ps vm m r a n x))
  Carries-Body calls _ env (stores k matches even i) =
      let a = store_address state in
      let n = store_width k in
      let x = at ps vm m r a n (store_width-pos k) even i in
      (
        replace_block vm.mmu (rewritten a n (reading vm (rs2 code)) x.block),
        advancing syscalls vm code (store k) _ (decoded ps vm m r al here (store k) matches) refl
            (stored k x) refl,
        Represents-write ps vm m r a n (reading vm (rs2 code)) x,
      )
  Carries-Body calls _ env (fences k matches) = (
    vm.mmu,
    advancing syscalls vm code (misc_mem k) vm (decoded ps vm m r al here (misc_mem k) matches) refl
        (exec_misc_mem_lem syscalls vm code k) refl,
    r,
  )
  Carries-Body calls _ env (breaks matches z) = (
    vm.mmu,
    advancing syscalls vm code env_call vm (decoded ps vm m r al here env_call matches) refl
        (exec_env_call_lem syscalls vm code z) refl,
    r,
  )
  Carries-Body calls t env (calls_out _ e c) =
      let a = env.answers vm m t r c in
      let vm' = moved vm a.mmu t.registers in
      (
        a.mmu,
        run_step-ecall syscalls vm vm' a.functor code (decoded ps vm m r al here env_call e.matches)
              e.immediate a.found a.returns
            ∙ inc_pc_lem vm' (ap (λ (x : ℕ). x % 4) a.stays ∙ al)
            ∙ ap (λ (x : ℕ). arrive vm' ((x + 4) % 2 ^ 32)) a.stays,
        a.represents,
      )
