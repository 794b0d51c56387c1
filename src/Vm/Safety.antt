-- ===== src/Vm/Safety.antt =====
-- The fetch, `get_current` of vm_basic.cxx, of a machine that has run.
use yeti_vm.Base.{
  ℕ, zero, suc, ◌+◌, ◌%◌, ◌^◌, ◌≡◌, refl, arith, inl, inr, Bool, true, false, none, some, List,
}
use yeti_vm.Base.{ltb, leb, ◌==◌, ◌!=◌, if◌then◌else◌, Bool-cases, Option-cases}
use yeti_vm.Base.Int.{ℤ}
use yeti_vm.Base.Exec.{
  Result, Error, ok, ◌>>=◌, undefined_behaviour, data_access_error, unknown_instruction,
}
use yeti_vm.Base.Keeps.{
  Keeps, bind-Keeps, if-Keeps, lift_option-Keeps, pure-Keeps, gets-Keeps, throw-Keeps,
}
use yeti_vm.Syscall
use yeti_vm.Syscall.{SyscallFunctor}
use yeti_vm.Memory.Params.{offset, in_range_size, in_range}
use yeti_vm.Memory.Block.{Block, Access, done, refused, undefined, load, read_bytes, get_ro}
use yeti_vm.Memory.Mmu.{find_block}
use yeti_vm.Memory.Contents.{IsBlock}
use yeti_vm.Memory.Lookup.{find_block_found, IsMmu-Mem}
use yeti_vm.Handler.Kinds.{Handler, skip}
use yeti_vm.Handler.Keeps.{MachineKeeps, exec-Keeps}
use yeti_vm.Handler.Registry.{find_handler}
use yeti_vm.Vm.State.{Vm, register_count}
use yeti_vm.Vm.Access
use yeti_vm.Vm.Step
use yeti_vm.Vm.Step.{get_current, basic_machine, run_step, run}
use yeti_vm.Vm.Invariant.{IsVm, set_pc-IsVm, set_register-IsVm, write_memory-IsVm}

pub set_register-Keeps : (r v : ℕ) → Keeps IsVm (Access.set_register r v)
set_register-Keeps r v = record { at = set_register-IsVm r v }

pub get_register-Keeps : (r : ℕ) → Keeps IsVm (Access.get_register r)
unfolding Access.get_register
get_register-Keeps r =
    if-Keeps IsVm _ _ _ (throw-Keeps IsVm _)
      (if-Keeps IsVm _ _ _ (gets-Keeps IsVm _) (pure-Keeps IsVm _))

get_pc-Keeps : Keeps IsVm Access.get_pc
unfolding Access.get_pc
get_pc-Keeps = gets-Keeps IsVm _

inc_pc-Keeps : Keeps IsVm Access.inc_pc
unfolding Access.inc_pc Access.get_pc
inc_pc-Keeps = record {
  at = λ vm i.
      set_pc-IsVm ((vm.registers register_count + 4) % 2 ^ 32) vm (omega (arith, i.aligned)) i;
}

jump_abs-Keeps : (dest : ℕ) → Keeps IsVm (Access.jump_abs dest)
unfolding Access.jump_abs
jump_abs-Keeps dest = elim (Bool-cases (dest % 4 != 0)) [
  | inl e ↦ rw e (throw-Keeps IsVm _)
  | inr e ↦ rw e (record { at = λ vm i. set_pc-IsVm dest vm (ground (arith, e)) i })
]

jump_to-Keeps : (offset : ℤ) → Keeps IsVm (Access.jump_to offset)
unfolding Access.jump_to
jump_to-Keeps offset = bind-Keeps IsVm _ _ get_pc-Keeps (λ pc. jump_abs-Keeps _)

jump_if-Keeps : (c : Bool) (offset : ℤ) → Keeps IsVm (Access.jump_if c offset)
unfolding Access.jump_if
jump_if-Keeps c offset = if-Keeps IsVm c _ _ (jump_to-Keeps offset) inc_pc-Keeps

get_ptr-Keeps : (a n : ℕ) → Keeps IsVm (Access.get_ptr a n)
unfolding Access.get_ptr
get_ptr-Keeps a n = if-Keeps IsVm (n == 0) _ _ (throw-Keeps IsVm undefined_behaviour) (
    if-Keeps IsVm (a % n != 0) _ _ (throw-Keeps IsVm data_access_error)
      (gets-Keeps IsVm (λ vm. find_block vm.mmu a n)))

lift_access-Keeps : {A : Type 0} (e : Error) (x : Access A) → Keeps IsVm (Access.lift_access e x)
lift_access-Keeps e (done a) = pure-Keeps IsVm a
lift_access-Keeps e refused = throw-Keeps IsVm e
lift_access-Keeps e undefined = throw-Keeps IsVm _

read_memory-Keeps : (a n v : ℕ) → Keeps IsVm (Access.read_memory a n v)
unfolding Access.read_memory
read_memory-Keeps a n v = bind-Keeps IsVm _ _ (get_ptr-Keeps a n) (λ ptr.
    bind-Keeps IsVm {A = Block} _ _ (lift_option-Keeps IsVm data_access_error ptr) (λ block.
      bind-Keeps IsVm {A = List ℕ} _ _
        (if-Keeps IsVm (ltb 4 n) _ _ (throw-Keeps IsVm data_access_error)
          (lift_access-Keeps data_access_error (load block a n)))
        (λ bytes. pure-Keeps IsVm (Access.overlay v n bytes))))

get_current-Keeps : Keeps IsVm get_current
unfolding get_current
get_current-Keeps = bind-Keeps IsVm _ _ get_pc-Keeps (λ pc.
    bind-Keeps IsVm _ _ (get_ptr-Keeps pc 4) (λ ptr.
      bind-Keeps IsVm {A = Block} _ _ (lift_option-Keeps IsVm undefined_behaviour ptr) (λ block.
        bind-Keeps IsVm {A = List ℕ} _ _ (lift_access-Keeps unknown_instruction (get_ro block pc 4))
          (λ bytes. pure-Keeps IsVm (Access.of_bytes bytes)))))

pub halt-Keeps : Keeps IsVm Access.halt
unfolding Access.halt
halt-Keeps = record {
  at = λ vm i. record {
    mmu = i.mmu;
    zero = i.zero;
    aligned = i.aligned;
    block = i.block;
    mapped = i.mapped;
  };
}

either-IsVm :
    {A : Type 0} (c : Bool) (x y : Result A × Vm)
    → IsVm x.1
    → IsVm y.1
    → IsVm (if c then x else y).1
either-IsVm true x y i j = i
either-IsVm false x y i j = j

no_handler : Keeps IsVm (Step.call_handler none)
unfolding Step.call_handler
no_handler = record { at = λ vm i. either-IsVm vm.syscall_throw_on_error _ _ i i }

a_handler :
    (f : SyscallFunctor Vm) → Keeps IsVm f.callback → Keeps IsVm (Step.call_handler (some f))
unfolding Step.call_handler
a_handler f k = record { at = k.at }

module _ (syscalls : List (SyscallFunctor Vm))
    (safe : (id : ℕ) (f : SyscallFunctor Vm)
      → Syscall.find_handler syscalls id ≡ some f
      → Keeps IsVm f.callback) where
  syscall-Keeps : Keeps IsVm (Step.syscall syscalls)
  unfolding Step.syscall Step.get_syscall_id
  syscall-Keeps = bind-Keeps IsVm _ _ (get_register-Keeps _) called
    where
      called : (id : ℕ) → Keeps IsVm (Step.call_handler (Syscall.find_handler syscalls id))
      called id = elim (Option-cases (Syscall.find_handler syscalls id)) [
        | inl e ↦ rw e no_handler
        | inr (f, e) ↦ rw e (a_handler f (safe id f e))
      ]

  pub basic_machine-Keeps : MachineKeeps IsVm (basic_machine syscalls)
  basic_machine-Keeps = record {
    halt = halt-Keeps;
    jump_abs = jump_abs-Keeps;
    jump_to = jump_to-Keeps;
    jump_if = jump_if-Keeps;
    syscall = syscall-Keeps;
    debug = pure-Keeps IsVm _;
    control_get = λ id. throw-Keeps IsVm _;
    control_set = λ id v. throw-Keeps IsVm _;
    barrier = pure-Keeps IsVm _;
    read_memory = read_memory-Keeps;
    write_memory = λ a n v. record { at = write_memory-IsVm a n v };
    set_register = set_register-Keeps;
    get_register = get_register-Keeps;
    get_pc = get_pc-Keeps;
  }

  run_step-Keeps : Keeps IsVm (run_step syscalls)
  unfolding run_step
  run_step-Keeps = bind-Keeps IsVm _ _ get_current-Keeps (λ code.
      bind-Keeps IsVm {A = Vm} _ _ (gets-Keeps IsVm (λ vm. vm)) (λ vm.
        bind-Keeps IsVm {A = Handler} _ _
          (lift_option-Keeps IsVm unknown_instruction (find_handler vm.opcodes code))
          (λ h.
            bind-Keeps IsVm _ _ (exec-Keeps IsVm _ basic_machine-Keeps h code)
              (λ _. if-Keeps IsVm (skip h) _ _ (pure-Keeps IsVm tt) inc_pc-Keeps))))

  -- The machine that a run leaves, whether it stops, throws or runs out of fuel.
  pub run-Keeps : (fuel : ℕ) → Keeps IsVm (run syscalls fuel)
  unfolding run
  run-Keeps zero = record { at = λ vm i. i }
  run-Keeps (suc fuel) = record {
    at = λ vm i.
        either-IsVm vm.running ((run_step syscalls >>= λ _. run syscalls fuel) vm) (ok true, vm)
          ((bind-Keeps IsVm _ _ run_step-Keeps (λ _. run-Keeps fuel)).at vm i) i;
  }

in_vector :
    (b : Block) (pc : ℕ)
    → IsBlock b
    → in_range_size b.params pc 4 ≡ true
    → leb (offset b.params pc + 4) b.params.block_size ≡ true
unfolding in_range_size in_range offset
in_vector b pc w e = ground (arith, w.small)

-- The fetch of a machine that is well formed returns a word.
pub get_current_lem :
    (vm : Vm) (i : IsVm vm)
    → get_current vm ≡ (
      ok (
          Access.of_bytes
            (read_bytes i.block.bytes (offset i.block.params (vm.registers register_count)) 4)),
      vm,
    )
unfolding get_current Access.get_pc Access.get_ptr get_ro
get_current_lem vm i =
    let pc = vm.registers register_count in
    let al : (pc % 4 != 0) ≡ false = ground (arith, i.aligned) in
    let (m, r) = find_block_found vm.mmu pc 4 i.block i.mapped in
    let v = in_vector i.block pc (IsMmu-Mem vm.mmu i.block i.mmu m) r in
    rw al (rw (i.mapped, r, v) refl)

module _ (syscalls : List (SyscallFunctor Vm))
    (safe : (id : ℕ) (f : SyscallFunctor Vm)
      → Syscall.find_handler syscalls id ≡ some f
      → Keeps IsVm f.callback) where
  -- However far a run has come, and however it ended, the next fetch returns a word: the program
  -- counter is on an aligned word within a block, so no null pointer is dereferenced.
  pub run-get_current :
      (vm : Vm) (fuel : ℕ)
      → IsVm vm
      → (code : ℕ) × (get_current (run syscalls fuel vm).1 ≡ (ok code, (run syscalls fuel vm).1))
  run-get_current vm fuel i =
      (_, get_current_lem (run syscalls fuel vm).1 ((run-Keeps syscalls safe fuel).at vm i))
