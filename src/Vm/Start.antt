-- ===== src/Vm/Start.antt =====
-- What `start` of vm_basic.cxx makes of a machine whose memory is set up.
use yeti_vm.Base.{ℕ, ◌/◌, ◌%◌, ◌^◌, ◌<◌, ◌≡◌, ◌⊎◌, ◌↔◌, inl, inr, refl, arith, true, none, some}
use yeti_vm.Base.{==_iff, Option-cases}
use yeti_vm.Memory.Regions.{regions}
use yeti_vm.Vm.Memory.{found}
use yeti_vm.Isa.Arch.{InRegion}
use yeti_vm.Isa.Fetch.{InRegion-Accessible}
use yeti_vm.Isa.Access.{find_block-InRegion}
use yeti_vm.Base.Exec.{ok, err, code_access_error}
use yeti_vm.Memory.Block.{Block}
use yeti_vm.Memory.Mmu.{find_block}
use yeti_vm.Memory.Layout.{IsMmu}
use yeti_vm.Vm.State.{Vm, register_count, write_register}
use yeti_vm.Vm.Access.{set_pc}
use yeti_vm.Vm.Setup.{start, is_initialized}
use yeti_vm.Vm.Invariant.{IsVm}

-- The machine at its first instruction: all registers 0, running if every part was initialized.
abbrev pub at_start : Vm → Vm
at_start vm = record vm {
  registers = write_register (λ _. 0) register_count vm.initial_pc;
  running = is_initialized vm;
}

pub start-IsVm :
    (vm : Vm) (b : Block)
    → IsMmu vm.mmu
    → vm.initial_pc % 4 ≡ 0
    → find_block vm.mmu vm.initial_pc 4 ≡ some b
    → (start vm ≡ (ok tt, at_start vm)) × IsVm (at_start vm)
unfolding start set_pc is_initialized
start-IsVm vm b w al e =
    (rw e refl, record { mmu = w; zero = refl; aligned = al; block = b; mapped = e })

-- Where the initial program counter is in no block, `start` throws; the registers are 0 and the rest
-- is as it was.
pub start_error :
    (vm : Vm)
    → find_block vm.mmu vm.initial_pc 4 ≡ none
    → start vm ≡ (err code_access_error, record vm { registers = λ _. 0 })
unfolding start set_pc
start_error vm e = rw e refl

-- The flags of the machine, by the bits of their byte: the code block, the data block, the
-- instruction set and the program counter.
abbrev pub AllParts : ℕ → Type 0
AllParts flags = (flags % 2 ≡ 1) × (flags / 2 % 2 ≡ 1) × (flags / 4 % 2 ≡ 1) × (flags / 8 % 2 ≡ 1)

is_initialized_iff :
    (vm : Vm) → vm.init_flags < 16 → (is_initialized vm ≡ true) ↔ AllParts vm.init_flags
unfolding is_initialized
is_initialized_iff vm lt =
    let e : (vm.init_flags ≡ 15) ↔ AllParts vm.init_flags =
      ((λ h. rw h (refl, refl, refl, refl)), (λ h. omega (arith, lt, h))) in
    ((λ h. e.0 ((==_iff vm.init_flags 15).0 h)), (λ h. (==_iff vm.init_flags 15).1 (e.1 h)))

-- The machine at its first instruction, from how it was set up.
pub record IsStarted (vm vm' : Vm) : Type 0 where
  pub zeros : (i : ℕ) → i < 32 → vm'.registers i ≡ 0
  pub at_entry : vm'.registers 32 ≡ vm.initial_pc
  pub running_iff : (vm'.running ≡ true) ↔ AllParts vm.init_flags
  pub same_memory : vm'.mmu ≡ vm.mmu
  pub well_formed : IsVm vm'

-- `start` of a machine with a well-formed memory unit and an aligned initial program counter: where
-- one region holds the word at the counter it returns, with the other registers 0, the memory as it
-- was and a well-formed machine that runs exactly if each of the four flags of its parts was set;
-- where none holds it, it throws code_access_error, with the registers 0 and the rest as it was.
-- The counter has 32 bits, and no bit of the flags' byte is set but those four.
pub start-IsStarted :
    (vm : Vm)
    → IsMmu vm.mmu
    → vm.initial_pc < 2 ^ 32
    → vm.initial_pc % 4 ≡ 0
    → vm.init_flags < 16
    → (InRegion (regions vm.mmu) vm.initial_pc 4
        × (vm' : Vm) × (start vm ≡ (ok tt, vm'))
        × IsStarted vm vm')
      ⊎ ((¬ InRegion (regions vm.mmu) vm.initial_pc 4)
          × (start vm ≡ (err code_access_error, record vm { registers = λ _. 0 })))
start-IsStarted vm w lt al few = elim (Option-cases (find_block vm.mmu vm.initial_pc 4)) [
  | inl e ↦ inr (
    (λ i.
        let f = found vm.initial_pc 4 vm w (
          InRegion-Accessible (regions vm.mmu) vm.initial_pc 4 vm w refl (omega arith) (omega arith)
            al i) in
        cc),
    start_error vm e,
  )
  | inr (b, e) ↦
      let (go, v) = start-IsVm vm b w al e in
      inl (
        find_block-InRegion vm.mmu vm.initial_pc 4 b w lt (omega arith) e,
        at_start vm,
        go,
        record {
          zeros = λ i below. ground (arith, below);
          at_entry = refl;
          running_iff = is_initialized_iff vm few;
          same_memory = refl;
          well_formed = v;
        },
      )
]
