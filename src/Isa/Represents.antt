-- ===== src/Isa/Represents.antt =====
-- The machine of vm_basic.cxx in a state of the instruction set: what it fetches, reads and finds.
use yeti_vm.Base.{ℕ, ◌*◌, ◌%◌, ◌^◌, ◌<◌, ◌≤◌, ◌≡◌, refl, sym, subst, ap, ◌∙◌, arith, List}
use yeti_vm.Base.Exec.{ok}
use yeti_vm.Handler.Kinds.{Handler}
use yeti_vm.Handler.Lookup.{isa}
use yeti_vm.Memory.Params.{Params}
use yeti_vm.Memory.Mmu.{Mmu, replace_block}
use yeti_vm.Memory.Layout.{IsMmu}
use yeti_vm.Memory.Image.{Image, IsBytes, byte_or_zero, peek, value_at, patch}
use yeti_vm.Memory.Regions.{regions}
use yeti_vm.Vm.State.{Vm, register_count}
use yeti_vm.Vm.Step.{get_current}
use yeti_vm.Vm.Memory.{Accessible, found, rewritten}
use yeti_vm.Vm.Access.{to_bytes}
use yeti_vm.Vm.Transfers.{written_image}
use yeti_vm.Vm.Bytes.{value_at-lt, Accessible-end}
use yeti_vm.Vm.Program.{Agree, patch-Agree}
use yeti_vm.Vm.Target.{arrive}
use yeti_vm.Vm.Jumps.{Decoded}
use yeti_vm.Isa.Encoding.{Encodes}
use yeti_vm.Isa.Decoding.{Matches-Encodes_iff}
use yeti_vm.Isa.Manual.{at_pc}
use yeti_vm.Isa.Bounds.{IsWords}
use yeti_vm.Isa.Fetch.{get_current-value_at, InRegion-Accessible, value_at-eq, patch-IsBytes}
use yeti_vm.Isa.Arch.{Arch, InRegion, word}

-- The machine has both instruction sets, its memory is well formed with these regions and holds
-- the bytes of the map, and its registers hold words.
pub record Represents (ps : List Params) (vm : Vm) (m : Image) : Type 0 where
  pub mmu : IsMmu vm.mmu
  pub layout : regions vm.mmu ≡ ps
  pub opcodes : vm.opcodes ≡ isa
  pub words : IsWords vm.registers
  pub bytes : IsBytes m
  pub same : Agree (peek vm.mmu) m

-- The state that the machine is in.
abbrev pub arch : Vm → Image → Arch
arch vm m = record { registers = vm.registers; memory = m }

-- The machine with another memory and other registers.
abbrev pub moved : Vm → Mmu → (ℕ → ℕ) → Vm
moved vm mmu regs = record vm { mmu = mmu; registers = regs }

module _ (ps : List Params) (vm : Vm) (m : Image) (r : Represents ps vm m) where
  abbrev code : ℕ
  code = word (arch vm m)

  -- The same memory, other registers.
  pub kept : (regs : ℕ → ℕ) → IsWords regs → Represents ps (moved vm vm.mmu regs) m
  kept regs w = record {
    mmu = r.mmu;
    layout = r.layout;
    opcodes = r.opcodes;
    words = w;
    bytes = r.bytes;
    same = r.same;
  }

  pub at : (a n : ℕ) → (0 < n) × (n ≤ 4) → a % n ≡ 0 → InRegion ps a n → Accessible a n vm
  at a n (pos, le) al i = InRegion-Accessible ps a n vm r.mmu r.layout pos le al i

  pub value-lt : (a n : ℕ) → Accessible a n vm → value_at m a n < 2 ^ (8 * n)
  value-lt a n x = value_at-lt m a n r.bytes (Accessible-end a n vm r.mmu x)

  pub IsBytes-peek : IsBytes (peek vm.mmu)
  IsBytes-peek a lt = subst (λ b. byte_or_zero b < 256) (sym (r.same a lt)) (r.bytes a lt)

  pub value_lem : (a n : ℕ) → Accessible a n vm → value_at (peek vm.mmu) a n ≡ value_at m a n
  value_lem a n x = value_at-eq (peek vm.mmu) m a n r.same (Accessible-end a n vm r.mmu x)

  pub arrive_lem :
      (regs : ℕ → ℕ) (t : ℕ)
      → t % 4 ≡ 0
      → InRegion ps t 4
      → arrive (record vm { registers = regs }) t ≡ (ok tt, moved vm vm.mmu (at_pc regs t))
  arrive_lem regs t al i =
      let x = at t 4 (omega arith, omega arith) al i in rw (al, found t 4 vm r.mmu x) refl

  -- The memory behind the write of a value.
  pub Represents-write :
      (a n v : ℕ)
      → (x : Accessible a n vm)
      → Represents ps
          (moved vm (replace_block vm.mmu (rewritten a n v x.block)) vm.registers)
          (patch m a (to_bytes n v))
  Represents-write a n v x =
      let (w, l, b) = written_image a n v vm r.mmu x in
      record {
        mmu = w;
        layout = l ∙ r.layout;
        opcodes = r.opcodes;
        words = r.words;
        bytes = patch-IsBytes m a n v r.bytes;
        same = λ c lt. b c lt ∙ patch-Agree (peek vm.mmu) m a (to_bytes n v) r.same c lt;
      }

  module _ (al : vm.registers register_count % 4 ≡ 0)
      (here : InRegion ps (vm.registers register_count) 4) where
    at_pc_word : Accessible (vm.registers register_count) 4 vm
    at_pc_word = at _ 4 (omega arith, omega arith) al here

    pub current : get_current vm ≡ (ok code, vm)
    current =
        get_current-value_at vm r.mmu at_pc_word
        ∙ ap (λ (c : ℕ). (ok c, vm)) (value_lem _ 4 at_pc_word)

    pub code-lt : code < 2 ^ 32
    code-lt = value-lt _ 4 at_pc_word

    pub decoded : (h : Handler) → Encodes h code → Decoded vm code h
    decoded h matches = record {
      current = current;
      opcodes = r.opcodes;
      matches = (Matches-Encodes_iff h code).1 matches;
      aligned = al;
      words = r.words;
    }
