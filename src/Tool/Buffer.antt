-- ===== src/Tool/Buffer.antt =====
-- What the system call `read` of tools/yeti_main.cxx writes into its buffer.
use yeti_vm.Base.{
  ℕ, zero, suc, ◌+◌, ◌*◌, ◌%◌, ◌^◌, ◌<◌, ◌≤◌, ◌≡◌, refl, subst, ap, ◌∙◌, arith, true, false, List,
}
use yeti_vm.Base.{ltb}
use yeti_vm.Base.Exec.{ok}
use yeti_vm.Memory.Params.{Params}
use yeti_vm.Memory.Image.{Image, patch}
use yeti_vm.Memory.Mmu.{Mmu, replace_block}
use yeti_vm.Memory.Lookup.{IsMmu-Mem}
use yeti_vm.Vm.State.{Vm}
use yeti_vm.Vm.Access.{to_bytes, write_memory}
use yeti_vm.Vm.Memory.{Accessible, write_memory_lem, rewritten}
use yeti_vm.Vm.Registers.{writing, get_register_lem, set_register_lem}
use yeti_vm.Tool.Syscalls.{fill, fill_fuel, read_callback}
use yeti_vm.Isa.Arch.{InRegion}
use yeti_vm.Isa.Represents.{Represents, moved, at, Represents-write}

-- So many words of a buffer from an offset on, each holding the square of its offset.
unfoldable pub filled : ℕ → Image → ℕ → ℕ → Image
filled zero m ptr i = m
filled (suc n) m ptr i = filled n (patch m (ptr + i) (to_bytes 4 (i * i % 2 ^ 32))) ptr (i + 4)

-- A buffer of `sz` bytes that takes `n` aligned words, each of them in memory.
pub record IsBuffer (ps : List Params) (ptr sz n : ℕ) : Type 0 where
  pub aligned : ptr % 4 ≡ 0
  pub size_le : sz ≤ 4 * n
  pub size_lt : 4 * n < sz + 4
  pub mapped : (k : ℕ) → k < n → InRegion ps (ptr + 4 * k) 4

-- A turn of the loop.
fill_turn :
    (fuel ptr sz i : ℕ) (vm vm' : Vm)
    → ltb i sz ≡ true
    → write_memory ((ptr + i) % 2 ^ 32) 4 (i * i % 2 ^ 32) vm ≡ (ok tt, vm')
    → fill (suc fuel) ptr sz i vm ≡ fill fuel ptr sz ((i + 4) % 2 ^ 32) vm'
unfolding fill
fill_turn fuel ptr sz i vm vm' e w = rw e (rw w refl)

module _ (ps : List Params) where
  -- The word after one that is accessible.
  no_wrap : (a : ℕ) (vm : Vm) (m : Image) → Represents ps vm m → Accessible a 4 vm → a + 4 < 2 ^ 32
  no_wrap a vm m r x = omega (arith, x.within, (IsMmu-Mem vm.mmu x.block r.mmu x.member).end_lt)

  abbrev Fills : ℕ → ℕ → ℕ → ℕ → ℕ → Vm → Image → Type 0
  Fills fuel n ptr sz i vm m =
      (mmu : Mmu) × (fill fuel ptr sz i vm ≡ (ok true, moved vm mmu vm.registers))
      × Represents ps (moved vm mmu vm.registers) (filled n m ptr i)

  fill_lem :
      (fuel n ptr sz i : ℕ) (vm : Vm) (m : Image)
      → Represents ps vm m
      → n < fuel
      → (ptr + i) % 4 ≡ 0
      → sz ≤ i + 4 * n
      → i + 4 * n < sz + 4
      → ((k : ℕ) → k < n → InRegion ps (ptr + i + 4 * k) 4)
      → Fills fuel n ptr sz i vm m
  unfolding fill filled
  fill_lem zero n ptr sz i vm m r lt al le ge b = absurd (omega arith)
  fill_lem (suc fuel) zero ptr sz i vm m r lt al le ge b =
      let e : ltb i sz ≡ false = ground arith in (vm.mmu, rw e refl, r)
  fill_lem (suc fuel) (suc n) ptr sz i vm m r lt al le ge b =
      let a : ℕ = ptr + i in
      let v : ℕ = i * i % 2 ^ 32 in
      let e : ltb i sz ≡ true = ground arith in
      let here : InRegion ps a 4 =
        subst (λ (x : ℕ). InRegion ps x 4) (omega arith) (b 0 (omega arith)) in
      let x = at ps vm m r a 4 (omega arith, omega arith) al here in
      let below = no_wrap a vm m r x in
      let wrap : (ptr + i) % 2 ^ 32 ≡ ptr + i = omega (arith, below) in
      let next : (i + 4) % 2 ^ 32 ≡ i + 4 = omega (arith, below) in
      let vm' = moved vm (replace_block vm.mmu (rewritten a 4 v x.block)) vm.registers in
      let (mmu, go, r') =
        fill_lem fuel n ptr sz (i + 4) vm' (patch m a (to_bytes 4 v))
          (Represents-write ps vm m r a 4 v x) (omega arith) (omega (arith, al)) (omega (arith, le))
          (omega (arith, ge))
          (λ k h. subst (λ (x : ℕ). InRegion ps x 4) (omega arith) (b (suc k) (omega arith))) in
      (
        mmu,
        fill_turn fuel ptr sz i vm vm' e
              (ap (λ (x : ℕ). write_memory x 4 v vm) wrap ∙ write_memory_lem a 4 v vm r.mmu x)
            ∙ ap (λ (x : ℕ). fill fuel ptr sz x vm') next
            ∙ go,
        r',
      )

  -- The words of a buffer are fewer than those of the address space.
  few_words :
      (n ptr : ℕ) (vm : Vm) (m : Image)
      → Represents ps vm m
      → ptr % 4 ≡ 0
      → ((k : ℕ) → k < n → InRegion ps (ptr + 4 * k) 4)
      → 4 * n < 2 ^ 32
  few_words zero ptr vm m r al b = omega arith
  few_words (suc n) ptr vm m r al b =
      let x =
        at ps vm m r (ptr + 4 * n) 4 (omega arith, omega arith) (omega (arith, al))
          (b n (omega arith)) in
      omega (arith, no_wrap (ptr + 4 * n) vm m r x)

  -- The callback fills the buffer and answers 0.
  pub read_callback_lem :
      (n : ℕ) (vm : Vm) (m : Image)
      → Represents ps vm m
      → IsBuffer ps (vm.registers 11) (vm.registers 12) n
      → (mmu : Mmu) × (read_callback vm ≡ (ok tt, writing (moved vm mmu vm.registers) 10 0))
        × Represents ps (moved vm mmu vm.registers) (filled n m (vm.registers 11) 0)
  unfolding read_callback
  read_callback_lem n vm m r b =
      let ptr = vm.registers 11 in
      let sz = vm.registers 12 in
      let few = few_words n ptr vm m r b.aligned b.mapped in
      let (mmu, go, r') =
        fill_lem fill_fuel n ptr sz 0 vm m r (omega (arith, few)) (omega (arith, b.aligned))
          (omega (arith, b.size_le)) (omega (arith, b.size_lt))
          (λ k h. subst (λ (x : ℕ). InRegion ps x 4) (omega arith) (b.mapped k h)) in
      (
        mmu,
        rw (get_register_lem 10 vm (omega arith)) (
            rw (get_register_lem 11 vm (omega arith)) (
              rw (get_register_lem 12 vm (omega arith))
                (rw go (set_register_lem 10 0 (moved vm mmu vm.registers) (omega arith))))),
        r',
      )
