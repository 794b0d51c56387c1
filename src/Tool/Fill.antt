-- ===== src/Tool/Fill.antt =====
-- The loop of the system call `read` of tools/yeti_main.cxx, whose index wraps.
use yeti_vm.Base.{
  ℕ, zero, suc, ◌+◌, ◌-◌, ◌*◌, ◌/◌, ◌%◌, ◌^◌, ◌<◌, ◌≡◌, ◌≢◌, refl, ap, ◌∙◌, arith, inl, inr, false,
  none, [],
}
use yeti_vm.Base.{◌∷◌, ==_iff, ltb, ◌==◌, Bool-cases}
use yeti_vm.Base.Exec.{Result, ok, err, continue}
use yeti_vm.Memory.Params.{in_range_size, in_range, offset}
use yeti_vm.Memory.Block.{Block}
use yeti_vm.Memory.Mmu.{Mmu, find_block}
use yeti_vm.Memory.Contents.{IsBlock}
use yeti_vm.Memory.Layout.{IsMmu}
use yeti_vm.Vm.State.{Vm}
use yeti_vm.Vm.Access.{write_memory}
use yeti_vm.Vm.Memory.{memory_error}
use yeti_vm.Vm.Fuel.{IsEnd}
use yeti_vm.Vm.Invariant.{IsVm, write_memory-IsVm}
use yeti_vm.Tool.Syscalls.{fill, fill_fuel}

-- The last word of the address space.
abbrev last_word : ℕ
last_word = 2 ^ 32 - 4

last_word_outside : (b : Block) → IsBlock b → in_range_size b.params last_word 4 ≡ false
unfolding in_range_size in_range offset
last_word_outside b w = ground (arith, w.size_pos, w.end_lt, w.small)

-- No block has it.
last_word_unmapped : (mmu : Mmu) → IsMmu mmu → find_block mmu last_word 4 ≡ none
unfolding find_block
last_word_unmapped [] w = refl
last_word_unmapped (b ∷ bs) (wb, after, w) = rw (last_word_outside b wb) (last_word_unmapped bs w)

after_write :
    (fuel ptr sz i : ℕ) (r : Result (Unit {0}) × Vm)
    → IsVm r.1
    → ((vm : Vm) → IsVm vm → IsEnd (fill fuel ptr sz i vm).0)
    → IsEnd (continue r (λ _. fill fuel ptr sz i)).0
after_write fuel ptr sz i (ok a, vm) w ih = ih vm w
after_write fuel ptr sz i (err e, vm) w ih = tt

-- The words from an address to the last one.
abbrev words_left : ℕ → ℕ
words_left a = (last_word - a % 2 ^ 32) / 4

one_word_less :
    (ptr i : ℕ)
    → (ptr + i) % 4 ≡ 0
    → (ptr + i) % 2 ^ 32 ≢ last_word
    → suc (words_left (ptr + (i + 4) % 2 ^ 32)) ≡ words_left (ptr + i)
one_word_less ptr i al ne = omega arith

fill-ends :
    (fuel ptr sz i : ℕ) (vm : Vm)
    → (ptr + i) % 4 ≡ 0
    → words_left (ptr + i) < fuel
    → IsVm vm
    → IsEnd (fill fuel ptr sz i vm).0
unfolding fill
fill-ends zero ptr sz i vm al lt w = absurd (omega arith)
fill-ends (suc fuel) ptr sz i vm al lt w =
    let a = (ptr + i) % 2 ^ 32 in
    let v = i * i % 2 ^ 32 in
    let i' = (i + 4) % 2 ^ 32 in
    elim (Bool-cases (ltb i sz)) [
      | inl e ↦ elim (Bool-cases (a == last_word)) [
        | inl f ↦
            let last : a ≡ last_word = (==_iff a last_word).0 f in
            let none_there =
              ap (λ (x : ℕ). find_block vm.mmu x 4) last ∙ last_word_unmapped vm.mmu w.mmu in
            rw e (rw (memory_error a 4 v vm (omega arith) (omega arith) (inr none_there)).1 tt)
        | inr f ↦
            let less = one_word_less ptr i al (ground (arith, f)) in
            rw e (
              after_write fuel ptr sz i' (write_memory a 4 v vm) (write_memory-IsVm a 4 v vm w)
                (λ vm' w'. fill-ends fuel ptr sz i' vm' (omega arith) (omega (arith, less)) w'))
      ]
      | inr e ↦ rw e refl
    ]

misaligned :
    (fuel ptr sz : ℕ) (vm : Vm) → (ptr % 2 ^ 32) % 4 ≢ 0 → IsEnd (fill (suc fuel) ptr sz 0 vm).0
unfolding fill
misaligned fuel ptr sz vm ne =
    let a = (ptr + 0) % 2 ^ 32 in
    elim (Bool-cases (ltb 0 sz)) [
      | inl e ↦ rw e (
          rw (memory_error a 4 0 vm (omega arith) (omega arith) (inl (λ h. ne (omega arith)))).1 tt)
      | inr e ↦ rw e refl
    ]

-- In a well-formed machine the loop of `read` ends, returning or throwing, for every buffer and
-- every size, also those for which its index wraps: 2 ^ 30 turns suffice.
pub fill-IsEnd : (ptr sz : ℕ) (vm : Vm) → IsVm vm → IsEnd (fill fill_fuel ptr sz 0 vm).0
fill-IsEnd ptr sz vm w = elim (Bool-cases (ptr % 2 ^ 32 % 4 == 0)) [
  | inl e ↦ fill-ends fill_fuel ptr sz 0 vm (ground (arith, e)) (omega arith) w
  | inr e ↦ misaligned (fill_fuel - 1) ptr sz vm (ground (arith, e))
]
