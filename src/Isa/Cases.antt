-- ===== src/Isa/Cases.antt =====
-- What the word at the program counter comes to: a step of the instruction set, or an exception.
use yeti_vm.Base.{ℕ, ◌/◌, ◌%◌, ◌^◌, ◌<◌, ◌≤◌, ◌≡◌, ◌⊎◌, inl, inr, refl, arith, ◌&&◌, some, List}
use yeti_vm.Base.{◌==◌, ==_iff, leb, Bool-cases, Option-cases}
use yeti_vm.Base.Exec.{Error}
use yeti_vm.Handler.Kinds
use yeti_vm.Handler.Kinds.{Handler}
use yeti_vm.Handler.Alu.{alu, is_shift}
use yeti_vm.Handler.Muldiv.{muldiv, overflows}
use yeti_vm.Handler.Registry.{find_handler}
use yeti_vm.Handler.Lookup.{isa}
use yeti_vm.Isa.Encoding.{rs1, rs2, Encodes}
use yeti_vm.Isa.Decoding.{find_handler-Encodes_iff}
use yeti_vm.Memory.Params.{Params}
use yeti_vm.Memory.Mmu.{find_block}
use yeti_vm.Memory.Image.{Image}
use yeti_vm.Vm.State.{Vm, register_count}
use yeti_vm.Vm.Memory.{found}
use yeti_vm.Isa.Manual.{read, next_pc, destination_by, load_width, store_width}
use yeti_vm.Isa.Bounds.{destination_with-lt, load_width-pos, store_width-pos}
use yeti_vm.Isa.Arch.{
  Arch, InRegion, Body, Effect, word, load_address, store_address, computes, loads, stores, fences,
  breaks, calls_out, advances, goes, IsEcall, call_number,
}
use yeti_vm.Isa.Represents.{Represents, arch, at}
use yeti_vm.Isa.Traps.{InRegion-found}
use yeti_vm.Isa.Trap.{
  IsOutside, Trap, IsSystem, Service, Service-cases, Serves, denies, unknown, controls, shifts,
  multiplies, accesses, goes_astray, runs_off,
}

module _ (calls : Arch → Arch → Type 0) (service : ℕ → Service) (ps : List Params) (vm : Vm)
    (m : Image) (r : Represents ps vm m) where
  abbrev state : Arch
  state = arch vm m

  abbrev code : ℕ
  code = word state

  abbrev pub Cases : Type 0
  Cases =
      ((t : Arch) × Effect calls ps state t)
      ⊎ (((e : Error) × (t : Arch) × Trap calls service ps state e t) ⊎ IsSystem service state)

  pub mapped-cases :
      (a n : ℕ) → a < 2 ^ 32 → (0 < n) × (n ≤ 4) → a % n ≡ 0 → InRegion ps a n ⊎ (¬ InRegion ps a n)
  mapped-cases a n lt (pos, le) al = elim (Option-cases (find_block vm.mmu a n)) [
    | inl e ↦ inr (λ i.
        let f : find_block vm.mmu a n ≡ some (at ps vm m r a n (pos, le) al i).block =
          found a n vm r.mmu (at ps vm m r a n (pos, le) al i) in
        cc)
    | inr (b, e) ↦ inl (InRegion-found ps vm m r a n b lt le e)
  ]

  -- An address of an access: aligned and in a region, or not.
  access-cases :
      (a n : ℕ)
      → a < 2 ^ 32
      → (0 < n) × (n ≤ 4)
      → ((a % n ≡ 0) × InRegion ps a n) ⊎ IsOutside ps a n
  access-cases a n lt le = elim (Bool-cases (a % n == 0)) [
    | inl z ↦ elim (mapped-cases a n lt le (ground (arith, z))) [
      | inl i ↦ inl (ground (arith, z), i)
      | inr miss ↦ inr (inr miss)
    ]
    | inr z ↦ inr (inl (ground (arith, z)))
  ]

  module _ (serves : Serves calls service) (al : vm.registers register_count % 4 ≡ 0) where
    onward : (t : Arch) → Body calls ps state t → Cases
    onward t b =
        elim (mapped-cases (next_pc vm.registers) 4 (omega arith) (omega arith, omega arith)
          (omega (arith, al))) [
            | inl i ↦ inl (_, advances t b i)
            | inr miss ↦ inr (inl (_, t, runs_off t b miss))
          ]

    jump :
        (h : Handler) (regs : ℕ → ℕ) (t : ℕ)
        → Encodes h code
        → destination_by h vm.registers code ≡ some (regs, t)
        → Cases
    jump h regs t matches e =
        let (w, lt) = destination_with-lt h vm.registers regs code _ _ _ t r.words e in
        elim (access-cases t 4 lt (omega arith, omega arith)) [
          | inl (z, i) ↦ inl (_, goes h regs t matches e z i)
          | inr o ↦ inr (inl (_, _, goes_astray h regs t matches e o))
        ]

    ecall-cases : IsEcall state → Cases
    ecall-cases e = elim (Service-cases (service (call_number state))) [
      | inl y ↦ let (t, c) = serves state e y in onward t (calls_out t e c)
      | inr (inl y) ↦ inr (inl (_, _, denies e y))
      | inr (inr y) ↦
          let i = e.immediate in
          inr (
            inr (record { matches = e.matches; immediate = ground (arith, i); left_open = λ _. y }))
    ]

    Cases-Encodes : (h : Handler) → Encodes h code → Cases
    Cases-Encodes Kinds.lui x = onward _ (computes Kinds.lui _ x refl)
    Cases-Encodes Kinds.auipc x = onward _ (computes Kinds.auipc _ x refl)
    Cases-Encodes (Kinds.int_imm k) x = onward _ (computes (Kinds.int_imm k) _ x refl)
    Cases-Encodes (Kinds.shift_imm k) x = onward _ (computes (Kinds.shift_imm k) _ x refl)
    Cases-Encodes (Kinds.int_r op) x =
        elim (Bool-cases (is_shift op && leb 32 (read vm.registers (rs2 code)))) [
          | inl e ↦ inr (inl (_, _, shifts op x e))
          | inr e ↦ onward _ (
              computes (Kinds.int_r op)
                (alu op (read vm.registers (rs1 code)) (read vm.registers (rs2 code))) x
                (rw e refl))
        ]
    Cases-Encodes (Kinds.math op) x =
        elim (Bool-cases
          (overflows op (read vm.registers (rs1 code)) (read vm.registers (rs2 code)))) [
            | inl e ↦ inr (inl (_, _, multiplies op x e))
            | inr e ↦ onward _ (
                computes (Kinds.math op)
                  (muldiv op (read vm.registers (rs1 code)) (read vm.registers (rs2 code))) x
                  (rw e refl))
          ]
    Cases-Encodes (Kinds.branch k) x = jump (Kinds.branch k) _ _ x refl
    Cases-Encodes Kinds.jal x = jump Kinds.jal _ _ x refl
    Cases-Encodes Kinds.jalr x = jump Kinds.jalr _ _ x refl
    Cases-Encodes (Kinds.load k) x =
        elim (access-cases (load_address state) (load_width k) (omega arith) (load_width-pos k)) [
          | inl (z, i) ↦ onward _ (loads k x z i)
          | inr o ↦ inr (inl (_, _, accesses (Kinds.load k) _ _ x refl o))
        ]
    Cases-Encodes (Kinds.store k) x =
        elim (access-cases (store_address state) (store_width k) (omega arith)
          (store_width-pos k)) [
            | inl (z, i) ↦ onward _ (stores k x z i)
            | inr o ↦ inr (inl (_, _, accesses (Kinds.store k) _ _ x refl o))
          ]
    Cases-Encodes (Kinds.misc_mem k) x = onward _ (fences k x)
    Cases-Encodes (Kinds.csr k) x = inr (inl (_, _, controls k x))
    Cases-Encodes Kinds.env_call x = elim (Bool-cases (code / 2 ^ 20 % 2 ^ 12 == 1)) [
      | inl e ↦ onward _ (breaks x ((==_iff _ 1).0 e))
      | inr e ↦ elim (Bool-cases (code / 2 ^ 20 % 2 ^ 12 == 0)) [
        | inl z ↦ ecall-cases (record { matches = x; immediate = ground (arith, z) })
        | inr z ↦ inr (
            inr (record {
              matches = x;
              immediate = ground (arith, e);
              left_open = λ y. absurd (ground (arith, y, z));
            }))
      ]
    ]

    -- Every word comes to a step, to an exception, or to a system instruction.
    pub word-cases : Cases
    word-cases = elim (Option-cases (find_handler isa code)) [
      | inl e ↦ inr (
          inl (
            _,
            _,
            unknown (λ h x.
                let f : find_handler isa code ≡ some h = (find_handler-Encodes_iff code h).1 x in
                cc),
          ))
      | inr (h, e) ↦ Cases-Encodes h ((find_handler-Encodes_iff code h).0 e)
    ]
