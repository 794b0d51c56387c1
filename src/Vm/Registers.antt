-- ===== src/Vm/Registers.antt =====
-- The registers of `basic_vm`: `get_register` and `set_register` of vm_basic.cxx.
use yeti_vm.Base.{ℕ, ◌<◌, ◌≡◌, inl, inr, refl, arith, false}
use yeti_vm.Base.{ltb, leb, ◌==◌, if◌then◌else◌, Bool-cases}
use yeti_vm.Base.Exec.{ok, err, ◌>>=◌, data_access_error}
use yeti_vm.Vm.State.{Vm, register_count, write_register}
use yeti_vm.Vm.Access.{get_register, set_register}

-- x0 reads as 0.
abbrev pub reading : Vm → ℕ → ℕ
reading vm r = if ltb 0 r then vm.registers r else 0

-- x0 is not written.
abbrev pub writing : Vm → ℕ → ℕ → Vm
writing vm r v = record vm {
  registers = if ltb 0 r then write_register vm.registers r v else vm.registers;
}

pub get_register_lem : (r : ℕ) (vm : Vm) → r < 32 → get_register r vm ≡ (ok (reading vm r), vm)
unfolding get_register
get_register_lem r vm lt =
    let g : leb register_count r ≡ false = ground arith in
    elim (Bool-cases (ltb 0 r)) [ inl e ↦ rw (g, e) refl | inr e ↦ rw (g, e) refl ]

pub set_register_lem : (r v : ℕ) (vm : Vm) → r < 32 → set_register r v vm ≡ (ok tt, writing vm r v)
unfolding set_register
set_register_lem r v vm lt =
    let g : leb register_count r ≡ false = ground arith in
    elim (Bool-cases (ltb 0 r)) [ inl e ↦ rw (g, e) refl | inr e ↦ rw (g, e) refl ]

-- A register other than x0 reads as it was last written; x0 reads as 0; other registers keep their
-- value; a register that does not exist is refused, and nothing changes.
pub get_register-set_register :
    (r q v : ℕ) (vm : Vm)
    → (set_register r v >>= λ _. get_register q) vm ≡ (
        if leb 32 r
        then (err data_access_error, vm)
        else if leb 32 q
        then (err data_access_error, writing vm r v)
        else if q == 0
        then (ok 0, writing vm r v)
        else if q == r
        then (ok v, writing vm r v)
        else (ok (vm.registers q), writing vm r v))
unfolding get_register set_register
get_register-set_register r q v vm = ground arith
