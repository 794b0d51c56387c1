-- ===== src/Handler/Rv32m.antt =====
-- The handlers of vm_handlers_rv32m.hxx, over any machine. `none` is the overflow of `int` in `mul`,
-- which C++ leaves undefined.
use yeti_vm.Base.{ℕ, ◌-◌, ◌*◌, ◌/◌, ◌%◌, ◌^◌, bit_and, Bool, ◌&&◌, Option, none, some}
use yeti_vm.Base.{ltb, ◌==◌, if◌then◌else◌}
use yeti_vm.Base.Int.{ℤ, pos, negsuc, ◌*ℤ◌, quot_ℤ, rem_ℤ, shr_ℤ, eqb_ℤ}
use yeti_vm.Base.Exec.{Exec, lift_option, ◌>>=◌, undefined_behaviour}
use yeti_vm.BitTools.{to_signed, to_unsigned}
use yeti_vm.Opcode.Decoder.{get_rd, get_rs1, get_rs2}
use yeti_vm.Machine.{Machine}
use yeti_vm.Handler.Kinds.{Math, mul, mulh, mulhsu, mulhu, div, divu, rem, remu}

-- Does the number fit a signed word of `w` bits?
abbrev pub fits_signed : ℕ → ℤ → Bool
fits_signed w (pos n) = ltb n (2 ^ (w - 1))
fits_signed w (negsuc n) = ltb n (2 ^ (w - 1))

abbrev pub result_mask : ℕ
result_mask = 2 ^ 32 - 1

-- `result & result_mask`, for a signed or an unsigned result of 64 bits.
abbrev pub low_word : ℤ → ℕ
unfolding to_unsigned
low_word result = bit_and (to_unsigned 64 result) result_mask

abbrev pub low_word_u : ℕ → ℕ
low_word_u result = bit_and result result_mask

-- `signed_limits::min()`
abbrev pub signed_min : ℤ
signed_min = negsuc (2 ^ 31 - 1)

-- `math::calculate`
unfoldable pub calculate : Math → ℕ → ℕ → Option ℕ
calculate mul lhs rhs =
    let product = to_signed 32 lhs *ℤ to_signed 32 rhs in
    if fits_signed 32 product then some (low_word product) else none
calculate mulh lhs rhs = some (low_word (shr_ℤ (to_signed 32 lhs *ℤ to_signed 32 rhs) 32))
calculate mulhsu lhs rhs =
    some (low_word_u (to_unsigned 64 (to_signed 32 lhs) * rhs % 2 ^ 64 / 2 ^ 32))
calculate mulhu lhs rhs = some (low_word_u (lhs * rhs % 2 ^ 64 / 2 ^ 32))
calculate div lhs rhs =
    let l = to_signed 32 lhs in
    let r = to_signed 32 rhs in
    some (
      if eqb_ℤ l signed_min && eqb_ℤ r (negsuc 0)
      then lhs
      else if rhs == 0
      then 2 ^ 32 - 1
      else low_word (quot_ℤ l r))
calculate divu lhs rhs = some (if rhs == 0 then 2 ^ 32 - 1 else low_word_u (lhs / rhs))
calculate rem lhs rhs =
    let l = to_signed 32 lhs in
    let r = to_signed 32 rhs in
    some (
      if eqb_ℤ l signed_min && eqb_ℤ r (negsuc 0)
      then 0
      else if rhs == 0
      then lhs
      else low_word (rem_ℤ l r))
calculate remu lhs rhs = some (if rhs == 0 then lhs else low_word_u (lhs % rhs))

module _ {S : Type 0} (m : Machine S) where
  unfoldable pub exec_math : Math → ℕ → Exec S (Unit {0})
  exec_math kind code = do
    lhs ← m.get_register (get_rs1 code)
    rhs ← m.get_register (get_rs2 code)
    result ← lift_option undefined_behaviour (calculate kind lhs rhs)
    m.set_register (get_rd code) result
