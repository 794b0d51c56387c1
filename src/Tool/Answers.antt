-- ===== src/Tool/Answers.antt =====
-- The callbacks of tools/yeti_main.cxx that answer 0, and the one that halts.
use yeti_vm.Base.{ℕ, ◌≡◌, refl, sym, subst, arith, Bool, true, false, ◌||◌, inl, inr, some, List}
use yeti_vm.Base.{◌==◌, ==_iff, Bool-cases, if◌then◌else◌}
use yeti_vm.Base.Exec.{ok}
use yeti_vm.Syscall.{SyscallFunctor, find_handler}
use yeti_vm.Vm.State.{Vm}
use yeti_vm.Vm.Access.{halt}
use yeti_vm.Vm.Registers.{writing, set_register_lem, get_register_lem}
use yeti_vm.Tool.Syscalls.{
  open_callback, read_callback, close_callback, put_char_callback, put_int_callback, exit_callback,
}
use yeti_vm.Tool.Safety.{tool_syscalls}
use yeti_vm.Tool.Buffer.{IsBuffer, filled, read_callback_lem}
use yeti_vm.Memory.Params.{Params}
use yeti_vm.Memory.Image.{Image}
use yeti_vm.Isa.Manual.{write}
use yeti_vm.Isa.Bounds.{write-IsWords}
use yeti_vm.Isa.Arch.{Arch, call_number, answer}
use yeti_vm.Isa.Calls.{Halts}
use yeti_vm.Isa.Trap.{Service, served, denied, open_call, Serves, Denies}
use yeti_vm.Isa.Body.{Answered, Answers}
use yeti_vm.Isa.Represents.{Represents, arch, moved, kept}

-- The system calls that do nothing but answer 0: put_int, put_char, close and open.
abbrev pub tool_calls : ℕ → Bool
tool_calls id = id == 1 || id == 11 || id == 57 || id == 1024

abbrev pub exit_number : ℕ
exit_number = 10

put_int_lem : (vm : Vm) → put_int_callback vm ≡ (ok tt, writing vm 10 0)
unfolding put_int_callback
put_int_lem vm = rw (get_register_lem 10 vm (omega arith)) (set_register_lem 10 0 vm (omega arith))

put_char_lem : (vm : Vm) → put_char_callback vm ≡ (ok tt, writing vm 10 0)
unfolding put_char_callback
put_char_lem vm = rw (get_register_lem 10 vm (omega arith)) (set_register_lem 10 0 vm (omega arith))

close_lem : (vm : Vm) → close_callback vm ≡ (ok tt, writing vm 10 0)
unfolding close_callback
close_lem vm = rw (get_register_lem 10 vm (omega arith)) (set_register_lem 10 0 vm (omega arith))

open_lem : (vm : Vm) → open_callback vm ≡ (ok tt, writing vm 10 0)
unfolding open_callback
open_lem vm =
    rw (get_register_lem 10 vm (omega arith))
      (rw (get_register_lem 11 vm (omega arith)) (set_register_lem 10 0 vm (omega arith)))

exit_lem : (vm : Vm) → exit_callback vm ≡ (ok tt, writing (record vm { running = false }) 10 0)
unfolding exit_callback halt
exit_lem vm = set_register_lem 10 0 (record vm { running = false }) (omega arith)

pub tool-Halts : Halts exit_number tool_syscalls
unfolding find_handler
tool-Halts = record { functor = _; found = refl; halts = exit_lem }

abbrev HasAnswer : ℕ → Type 0
HasAnswer id =
    (f : SyscallFunctor Vm) × (find_handler tool_syscalls id ≡ some f)
    × ((vm : Vm) → f.callback vm ≡ (ok tt, writing vm 10 0))

HasAnswer-at : (k id : ℕ) → (id == k) ≡ true → HasAnswer k → HasAnswer id
HasAnswer-at k id e a = subst HasAnswer (sym ((==_iff id k).0 e)) a

returning : (id : ℕ) → tool_calls id ≡ true → HasAnswer id
unfolding find_handler
returning id e = elim (Bool-cases (id == 1)) [
  | inl a ↦ HasAnswer-at 1 id a (_, refl, put_int_lem)
  | inr a ↦ elim (Bool-cases (id == 11)) [
    | inl b ↦ HasAnswer-at 11 id b (_, refl, put_char_lem)
    | inr b ↦ elim (Bool-cases (id == 57)) [
      | inl c ↦ HasAnswer-at 57 id c (_, refl, close_lem)
      | inr c ↦ HasAnswer-at 1024 id (ground (arith, a, b, c, e)) (_, refl, open_lem)
    ]
  ]
]

found_read :
    (id : ℕ)
    → id ≡ 63
    → find_handler tool_syscalls id
      ≡ some (record { id = 63; name = "read"; callback = read_callback })
unfolding find_handler
found_read id e = rw e refl

-- What the system calls of the tool but `exit` leave: the answer, and what `read` writes.
pub data ToolCall (ps : List Params) (s : Arch) : Arch → Type 0 where
  answered :
      tool_calls (call_number s) ≡ true
      → ToolCall ps s (record s { registers = write s.registers answer 0 })
  reads :
      (n : ℕ)
      → call_number s ≡ 63
      → IsBuffer ps (s.registers 11) (s.registers 12) n
      → ToolCall ps s (record {
        registers = write s.registers answer 0;
        memory = filled n s.memory (s.registers 11) 0;
      })

module _ (ps : List Params) where
  Answered-ToolCall :
      (vm : Vm) (m : Image) (t : Arch)
      → Represents ps vm m
      → ToolCall ps (arch vm m) t
      → Answered tool_syscalls ps vm t
  Answered-ToolCall vm m _ r (answered e) =
      let (f, found, back) = returning (vm.registers 17) e in
      record {
        functor = f;
        mmu = vm.mmu;
        found = found;
        returns = back vm;
        represents = kept ps vm m r _ (write-IsWords vm.registers answer 0 r.words (omega arith));
        stays = refl;
      }
  Answered-ToolCall vm m _ r (reads n e b) =
      let (mmu, go, r') = read_callback_lem ps n vm m r b in
      let vm' = moved vm mmu vm.registers in
      record {
        functor = _;
        mmu = mmu;
        found = found_read (vm.registers 17) e;
        returns = go;
        represents = kept ps vm' _ r' _ (write-IsWords vm.registers answer 0 r.words (omega arith));
        stays = refl;
      }

  pub tool-Answers : Answers (ToolCall ps) ps tool_syscalls
  tool-Answers = record { answers = Answered-ToolCall }

-- The tool answers these; exit and read are left open; it knows no other.
abbrev pub tool_service : ℕ → Service
tool_service id =
    if tool_calls id then served else if id == 10 || id == 63 then open_call else denied

pub tool-Serves : (ps : List Params) → Serves (ToolCall ps) tool_service
tool-Serves ps s e h = elim (Bool-cases (tool_calls (call_number s))) [
  | inl c ↦ (_, answered c)
  | inr c ↦ absurd (ground (arith, h, c))
]

pub tool-Denies : Denies tool_service tool_syscalls
unfolding find_handler
tool-Denies id h = ground (arith, h)
