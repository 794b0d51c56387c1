-- ===== src/Tool/Execution.antt =====
-- Programs that run to their end: tools/yeti_main.cxx and the machine, from a program
-- file to the system call that ends it.
use yeti_vm.Base.{ℕ, suc, ◌+◌, ◌%◌, ◌≡◌, refl, sym, subst, ◌∙◌, arith, Bool, true, false}
use yeti_vm.Base.Exec.{ok, pure, ◌>>=◌}
use yeti_vm.Vm.Step.{run}
use yeti_vm.Memory.Image.{peek}
use yeti_vm.Vm.State.{Vm}
use yeti_vm.Vm.Setup
use yeti_vm.Vm.Start.{at_start}
use yeti_vm.Vm.Program.{Agree}
use yeti_vm.Tool.Loader.{ProgramData}
use yeti_vm.Tool.RunVm.{run_vm, ran}
use yeti_vm.Tool.Safety.{tool_syscalls}
use yeti_vm.Tool.Boot.{ready, run_vm-ready}
use yeti_vm.Hex.Files.{FilePath}
use yeti_vm.Tool.Prepare.{tool_mmu-IsMmu, tool_vm, tool_regions}
use yeti_vm.Tool.Programs.{ProgramFile, ProgramFile-Ready, entry_point, program_image}
use yeti_vm.Isa.Manual.{at_pc}
use yeti_vm.Isa.Represents.{Represents, arch}
use yeti_vm.Isa.Traces.{Trace, there, step, run-Asks, answered}
use yeti_vm.Isa.Arch.{Arch, InRegion, Asks, pc}
use yeti_vm.Tool.Answers.{ToolCall, exit_number, tool-Halts, tool-Answers}
use yeti_vm.Isa.Fetch.{InRegion-Accessible}
use yeti_vm.Isa.Bounds.{at_pc-IsWords}

-- What the instruction set starts from: registers of 0, and the bytes of the program.
abbrev pub entry_state : ProgramData → Arch
entry_state program = record {
  registers = at_pc (λ _. 0) (entry_point program);
  memory = program_image program;
}

-- The first state of a trace that reaches a system call is at a word.
first_word :
    (n : ℕ) (s last : Arch)
    → Trace (ToolCall tool_regions) tool_regions last n s
    → Asks tool_regions exit_number last
    → (pc s % 4 ≡ 0) × InRegion tool_regions (pc s) 4
first_word _ _ last there a = (a.aligned, a.mapped)
first_word _ _ last (step n s t one more) a = (one.aligned, one.mapped)

-- The machine that `run` gets: in the first state of the instruction set, and running.
pub record Started (null debug : Bool) (program : ProgramData) : Type 0 where
  pub machine : Vm
  pub represents : Represents tool_regions machine (entry_state program).memory
  pub registers : machine.registers ≡ (entry_state program).registers
  pub is_running : machine.running ≡ true
  pub throws : machine.syscall_throw_on_error ≡ true
  pub runs :
      (fuel : ℕ)
      → run_vm null program debug fuel
        ≡ (run tool_syscalls fuel >>= λ stopped. pure (ran stopped)) machine

module _ (null debug : Bool) (file : FilePath) (program : ProgramData)
    (fits : ProgramFile file program) where
  pub started :
      entry_point program % 4 ≡ 0
      → InRegion tool_regions (entry_point program) 4
      → Started null debug program
  unfolding Setup.set_flag Setup.is_initialized
  started al here =
      let x =
        InRegion-Accessible tool_regions (entry_point program) 4 (tool_vm debug) tool_mmu-IsMmu refl
          (omega arith) (omega arith) al here in
      let r = ProgramFile-Ready file program fits in
      let l = r.fits null debug in
      record {
        machine = at_start (ready null debug program l here.region al here.member here.within);
        represents = record {
          mmu = l.IsMmu_after;
          layout = l.regions_after;
          opcodes = refl;
          words = at_pc-IsWords (λ _. 0) (entry_point program) (λ i. omega arith) x.address_lt;
          bytes = r.bytes;
          same = l.image_after;
        };
        registers = refl;
        is_running = refl;
        throws = refl;
        runs = run_vm-ready null debug program l here.region al here.member here.within;
      }

  -- If the instruction set, from registers of 0, the entry point and the bytes of a program, comes
  -- in n steps to the system call exit, the tool runs the program to its end: with n + 1 cycles of
  -- fuel or more it returns that the run has stopped, and leaves the registers and the bytes of the
  -- memory as the instruction set does, with the answer of exit. The program fits the two regions
  -- of the tool; each system call before exit answers 0, and read fills its buffer.
  pub run_vm-Asks :
      (last : Arch) (n : ℕ)
      → Trace (ToolCall tool_regions) tool_regions last n (entry_state program)
      → Asks tool_regions exit_number last
      → (vm : Vm) × ((fuel : ℕ) → run_vm null program debug (n + suc fuel) ≡ (ok (ran true), vm))
        × (vm.registers ≡ answered last.registers)
        × Agree (peek vm.mmu) last.memory
  run_vm-Asks last n trace asks =
      let (al, here) = first_word n (entry_state program) last trace asks in
      let b = started al here in
      let m = program_image program in
      let from : Trace (ToolCall tool_regions) tool_regions last n (arch b.machine m) =
        subst
          (λ regs.
            Trace (ToolCall tool_regions) tool_regions last n
              (record { registers = regs; memory = m }))
          (sym b.registers) trace in
      let (mmu, go, agree) =
        run-Asks tool_syscalls (ToolCall tool_regions) tool_regions last (tool-Answers tool_regions)
          b.machine m n exit_number b.represents b.is_running from asks tool-Halts in
      (
        record b.machine { mmu = mmu; registers = answered last.registers; running = false },
        λ fuel. b.runs (n + suc fuel) ∙ rw (go fuel) refl,
        refl,
        agree,
      )
