-- ===== src/Jit/Native/Ends.antt =====
-- The instructions that end a block, and a block that ends without one.
use toy_isa_v1_5_interpreter.Base.{
  ℕ, ◌+◌, ◌≡◌, refl, List, [], ◌∷◌, ◌++◌, false, Option-cases, inl, inr, u32, ◌==◌,
}
use toy_isa_v1_5_interpreter.Instruction.{Opcode, Operand, ThreadedHandler, Instruction}
use toy_isa_v1_5_interpreter.Machine.{ExecutionStatus, Context, fault}
use toy_isa_v1_5_interpreter.Machine.Monad.{
  Exception, bind_outcome, Outcome, returned, thrown, undefined, diverged, operand, get_pc, set_pc,
  advance_pc,
}
use toy_isa_v1_5_interpreter.BlockCache.{find, emplace, flush_instruction_cache}
use toy_isa_v1_5_interpreter.Memory.{take_dirty_code_ranges}
use toy_isa_v1_5_interpreter.Executor.{
  advance_if_running, execute_j, execute_flush, execute_invalid, execute_syscall,
}
use toy_isa_v1_5_interpreter.Engine.{execute_opcode}
use toy_isa_v1_5_interpreter.Syscall
use toy_isa_v1_5_interpreter.Syscall.{Host}
use toy_isa_v1_5_interpreter.Safety.Faults.{After, Stays}
use toy_isa_v1_5_interpreter.Safety.Faults.Ends.{execute-Stays}
use toy_isa_v1_5_interpreter.Jit.Ir
use toy_isa_v1_5_interpreter.Jit.Ir.{
  IrNode, load, store, const, return, call_helper, jit_entry_at, pc_at, Builder, Build, ◌>>=◌, ◌>>◌,
}
use toy_isa_v1_5_interpreter.Jit.Helpers.{execute_instruction_helper, execute_helper}
use toy_isa_v1_5_interpreter.Jit.Meaning.{status_byte, run_nodes}
use toy_isa_v1_5_interpreter.Jit.Encode.{
  jump_target, encode_pc, encode_j, encode_call, encode_exit_if_stopped, encode_opcode,
}
use toy_isa_v1_5_interpreter.Jit.Compile.{updates_pc, encode_next_of, encode_jit_entry_load}
use toy_isa_v1_5_interpreter.Jit.Native.{lookups, at_pc}
use toy_isa_v1_5_interpreter.Jit.Native.Memory.{exit_nodes}
use toy_isa_v1_5_interpreter.Jit.Native.Finish.{finish, ending, Finishes}

-- The outcomes of a system call.
data SyscallEnds (address : ℕ) (r : Outcome (Unit {0})) : Type 0 where
  goes_on :
      (c : Context)
      → r ≡ returned tt c
      → c.state.status ≡ ExecutionStatus.running
      → c.cpu.pc ≡ u32 (address + 4)
      → SyscallEnds address r
  stops :
      (c : Context)
      → r ≡ returned tt c
      → (status_byte c.state.status == 0) ≡ false
      → SyscallEnds address r
  throws : (e : Exception) (c : Context) → r ≡ thrown e c → SyscallEnds address r
  is_undefined : r ≡ undefined → SyscallEnds address r
  is_diverged : r ≡ diverged → SyscallEnds address r

advance_if_running-SyscallEnds :
    (address : ℕ) (c : Context) (status : ExecutionStatus)
    → c.state.status ≡ status
    → c.cpu.pc ≡ address
    → SyscallEnds address (advance_if_running status c)
unfolding advance_pc
advance_if_running-SyscallEnds address c ExecutionStatus.running e h = goes_on _ refl e (rw h refl)
advance_if_running-SyscallEnds address c ExecutionStatus.halted e h = stops c refl (rw e refl)
advance_if_running-SyscallEnds address c ExecutionStatus.faulted e h = stops c refl (rw e refl)

outcome-SyscallEnds :
    (address : ℕ) (d : Context) (r : Outcome (Unit {0}))
    → After Stays (at_pc address d) r
    → SyscallEnds address (bind_outcome r (λ _ c. advance_if_running c.state.status c))
outcome-SyscallEnds address d (returned a c) h =
    advance_if_running-SyscallEnds address c c.state.status refl h
outcome-SyscallEnds address d (thrown e c) h = throws e c refl
outcome-SyscallEnds address d undefined h = is_undefined refl
outcome-SyscallEnds address d diverged h = is_diverged refl

execute_syscall-SyscallEnds :
    (address : ℕ) (host : Host) (inst : Instruction) (d : Context)
    → SyscallEnds address (execute_syscall host inst (at_pc address d))
unfolding execute_syscall
execute_syscall-SyscallEnds address host inst d =
    outcome-SyscallEnds address d (Syscall.execute host (at_pc address d))
      ((execute-Stays host).at (at_pc address d))

module _ (host : Host) (handler : ThreadedHandler) (b : Builder) (address : ℕ) where
  abbrev inst : Opcode → List Operand → Instruction
  inst op operands = record { op_code = op; operands = operands; threaded_handler = handler }

  pub j-Finishes :
      (x : Operand)
      → let i = inst Opcode.j (x ∷ []) in
        Finishes host
          (encode_opcode Opcode.j i address >> ending Opcode.j i address (u32 (address + 4)))
          b
          (λ d. finish Opcode.j d.cpu.pc (execute_j i (at_pc address d)))
  unfolding encode_opcode encode_j encode_pc encode_next_of encode_jit_entry_load updates_pc
      execute_j Ir.operand Ir.emit run_nodes operand get_pc set_pc
  j-Finishes x =
      let target : ℕ = jump_target address x.value in
      record {
        code =
            const target
            ∷ store pc_at b.count
            ∷ load (jit_entry_at target)
            ∷ return (b.count + 1 + 1)
            ∷ [];
        slots = emplace target 0 b.jit_entries;
        built = refl;
        runs = λ f s d ready. elim (Option-cases (find target d.block_cache.jit_entries)) [
          | inl gone ↦ simp (gone, lookups)
          | inr (entry, e) ↦ simp (e, lookups)
        ];
      }

  pub flush-Finishes :
      let i = inst Opcode.flush [] in
      Finishes host
        (encode_opcode Opcode.flush i address >> ending Opcode.flush i address (u32 (address + 4)))
        b
        (λ d. finish Opcode.flush d.cpu.pc (execute_flush i (at_pc address d)))
  unfolding encode_opcode encode_call encode_exit_if_stopped encode_pc encode_next_of updates_pc
      execute_flush Ir.emit run_nodes execute_instruction_helper execute_helper execute_opcode
      flush_instruction_cache take_dirty_code_ranges advance_pc
  flush-Finishes = record {
    code =
        call_helper (inst Opcode.flush []) Opcode.flush
        ∷ (exit_nodes (b.count + 1)
            ++ const (u32 (address + 4))
              ∷ store pc_at (b.count + 1 + 1 + 1 + 1 + 1 + 1 + 1 + 1 + 1)
              ∷ const 0
              ∷ return (b.count + 1 + 1 + 1 + 1 + 1 + 1 + 1 + 1 + 1 + 1 + 1)
              ∷ []);
    slots = b.jit_entries;
    built = refl;
    runs = λ f s d ready. simp (lookups, ready.running);
  }

  pub invalid-Finishes :
      let i = inst Opcode.invalid [] in
      Finishes host
        (encode_opcode Opcode.invalid i address
          >> ending Opcode.invalid i address (u32 (address + 4)))
        b
        (λ d. finish Opcode.invalid d.cpu.pc (execute_invalid i (at_pc address d)))
  unfolding encode_opcode encode_call encode_exit_if_stopped encode_pc encode_next_of updates_pc
      execute_invalid Ir.emit run_nodes execute_instruction_helper execute_helper execute_opcode
      fault
  invalid-Finishes = record {
    code =
        const address
        ∷ store pc_at b.count
        ∷ call_helper (inst Opcode.invalid []) Opcode.invalid
        ∷ (exit_nodes (b.count + 1 + 1 + 1)
            ++ const 0 ∷ return (b.count + 1 + 1 + 1 + 1 + 1 + 1 + 1 + 1 + 1 + 1 + 1) ∷ []);
    slots = b.jit_entries;
    built = refl;
    runs = λ f s d ready. simp lookups;
  }

  pub syscall-Finishes :
      (x : Operand)
      → let i = inst Opcode.syscall (x ∷ []) in
        Finishes host
          (encode_opcode Opcode.syscall i address
            >> ending Opcode.syscall i address (u32 (address + 4)))
          b
          (λ d. finish Opcode.syscall d.cpu.pc (execute_syscall host i (at_pc address d)))
  unfolding encode_opcode encode_call encode_exit_if_stopped encode_pc encode_next_of
      encode_jit_entry_load updates_pc Ir.emit run_nodes execute_instruction_helper execute_helper
      execute_opcode advance_pc fault
  syscall-Finishes x =
      let next : ℕ = u32 (address + 4) in
      let n : ℕ = b.count + 1 + 1 + 1 + 1 + 1 + 1 + 1 + 1 + 1 + 1 + 1 in
      record {
        code =
            const address
            ∷ store pc_at b.count
            ∷ call_helper (inst Opcode.syscall (x ∷ [])) Opcode.syscall
            ∷ (exit_nodes (b.count + 1 + 1 + 1) ++ load (jit_entry_at next) ∷ return n ∷ []);
        slots = emplace next 0 b.jit_entries;
        built = refl;
        runs = λ f s d ready.
            elim (execute_syscall-SyscallEnds address host (inst Opcode.syscall (x ∷ [])) d) [
              | goes_on c e running at_next ↦
                  elim (Option-cases (find next c.block_cache.jit_entries)) [
                    | inl gone ↦ simp (e, lookups, running, at_next, gone)
                    | inr (entry, there) ↦ simp (e, lookups, running, at_next, there)
                  ]
              | stops c e stopped ↦ simp (e, lookups, stopped)
              | throws error c e ↦ simp (e, lookups)
              | is_undefined e ↦ simp (e, lookups)
              | is_diverged e ↦ simp (e, lookups)
            ];
      }
