-- ===== src/Jit/Native/Branch.antt =====
-- The branch at the end of a block, for which native code has two ways.
use toy_isa_v1_5_interpreter.Base.{
  ℕ, ◌+◌, ◌*◌, refl, List, [], ◌∷◌, Bool-cases, Option-cases, inl, inr, u32, ◌==◌,
}
use toy_isa_v1_5_interpreter.Instruction.{Opcode, Operand, ThreadedHandler, Instruction}
use toy_isa_v1_5_interpreter.Machine.Monad.{operand, get_pc, set_pc, advance_pc}
use toy_isa_v1_5_interpreter.Decoder.Shape.{operand_kinds, HaveKinds}
use toy_isa_v1_5_interpreter.BlockCache.{find, emplace}
use toy_isa_v1_5_interpreter.Executor.{execute_beq}
use toy_isa_v1_5_interpreter.Syscall.{Host}
use toy_isa_v1_5_interpreter.Jit.Ir
use toy_isa_v1_5_interpreter.Jit.Ir.{
  IrNode, load, store, const, eq, branch, if_true, if_false, end, merge, phi, return, jit_entry_at,
  register_at, pc_at, Builder,
}
use toy_isa_v1_5_interpreter.Jit.Meaning.{run_nodes}
use toy_isa_v1_5_interpreter.Jit.Encode.{encode_pc}
use toy_isa_v1_5_interpreter.Jit.Compile.{
  updates_pc, encode_next_of, encode_jit_entry_load, encode_beq,
}
use toy_isa_v1_5_interpreter.Jit.Native.{lookups, at_pc, get_register-reads}
use toy_isa_v1_5_interpreter.Jit.Native.Finish.{finish, ending, Finishes}

module _ (host : Host) (handler : ThreadedHandler) (b : Builder) (address : ℕ) where
  abbrev inst : Opcode → List Operand → Instruction
  inst op operands = record { op_code = op; operands = operands; threaded_handler = handler }

  pub beq-Finishes :
      (x y z : Operand)
      → HaveKinds (operand_kinds Opcode.beq) (x ∷ y ∷ z ∷ [])
      → let i = inst Opcode.beq (x ∷ y ∷ z ∷ []) in
        Finishes host
          (ending Opcode.beq i address (u32 (address + 4)))
          b
          (λ d. finish Opcode.beq d.cpu.pc (execute_beq i (at_pc address d)))
  unfolding encode_pc encode_beq encode_next_of encode_jit_entry_load updates_pc execute_beq
      Ir.operand Ir.emit run_nodes operand get_pc set_pc advance_pc
  beq-Finishes x y z h =
      let taken : ℕ = u32 (address + u32 (z.value * 4)) in
      let passed : ℕ = u32 (address + 4) in
      record {
        code =
            load (register_at x.value)
            ∷ load (register_at y.value)
            ∷ eq b.count (b.count + 1)
            ∷ branch (b.count + 1 + 1)
            ∷ if_true (b.count + 1 + 1 + 1)
            ∷ load (jit_entry_at taken)
            ∷ const taken
            ∷ store pc_at (b.count + 1 + 1 + 1 + 1 + 1 + 1)
            ∷ end
            ∷ if_false (b.count + 1 + 1 + 1)
            ∷ load (jit_entry_at passed)
            ∷ const passed
            ∷ store pc_at (b.count + 1 + 1 + 1 + 1 + 1 + 1 + 1 + 1 + 1 + 1 + 1)
            ∷ end
            ∷ merge (b.count + 1 + 1 + 1 + 1 + 1 + 1 + 1 + 1)
                (b.count + 1 + 1 + 1 + 1 + 1 + 1 + 1 + 1 + 1 + 1 + 1 + 1 + 1)
            ∷ phi (b.count + 1 + 1 + 1 + 1 + 1) (b.count + 1 + 1 + 1 + 1 + 1 + 1 + 1 + 1 + 1 + 1)
            ∷ return (b.count + 1 + 1 + 1 + 1 + 1 + 1 + 1 + 1 + 1 + 1 + 1 + 1 + 1 + 1 + 1)
            ∷ [];
        slots = emplace passed 0 (emplace taken 0 b.jit_entries);
        built = refl;
        runs = λ f s d ready.
            let (v, v-word, e, e') = get_register-reads x.value address d h.0.1 ready.valid in
            let (w, w-word, e1, e1') = get_register-reads y.value address d h.1.0.1 ready.valid in
            elim (Bool-cases (v == w)) [
              | inl same ↦ elim (Option-cases (find taken d.block_cache.jit_entries)) [
                | inl gone ↦ simp (e, e', e1, e1', same, gone, lookups)
                | inr (entry, there) ↦ simp (e, e', e1, e1', same, there, lookups)
              ]
              | inr differ ↦ elim (Option-cases (find passed d.block_cache.jit_entries)) [
                | inl gone ↦ simp (e, e', e1, e1', differ, gone, lookups)
                | inr (entry, there) ↦ simp (e, e', e1, e1', differ, there, lookups)
              ]
            ];
      }
