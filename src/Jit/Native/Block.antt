-- ===== src/Jit/Native/Block.antt =====
-- A whole block: the nodes of `compileBlock` (src/execution_type/jit_executor.cpp) against
-- `executeSwitchBlock` (src/execution_type/switch_executor.cpp).
use toy_isa_v1_5_interpreter.Base.{
  ℕ, ◌+◌, ◌-◌, ◌*◌, ◌^◌, ◌<◌, ◌≡◌, refl, arith, ap₂, if◌then◌else◌, List, [], ◌∷◌, ◌++◌, All, some,
  length, u32,
}
use toy_isa_v1_5_interpreter.Instruction.{Opcode, Instruction}
use toy_isa_v1_5_interpreter.Machine.{Context, BasicBlock}
use toy_isa_v1_5_interpreter.Machine.Monad.{Outcome, undefined}
use toy_isa_v1_5_interpreter.Decoder.Shape.{IsDecoded}
use toy_isa_v1_5_interpreter.BlockCache.{end_address}
use toy_isa_v1_5_interpreter.BlockCache.Blocks.{EndsOnce}
use toy_isa_v1_5_interpreter.Engine.{execute_opcode}
use toy_isa_v1_5_interpreter.Syscall.{Host}
use toy_isa_v1_5_interpreter.Jit.Ir
use toy_isa_v1_5_interpreter.Jit.Ir.{
  Ref, IrNode, start, param, return, Builder, Build, ◌>>=◌, ◌>>◌, emit,
}
use toy_isa_v1_5_interpreter.Jit.Encode.{encode_opcode, encode_pc}
use toy_isa_v1_5_interpreter.Jit.Compile.{
  updates_pc, last_instruction, encode_instructions, encode_end_pc, encode_next_of,
  encode_next_jit_entry,
}
use toy_isa_v1_5_interpreter.Jit.Native.{extend, at_pc, follow, Translates}
use toy_isa_v1_5_interpreter.Jit.Native.Finish.{finish, ending, Finishes}
use toy_isa_v1_5_interpreter.Jit.Native.Inner.{encode_opcode-Translates}
use toy_isa_v1_5_interpreter.Jit.Native.Last.{
  extend-append, built-then_then, encode_last, last-Finishes,
}

-- What `compileBlock` builds behind the instructions.
abbrev pub finish_block : BasicBlock → Build (Unit {0})
finish_block block = do
  encode_end_pc block
  next ← encode_next_jit_entry block
  emit (return next)
  Ir.pure tt

encode_instructions-last :
    (inst : Instruction) (address : ℕ)
    → encode_instructions (inst ∷ []) address ≡ encode_last inst.op_code inst address
unfolding encode_instructions
encode_instructions-last inst address = one inst.op_code
  where
    one :
        (op : Opcode)
        → elim op [ Opcode.beq ↦ Ir.pure tt | other ↦ encode_opcode other inst address ]
          ≡ encode_last op inst address
    one Opcode.beq = refl
    one _ = refl

-- The end of a block is that of its last instruction.
module _ (block : BasicBlock) (inst : Instruction) (address : ℕ)
    (last : last_instruction block.instructions ≡ some inst)
    (end : end_address block ≡ u32 (address + 4)) where
  encode_end_pc-last :
      encode_end_pc block
      ≡ (if updates_pc inst.op_code then Ir.pure tt else encode_pc (u32 (address + 4)))
  unfolding encode_end_pc
  encode_end_pc-last = rw (encode_end_pc, last, end) refl

  encode_next_jit_entry-last :
      address < 2 ^ 32
      → encode_next_jit_entry block ≡ encode_next_of inst.op_code inst address (u32 (address + 4))
  unfolding encode_next_jit_entry
  encode_next_jit_entry-last word =
      let back : u32 (u32 (address + 4) + 2 ^ 32 - 4) ≡ address = omega arith in
      rw (encode_next_jit_entry, last, end, back) refl

  finish_block-ending :
      address < 2 ^ 32 → finish_block block ≡ ending inst.op_code inst address (u32 (address + 4))
  finish_block-ending word =
      ap₂
        (λ (m : Build (Unit {0})) (k : Build Ref).
          m >> (k >>= λ next. emit (return next) >> Ir.pure tt))
        encode_end_pc-last (encode_next_jit_entry-last word)

module _ (host : Host) where
  -- What native code makes of a block, from the program counter with which it was entered.
  abbrev pub native : List Instruction → ℕ → Context → Outcome ℕ
  native [] address d = undefined
  native (inst ∷ []) address d =
      finish inst.op_code d.cpu.pc (execute_opcode host inst.op_code inst (at_pc address d))
  native (inst ∷ (next ∷ rest)) address d =
      follow d.cpu.pc (execute_opcode host inst.op_code inst (at_pc address d))
        (native (next ∷ rest) (u32 (address + 4)))

  pub instructions-Finishes :
      (block : BasicBlock) (insts : List Instruction) (address : ℕ) (b : Builder)
      → EndsOnce insts
      → All IsDecoded insts
      → address < 2 ^ 32
      → last_instruction block.instructions ≡ last_instruction insts
      → end_address block ≡ u32 (address + u32 (length insts * 4))
      → Finishes host
          (encode_instructions insts address >> finish_block block)
          b
          (native insts address)
  unfolding encode_instructions
  instructions-Finishes block [] address b once decoded word last end = absurd once
  instructions-Finishes block (inst ∷ []) address b once decoded word last end =
      let ends : end_address block ≡ u32 (address + 4) = end in
      let done =
        last-Finishes host inst.threaded_handler b address inst.op_code inst.operands
          decoded.0.shaped in
      record {
        code = done.code;
        slots = done.slots;
        built =
            rw
              (
                encode_instructions-last inst address,
                finish_block-ending block inst address last ends word,
              )
              done.built;
        runs = done.runs;
      }
  instructions-Finishes block (inst ∷ (next ∷ rest)) address b once decoded word last end =
      let t : Translates host (encode_opcode inst.op_code inst address) b
          (execute_opcode host inst.op_code inst) address =
        encode_opcode-Translates host inst.threaded_handler b address inst.op_code inst.operands
          once.0 decoded.0.shaped in
      let done : Finishes host
          (encode_instructions (next ∷ rest) (u32 (address + 4)) >> finish_block block)
          (extend t.code b) (native (next ∷ rest) (u32 (address + 4))) =
        instructions-Finishes block (next ∷ rest) (u32 (address + 4)) (extend t.code b) once.1
          decoded.1 (omega arith) last (omega arith) in
      record {
        code = t.code ++ done.code;
        slots = done.slots;
        built =
            built-then_then (encode_opcode inst.op_code inst address)
              (encode_instructions (next ∷ rest) (u32 (address + 4))) (finish_block block) b
              (extend t.code b) t.built (rw (extend-append t.code done.code b) done.built);
        runs = λ f s d ready.
            t.runs done.code s (native (next ∷ rest) (u32 (address + 4)))
              (λ g c on. done.runs g s c on) f d ready;
      }
