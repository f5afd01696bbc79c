-- ===== src/Engine/Agree.antt =====
-- The two interpreters on one block: src/execution_type/switch_executor.cpp against
-- src/execution_type/threaded_executor.cpp.
use toy_isa_v1_5_interpreter.Base.{All, List, [], ◌∷◌, ◌≡◌, refl, false, sym, ap, ap₂, ◌∙◌}
use toy_isa_v1_5_interpreter.Instruction.{
  Opcode, ThreadedHandler, Instruction, get_threaded_handler,
}
use toy_isa_v1_5_interpreter.Machine.{BasicBlock}
use toy_isa_v1_5_interpreter.Machine.Monad.{M, pure, bind-pure, ◌>>◌}
use toy_isa_v1_5_interpreter.BlockCache.{ends_block}
use toy_isa_v1_5_interpreter.BlockCache.Blocks.{EndsOnce, IsBlock}
use toy_isa_v1_5_interpreter.Decoder.Shape.{IsDecoded}
use toy_isa_v1_5_interpreter.Syscall.{Host}
use toy_isa_v1_5_interpreter.Engine.{
  execute_opcode, execute_instruction_switch, execute_switch_instructions, call_handler,
  execute_threaded_instructions, execute_switch_block, execute_threaded_block,
}

module _ (host : Host) where
  call_handler-last :
      (op : Opcode) (inst : Instruction)
      → call_handler host (get_threaded_handler op) inst (pure tt) ≡ execute_opcode host op inst
  unfolding call_handler execute_opcode get_threaded_handler
  call_handler-last Opcode.syscall inst = refl
  call_handler-last Opcode.flush inst = refl
  call_handler-last Opcode.beq inst = refl
  call_handler-last Opcode.j inst = refl
  call_handler-last Opcode.invalid inst = refl
  call_handler-last _ inst = bind-pure _

  call_handler-inner :
      (op : Opcode) (inst : Instruction) (next : M (Unit {0}))
      → ends_block op ≡ false
      → call_handler host (get_threaded_handler op) inst next
        ≡ (execute_opcode host op inst >> next)
  unfolding call_handler execute_opcode get_threaded_handler ends_block
  call_handler-inner Opcode.syscall inst next h = cc
  call_handler-inner Opcode.flush inst next h = cc
  call_handler-inner Opcode.beq inst next h = cc
  call_handler-inner Opcode.j inst next h = cc
  call_handler-inner Opcode.invalid inst next h = cc
  call_handler-inner _ inst next h = refl

  threaded_eq_switch :
      (insts : List Instruction)
      → EndsOnce insts
      → All IsDecoded insts
      → execute_threaded_instructions host insts ≡ execute_switch_instructions host insts
  unfolding execute_threaded_instructions execute_switch_instructions execute_instruction_switch
  threaded_eq_switch [] h d = absurd h
  threaded_eq_switch (inst ∷ []) h d =
      ap (λ (t : ThreadedHandler). call_handler host t inst (pure tt)) d.0.handled
      ∙ call_handler-last inst.op_code inst
      ∙ sym (bind-pure _)
  threaded_eq_switch (inst ∷ (next ∷ rest)) h d =
      ap₂ (λ (t : ThreadedHandler) (k : M (Unit {0})). call_handler host t inst k) d.0.handled
        (threaded_eq_switch (next ∷ rest) h.1 d.1)
      ∙ call_handler-inner inst.op_code inst (execute_switch_instructions host (next ∷ rest)) h.0

  -- On a block as the decoder makes it, threaded execution and switch execution have the same
  -- outcome from every context.
  pub execute_threaded_block-eq-execute_switch_block :
      (block : BasicBlock)
      → IsBlock block.instructions
      → execute_threaded_block host block ≡ execute_switch_block host block
  unfolding execute_threaded_block execute_switch_block
  execute_threaded_block-eq-execute_switch_block block h =
      threaded_eq_switch block.instructions h.ends_once h.decoded
