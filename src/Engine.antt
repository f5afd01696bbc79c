-- ===== src/Engine.antt =====
-- src/execution_type/switch_executor.cpp and threaded_executor.cpp: the two interpreters of a basic
-- block. A call of a handler is the last act of the one before it, so the threaded chain is a
-- recursion on the instructions that are left.
pub mod Agree
use toy_isa_v1_5_interpreter.Base.{List, [], ◌∷◌}
use toy_isa_v1_5_interpreter.Instruction.{Opcode, ThreadedHandler, Instruction}
use toy_isa_v1_5_interpreter.Machine.{BasicBlock}
use toy_isa_v1_5_interpreter.Machine.Monad.{M, undefined, pure, ◌>>=◌, ◌>>◌}
use toy_isa_v1_5_interpreter.Syscall.{Host}
use toy_isa_v1_5_interpreter.Executor.{
  execute_li, execute_add, execute_addi, execute_or, execute_ld_reg, execute_ld_imm, execute_st,
  execute_stp, execute_flush, execute_beq, execute_j, execute_clz, execute_ssat, execute_rori,
  execute_bext, execute_syscall, execute_invalid,
}

module _ (host : Host) where
  -- The `switch` on the operation code.
  unfoldable pub execute_opcode : Opcode → Instruction → M (Unit {0})
  execute_opcode Opcode.li inst = execute_li inst
  execute_opcode Opcode.add inst = execute_add inst
  execute_opcode Opcode.addi inst = execute_addi inst
  execute_opcode Opcode.or inst = execute_or inst
  execute_opcode Opcode.ld_reg inst = execute_ld_reg inst
  execute_opcode Opcode.st inst = execute_st inst
  execute_opcode Opcode.stp inst = execute_stp inst
  execute_opcode Opcode.flush inst = execute_flush inst
  execute_opcode Opcode.beq inst = execute_beq inst
  execute_opcode Opcode.j inst = execute_j inst
  execute_opcode Opcode.clz inst = execute_clz inst
  execute_opcode Opcode.ssat inst = execute_ssat inst
  execute_opcode Opcode.rori inst = execute_rori inst
  execute_opcode Opcode.bext inst = execute_bext inst
  execute_opcode Opcode.syscall inst = execute_syscall host inst
  execute_opcode Opcode.ld_imm inst = execute_ld_imm inst
  execute_opcode Opcode.invalid inst = execute_invalid inst

  unfoldable pub execute_instruction_switch : Instruction → M (Unit {0})
  unfolding execute_opcode
  execute_instruction_switch inst = execute_opcode inst.op_code inst

  unfoldable pub execute_switch_instructions : List Instruction → M (Unit {0})
  execute_switch_instructions [] = pure tt
  execute_switch_instructions (inst ∷ rest) =
      execute_instruction_switch inst >> execute_switch_instructions rest

  unfoldable pub execute_switch_block : BasicBlock → M (Unit {0})
  execute_switch_block block = execute_switch_instructions block.instructions

  -- The handler at the instruction `inst`; `next` is `DISPATCH_NEXT`.
  unfoldable pub call_handler : ThreadedHandler → Instruction → M (Unit {0}) → M (Unit {0})
  call_handler ThreadedHandler.threaded_li inst next = execute_li inst >> next
  call_handler ThreadedHandler.threaded_add inst next = execute_add inst >> next
  call_handler ThreadedHandler.threaded_addi inst next = execute_addi inst >> next
  call_handler ThreadedHandler.threaded_or inst next = execute_or inst >> next
  call_handler ThreadedHandler.threaded_ld_reg inst next = execute_ld_reg inst >> next
  call_handler ThreadedHandler.threaded_ld_imm inst next = execute_ld_imm inst >> next
  call_handler ThreadedHandler.threaded_st inst next = execute_st inst >> next
  call_handler ThreadedHandler.threaded_stp inst next = execute_stp inst >> next
  call_handler ThreadedHandler.threaded_clz inst next = execute_clz inst >> next
  call_handler ThreadedHandler.threaded_ssat inst next = execute_ssat inst >> next
  call_handler ThreadedHandler.threaded_rori inst next = execute_rori inst >> next
  call_handler ThreadedHandler.threaded_bext inst next = execute_bext inst >> next
  call_handler ThreadedHandler.threaded_flush inst next = execute_flush inst
  call_handler ThreadedHandler.threaded_beq inst next = execute_beq inst
  call_handler ThreadedHandler.threaded_j inst next = execute_j inst
  call_handler ThreadedHandler.threaded_syscall inst next = execute_syscall host inst
  call_handler ThreadedHandler.threaded_invalid inst next = execute_invalid inst
  call_handler ThreadedHandler.null inst next = λ c. undefined

  -- The call at `Current`, with the instructions up to `End`; an empty block has none to read.
  unfoldable pub execute_threaded_instructions : List Instruction → M (Unit {0})
  execute_threaded_instructions [] = λ c. undefined
  execute_threaded_instructions (inst ∷ []) = call_handler inst.threaded_handler inst (pure tt)
  execute_threaded_instructions (inst ∷ (next ∷ rest)) =
      call_handler inst.threaded_handler inst (execute_threaded_instructions (next ∷ rest))

  unfoldable pub execute_threaded_block : BasicBlock → M (Unit {0})
  execute_threaded_block block = execute_threaded_instructions block.instructions
