-- ===== src/Safety/Engines.antt =====
-- Switch execution of a block (src/execution_type/switch_executor.cpp) and the invariant.
use toy_isa_v1_5_interpreter.Base.{List, [], ◌∷◌, All}
use toy_isa_v1_5_interpreter.Instruction.{Opcode, Instruction}
use toy_isa_v1_5_interpreter.Decoder.Shape.{operand_kinds, HaveKinds, IsDecoded}
use toy_isa_v1_5_interpreter.Machine.{BasicBlock}
use toy_isa_v1_5_interpreter.BlockCache.Blocks.{IsBlock}
use toy_isa_v1_5_interpreter.Syscall.{Host}
use toy_isa_v1_5_interpreter.Engine.{
  execute_opcode, execute_instruction_switch, execute_switch_instructions, execute_switch_block,
}
use toy_isa_v1_5_interpreter.Safety.Invariant.{Keeps, Runs-then, Runs-pure}
use toy_isa_v1_5_interpreter.Safety.Executors.{
  execute_li-Keeps, execute_add-Keeps, execute_addi-Keeps, execute_or-Keeps, execute_ld_reg-Keeps,
  execute_ld_imm-Keeps, execute_st-Keeps, execute_stp-Keeps, execute_beq-Keeps, execute_j-Keeps,
  execute_clz-Keeps, execute_ssat-Keeps, execute_rori-Keeps, execute_bext-Keeps,
  execute_invalid-Keeps,
}
use toy_isa_v1_5_interpreter.Safety.Cache.{execute_flush-Keeps}
use toy_isa_v1_5_interpreter.Safety.Host.{ReadsBytes, execute_syscall-Keeps}

module _ (host : Host) (honest : ReadsBytes host) where
  execute_opcode-Keeps :
      (op : Opcode) (inst : Instruction)
      → HaveKinds (operand_kinds op) inst.operands
      → Keeps (execute_opcode host op inst)
  unfolding execute_opcode
  execute_opcode-Keeps Opcode.li = execute_li-Keeps
  execute_opcode-Keeps Opcode.add = execute_add-Keeps
  execute_opcode-Keeps Opcode.addi = execute_addi-Keeps
  execute_opcode-Keeps Opcode.or = execute_or-Keeps
  execute_opcode-Keeps Opcode.ld_reg = execute_ld_reg-Keeps
  execute_opcode-Keeps Opcode.st = execute_st-Keeps
  execute_opcode-Keeps Opcode.stp = execute_stp-Keeps
  execute_opcode-Keeps Opcode.flush = λ inst h. execute_flush-Keeps inst
  execute_opcode-Keeps Opcode.beq = execute_beq-Keeps
  execute_opcode-Keeps Opcode.j = execute_j-Keeps
  execute_opcode-Keeps Opcode.clz = execute_clz-Keeps
  execute_opcode-Keeps Opcode.ssat = execute_ssat-Keeps
  execute_opcode-Keeps Opcode.rori = execute_rori-Keeps
  execute_opcode-Keeps Opcode.bext = execute_bext-Keeps
  execute_opcode-Keeps Opcode.syscall = λ inst h. execute_syscall-Keeps host honest inst
  execute_opcode-Keeps Opcode.ld_imm = execute_ld_imm-Keeps
  execute_opcode-Keeps Opcode.invalid = execute_invalid-Keeps

  execute_switch_instructions-Keeps :
      (insts : List Instruction)
      → All IsDecoded insts
      → Keeps (execute_switch_instructions host insts)
  unfolding execute_switch_instructions execute_instruction_switch
  execute_switch_instructions-Keeps [] h = Runs-pure tt tt
  execute_switch_instructions-Keeps (inst ∷ insts) h =
      Runs-then (execute_opcode-Keeps inst.op_code inst h.0.shaped)
        (execute_switch_instructions-Keeps insts h.1)

  -- Switch execution of a block as the decoder makes it does nothing undefined and leaves a valid
  -- context, whether it returns or throws.
  pub execute_switch_block-Keeps :
      (block : BasicBlock) → IsBlock block.instructions → Keeps (execute_switch_block host block)
  unfolding execute_switch_block
  execute_switch_block-Keeps block h =
      execute_switch_instructions-Keeps block.instructions h.decoded
