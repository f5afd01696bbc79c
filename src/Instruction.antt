-- ===== src/Instruction.antt =====
-- include/toy/instruction.hpp: operation codes, operands and decoded instructions, and the table
-- `getThreadedHandler` of src/execution_type/threaded_executor.cpp. A pointer to a threaded
-- handler is the name of the function; `null` is the default of the field.
use toy_isa_v1_5_interpreter.Base.{ℕ, List}

pub data Opcode : Type 0 where
  invalid li add addi or ld_reg st stp beq j clz ssat rori bext syscall ld_imm flush : Opcode

pub data OperandType : Type 0 where
  register immediate : OperandType

pub record Operand : Type 0 where
  pub type : OperandType
  pub value : ℕ

pub data ThreadedHandler : Type 0 where
  null : ThreadedHandler
  threaded_li threaded_add threaded_addi threaded_or threaded_ld_reg threaded_ld_imm threaded_st
        threaded_stp threaded_clz threaded_ssat threaded_rori threaded_bext threaded_flush
        threaded_beq threaded_j threaded_syscall threaded_invalid :
      ThreadedHandler

pub record Instruction : Type 0 where
  pub op_code : Opcode
  pub operands : List Operand
  pub threaded_handler : ThreadedHandler

unfoldable pub get_threaded_handler : Opcode → ThreadedHandler
get_threaded_handler Opcode.li = ThreadedHandler.threaded_li
get_threaded_handler Opcode.add = ThreadedHandler.threaded_add
get_threaded_handler Opcode.addi = ThreadedHandler.threaded_addi
get_threaded_handler Opcode.or = ThreadedHandler.threaded_or
get_threaded_handler Opcode.ld_reg = ThreadedHandler.threaded_ld_reg
get_threaded_handler Opcode.st = ThreadedHandler.threaded_st
get_threaded_handler Opcode.stp = ThreadedHandler.threaded_stp
get_threaded_handler Opcode.flush = ThreadedHandler.threaded_flush
get_threaded_handler Opcode.beq = ThreadedHandler.threaded_beq
get_threaded_handler Opcode.j = ThreadedHandler.threaded_j
get_threaded_handler Opcode.clz = ThreadedHandler.threaded_clz
get_threaded_handler Opcode.ssat = ThreadedHandler.threaded_ssat
get_threaded_handler Opcode.rori = ThreadedHandler.threaded_rori
get_threaded_handler Opcode.bext = ThreadedHandler.threaded_bext
get_threaded_handler Opcode.syscall = ThreadedHandler.threaded_syscall
get_threaded_handler Opcode.ld_imm = ThreadedHandler.threaded_ld_imm
get_threaded_handler Opcode.invalid = ThreadedHandler.threaded_invalid
