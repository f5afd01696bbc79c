-- ===== src/Executor.antt =====
-- src/toy/executor.cpp: one function for each instruction. A read or write of a register or of an
-- operand that is not there is undefined.
use toy_isa_v1_5_interpreter.Base.{◌+◌, ◌*◌, bit_and, bit_or, ◌==◌, if◌then◌else◌, u32}
use toy_isa_v1_5_interpreter.BitUtils.{instruction_size, word_size}
use toy_isa_v1_5_interpreter.Checked.{ErrorCode}
use toy_isa_v1_5_interpreter.Instruction.{Instruction}
use toy_isa_v1_5_interpreter.Machine.{ExecutionStatus}
use toy_isa_v1_5_interpreter.Machine.Monad.{
  M, returned, thrown, simulation, lift_checked, operand, get_register, set_register, get_pc,
  set_pc, advance_pc, load_word, store_word, ◌>>=◌, ◌>>◌,
}
use toy_isa_v1_5_interpreter.Arith.{
  count_leading_zeros, saturate_signed, rotate_right, compress_bits,
}
use toy_isa_v1_5_interpreter.BlockCache.{flush_instruction_cache}
use toy_isa_v1_5_interpreter.Syscall.{Host}
use toy_isa_v1_5_interpreter.Syscall

unfoldable pub execute_li : Instruction → M (Unit {0})
execute_li inst = do rt ← operand inst 0; value ← operand inst 1; set_register rt value; advance_pc

unfoldable pub execute_add : Instruction → M (Unit {0})
execute_add inst = do
  rd ← operand inst 0
  rs ← operand inst 1
  rt ← operand inst 2
  a ← get_register rs
  b ← get_register rt
  set_register rd (u32 (a + b))
  advance_pc

unfoldable pub execute_addi : Instruction → M (Unit {0})
execute_addi inst = do
  rt ← operand inst 0
  rs ← operand inst 1
  immediate ← operand inst 2
  a ← get_register rs
  set_register rt (u32 (a + immediate))
  advance_pc

unfoldable pub execute_or : Instruction → M (Unit {0})
execute_or inst = do
  rd ← operand inst 0
  rs ← operand inst 1
  rt ← operand inst 2
  a ← get_register rs
  b ← get_register rt
  set_register rd (bit_or a b)
  advance_pc

unfoldable pub execute_ld_reg : Instruction → M (Unit {0})
execute_ld_reg inst = do
  rt ← operand inst 0
  base ← operand inst 1
  rm ← operand inst 2
  a ← get_register base
  b ← get_register rm
  value ← load_word (u32 (a + b))
  set_register rt value
  advance_pc

unfoldable pub execute_ld_imm : Instruction → M (Unit {0})
execute_ld_imm inst = do
  rt ← operand inst 0
  base ← operand inst 1
  immediate ← operand inst 2
  a ← get_register base
  value ← load_word (u32 (a + immediate))
  set_register rt value
  advance_pc

unfoldable pub execute_st : Instruction → M (Unit {0})
execute_st inst = do
  rt ← operand inst 0
  base ← operand inst 1
  immediate ← operand inst 2
  a ← get_register base
  value ← get_register rt
  store_word (u32 (a + immediate)) value
  advance_pc

unfoldable pub execute_stp : Instruction → M (Unit {0})
execute_stp inst = do
  rt1 ← operand inst 0
  rt2 ← operand inst 1
  base ← operand inst 2
  immediate ← operand inst 3
  a ← get_register base
  first ← get_register rt1
  store_word (u32 (a + immediate)) first
  second ← get_register rt2
  store_word (u32 (u32 (a + immediate) + word_size)) second
  advance_pc

unfoldable pub execute_flush : Instruction → M (Unit {0})
execute_flush inst = do flush_instruction_cache; advance_pc

unfoldable pub execute_beq : Instruction → M (Unit {0})
execute_beq inst = do
  rs ← operand inst 0
  rt ← operand inst 1
  a ← get_register rs
  b ← get_register rt
  if a == b
      then (do
        offset ← operand inst 2
        pc ← get_pc
        set_pc (u32 (pc + u32 (offset * instruction_size))))
      else advance_pc

unfoldable pub execute_j : Instruction → M (Unit {0})
execute_j inst = do
  target ← operand inst 0
  pc ← get_pc
  set_pc (bit_or (bit_and pc 0xF0000000) (u32 (target * instruction_size)))

unfoldable pub execute_clz : Instruction → M (Unit {0})
execute_clz inst = do
  rd ← operand inst 0
  rs ← operand inst 1
  a ← get_register rs
  set_register rd (count_leading_zeros a)
  advance_pc

unfoldable pub execute_ssat : Instruction → M (Unit {0})
execute_ssat inst = do
  rd ← operand inst 0
  rs ← operand inst 1
  width ← operand inst 2
  a ← get_register rs
  value ← λ c. lift_checked (saturate_signed a width) c
  set_register rd value
  advance_pc

unfoldable pub execute_rori : Instruction → M (Unit {0})
execute_rori inst = do
  rd ← operand inst 0
  rs ← operand inst 1
  shift ← operand inst 2
  a ← get_register rs
  set_register rd (rotate_right a shift)
  advance_pc

unfoldable pub execute_bext : Instruction → M (Unit {0})
execute_bext inst = do
  rd ← operand inst 0
  rs1 ← operand inst 1
  rs2 ← operand inst 2
  a ← get_register rs1
  mask ← get_register rs2
  set_register rd (compress_bits a mask)
  advance_pc

-- The program counter moves on only while the status is RUNNING.
abbrev pub advance_if_running : ExecutionStatus → M (Unit {0})
advance_if_running ExecutionStatus.running c = advance_pc c
advance_if_running _ c = returned tt c

unfoldable pub execute_syscall : Host → Instruction → M (Unit {0})
execute_syscall host inst = do Syscall.execute host; λ c. advance_if_running c.state.status c

unfoldable pub execute_invalid : Instruction → M (Unit {0})
execute_invalid inst c = thrown (simulation ErrorCode.invalid_instruction) c
