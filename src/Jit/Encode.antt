-- ===== src/Jit/Encode.antt =====
-- The encoders of src/execution_type/jit_executor.cpp, one for each instruction.
use toy_isa_v1_5_interpreter.Base.{
  ℕ, ◌+◌, ◌-◌, ◌*◌, ◌^◌, ◌||◌, leb, ◌==◌, if◌then◌else◌, u32, bit_and, bit_or, ◌<<<◌,
}
use toy_isa_v1_5_interpreter.BitUtils.{instruction_size, word_bit_count}
use toy_isa_v1_5_interpreter.Instruction.{Opcode, Instruction}
use toy_isa_v1_5_interpreter.Jit.Ir.{
  register_at, pc_at, status_at, const, load, store, add, or, eq, ne, max_i32, min_i32, ror, zext,
  ctlz, bitcast, call_compress_bits, call_write_memory, call_read_memory, call_helper, branch,
  if_true, if_false, return, Build, ◌>>=◌, ◌>>◌, pure, emit, operand,
}

unfoldable pub encode_exit_if_stopped : Build (Unit {0})
encode_exit_if_stopped = do
  status ← emit (load status_at)
  running ← emit (const 0)
  not_running ← emit (ne status running)
  stopped ← emit (branch not_running)
  emit (if_true stopped)
  null ← emit (const 0)
  emit (return null)
  emit (if_false stopped)
  pure tt

unfoldable pub encode_call : Instruction → Opcode → Build (Unit {0})
encode_call inst handler = do emit (call_helper inst handler); encode_exit_if_stopped

unfoldable pub encode_li : Instruction → Build (Unit {0})
encode_li inst = do
  rt ← operand inst 0
  value ← operand inst 1
  constant ← emit (const value)
  emit (store (register_at rt) constant)
  pure tt

unfoldable pub encode_add : Instruction → Build (Unit {0})
encode_add inst = do
  rd ← operand inst 0
  rs ← operand inst 1
  rt ← operand inst 2
  rs_val ← emit (load (register_at rs))
  rt_val ← emit (load (register_at rt))
  sum ← emit (add rs_val rt_val)
  emit (store (register_at rd) sum)
  pure tt

unfoldable pub encode_addi : Instruction → Build (Unit {0})
encode_addi inst = do
  rd ← operand inst 0
  rs ← operand inst 1
  immediate ← operand inst 2
  rs_val ← emit (load (register_at rs))
  constant ← emit (const immediate)
  sum ← emit (add rs_val constant)
  emit (store (register_at rd) sum)
  pure tt

unfoldable pub encode_or : Instruction → Build (Unit {0})
encode_or inst = do
  rd ← operand inst 0
  rs ← operand inst 1
  rt ← operand inst 2
  rs_val ← emit (load (register_at rs))
  rt_val ← emit (load (register_at rt))
  value ← emit (or rs_val rt_val)
  emit (store (register_at rd) value)
  pure tt

-- The zero test keeps the argument of `ir_CTLZ_U32` from 0.
unfoldable pub encode_clz : Instruction → Build (Unit {0})
encode_clz inst = do
  rd ← operand inst 0
  rs ← operand inst 1
  rs_val ← emit (load (register_at rs))
  nought ← emit (const 0)
  is_zero ← emit (eq rs_val nought)
  adjustment ← emit (zext is_zero)
  safe ← emit (or rs_val adjustment)
  leading ← emit (ctlz safe)
  value ← emit (add leading adjustment)
  emit (store (register_at rd) value)
  pure tt

-- An `int32_t` constant is its bit pattern.
unfoldable pub encode_ssat : Instruction → Build (Unit {0})
encode_ssat inst = do
  rd ← operand inst 0
  rs ← operand inst 1
  width ← operand inst 2
  if width == 0 || leb word_bit_count width then encode_call inst Opcode.ssat else (do
    rs_val ← emit (load (register_at rs))
    signed ← emit (bitcast rs_val)
    minimum ← emit (const (2 ^ 32 - 1 - ((1 <<< (width - 1)) - 1)))
    lower ← emit (max_i32 signed minimum)
    maximum ← emit (const ((1 <<< (width - 1)) - 1))
    saturated ← emit (min_i32 lower maximum)
    value ← emit (bitcast saturated)
    emit (store (register_at rd) value)
    pure tt)

unfoldable pub encode_rori : Instruction → Build (Unit {0})
encode_rori inst = do
  rd ← operand inst 0
  rs ← operand inst 1
  shift ← operand inst 2
  rs_val ← emit (load (register_at rs))
  constant ← emit (const shift)
  value ← emit (ror rs_val constant)
  emit (store (register_at rd) value)
  pure tt

unfoldable pub encode_bext : Instruction → Build (Unit {0})
encode_bext inst = do
  rd ← operand inst 0
  rs1 ← operand inst 1
  rs2 ← operand inst 2
  rs1_val ← emit (load (register_at rs1))
  rs2_val ← emit (load (register_at rs2))
  value ← emit (call_compress_bits rs1_val rs2_val)
  emit (store (register_at rd) value)
  pure tt

unfoldable pub encode_ld_imm : Instruction → Build (Unit {0})
encode_ld_imm inst = do
  rt ← operand inst 0
  base ← operand inst 1
  immediate ← operand inst 2
  base_val ← emit (load (register_at base))
  constant ← emit (const immediate)
  address ← emit (add base_val constant)
  value ← emit (call_read_memory address)
  encode_exit_if_stopped
  emit (store (register_at rt) value)
  pure tt

unfoldable pub encode_ld_reg : Instruction → Build (Unit {0})
encode_ld_reg inst = do
  rt ← operand inst 0
  base ← operand inst 1
  rm ← operand inst 2
  base_val ← emit (load (register_at base))
  rm_val ← emit (load (register_at rm))
  address ← emit (add base_val rm_val)
  value ← emit (call_read_memory address)
  encode_exit_if_stopped
  emit (store (register_at rt) value)
  pure tt

unfoldable pub encode_st : Instruction → Build (Unit {0})
encode_st inst = do
  rt ← operand inst 0
  base ← operand inst 1
  immediate ← operand inst 2
  base_val ← emit (load (register_at base))
  constant ← emit (const immediate)
  address ← emit (add base_val constant)
  value ← emit (load (register_at rt))
  emit (call_write_memory address value)
  encode_exit_if_stopped

unfoldable pub encode_stp : Instruction → Build (Unit {0})
encode_stp inst = do
  rt1 ← operand inst 0
  rt2 ← operand inst 1
  base ← operand inst 2
  immediate ← operand inst 3
  base_val ← emit (load (register_at base))
  constant ← emit (const immediate)
  first ← emit (add base_val constant)
  word ← emit (const instruction_size)
  second ← emit (add first word)
  value1 ← emit (load (register_at rt1))
  value2 ← emit (load (register_at rt2))
  emit (call_write_memory first value1)
  encode_exit_if_stopped
  emit (call_write_memory second value2)
  encode_exit_if_stopped

unfoldable pub encode_pc : ℕ → Build (Unit {0})
encode_pc value = do constant ← emit (const value); emit (store pc_at constant); pure tt

abbrev pub jump_target : ℕ → ℕ → ℕ
jump_target address target = bit_or (bit_and address 0xF0000000) (u32 (target * instruction_size))

unfoldable pub encode_j : Instruction → ℕ → Build (Unit {0})
encode_j inst address = do target ← operand inst 0; encode_pc (jump_target address target)

-- The `switch` of `encodeInstruction`; a BEQ that is not the last instruction is `default`.
unfoldable pub encode_opcode : Opcode → Instruction → ℕ → Build (Unit {0})
encode_opcode Opcode.li inst address = encode_li inst
encode_opcode Opcode.add inst address = encode_add inst
encode_opcode Opcode.addi inst address = encode_addi inst
encode_opcode Opcode.or inst address = encode_or inst
encode_opcode Opcode.ld_reg inst address = encode_ld_reg inst
encode_opcode Opcode.st inst address = encode_st inst
encode_opcode Opcode.stp inst address = encode_stp inst
encode_opcode Opcode.flush inst address =
    encode_call inst Opcode.flush >> encode_pc (u32 (address + instruction_size))
encode_opcode Opcode.j inst address = encode_j inst address
encode_opcode Opcode.clz inst address = encode_clz inst
encode_opcode Opcode.ssat inst address = encode_ssat inst
encode_opcode Opcode.rori inst address = encode_rori inst
encode_opcode Opcode.bext inst address = encode_bext inst
encode_opcode Opcode.syscall inst address = encode_pc address >> encode_call inst Opcode.syscall
encode_opcode Opcode.ld_imm inst address = encode_ld_imm inst
encode_opcode Opcode.invalid inst address = encode_pc address >> encode_call inst Opcode.invalid
encode_opcode Opcode.beq inst address = encode_pc address >> encode_call inst Opcode.invalid
