-- ===== src/Jit/Compile.antt =====
-- `compileBlock` of src/execution_type/jit_executor.cpp: the IR of a whole basic block.
use toy_isa_v1_5_interpreter.Base.{
  ℕ, ◌+◌, ◌-◌, ◌*◌, ◌^◌, Bool, true, false, Option, none, some, List, [], ◌∷◌, if◌then◌else◌, u32,
}
use toy_isa_v1_5_interpreter.BitUtils.{instruction_size}
use toy_isa_v1_5_interpreter.Instruction.{Opcode, Instruction}
use toy_isa_v1_5_interpreter.Machine.{BasicBlock}
use toy_isa_v1_5_interpreter.BlockCache.{end_address, emplace}
use toy_isa_v1_5_interpreter.Jit.Ir.{
  register_at, jit_entry_at, Ref, start, param, const, load, eq, branch, if_true, if_false, end,
  merge, phi, return, Build, ◌>>=◌, ◌>>◌, pure, emit, operand,
}
use toy_isa_v1_5_interpreter.Jit.Encode.{jump_target, encode_pc, encode_opcode}

unfoldable pub updates_pc : Opcode → Bool
updates_pc Opcode.beq = true
updates_pc Opcode.j = true
updates_pc Opcode.syscall = true
updates_pc Opcode.invalid = true
updates_pc Opcode.flush = true
updates_pc _ = false

-- `jitEntrySlot` makes a slot for the address if there is none.
unfoldable pub encode_jit_entry_load : ℕ → Build Ref
encode_jit_entry_load address b =
    emit (load (jit_entry_at address)) (record b { jit_entries = emplace address 0 b.jit_entries })

-- The loop of `compileBlock`: all instructions but a BEQ at the end.
unfoldable pub encode_instructions : List Instruction → ℕ → Build (Unit {0})
unfolding encode_opcode
encode_instructions [] address = pure tt
encode_instructions (inst ∷ []) address = elim inst.op_code [
  | Opcode.beq ↦ pure tt
  | op ↦ encode_opcode op inst address
]
encode_instructions (inst ∷ (next ∷ rest)) address =
    encode_opcode inst.op_code inst address
    >> encode_instructions (next ∷ rest) (u32 (address + instruction_size))

-- `Instructions.back()`
abbrev pub last_instruction : List Instruction → Option Instruction
last_instruction [] = none
last_instruction (inst ∷ []) = some inst
last_instruction (inst ∷ (next ∷ rest)) = last_instruction (next ∷ rest)

unfoldable pub encode_beq : Instruction → ℕ → Build Ref
encode_beq inst address = do
  rs ← operand inst 0
  rt ← operand inst 1
  offset ← operand inst 2
  let taken = u32 (address + u32 (offset * instruction_size))
  let fallthrough = u32 (address + instruction_size)
  rs_val ← emit (load (register_at rs))
  rt_val ← emit (load (register_at rt))
  equal ← emit (eq rs_val rt_val)
  condition ← emit (branch equal)
  emit (if_true condition)
  taken_entry ← encode_jit_entry_load taken
  encode_pc taken
  taken_end ← emit end
  emit (if_false condition)
  fallthrough_entry ← encode_jit_entry_load fallthrough
  encode_pc fallthrough
  fallthrough_end ← emit end
  emit (merge taken_end fallthrough_end)
  emit (phi taken_entry fallthrough_entry)

-- The entry to go on with after the last instruction, at `address`.
unfoldable pub encode_next_of : Opcode → Instruction → ℕ → ℕ → Build Ref
unfolding encode_beq
encode_next_of Opcode.beq inst address end_address = encode_beq inst address
encode_next_of Opcode.j inst address end_address =
    operand inst 0 >>= λ target. encode_jit_entry_load (jump_target address target)
encode_next_of Opcode.invalid inst address end_address = emit (const 0)
encode_next_of Opcode.syscall inst address end_address =
    encode_jit_entry_load (u32 (address + instruction_size))
encode_next_of Opcode.flush inst address end_address = emit (const 0)
encode_next_of _ inst address end_address = encode_jit_entry_load end_address

unfoldable pub encode_next_jit_entry : BasicBlock → Build Ref
unfolding encode_next_of end_address
encode_next_jit_entry block = elim (last_instruction block.instructions) [
  | none ↦ encode_jit_entry_load (end_address block)
  | some inst ↦
      encode_next_of inst.op_code inst (u32 (end_address block + 2 ^ 32 - instruction_size))
        (end_address block)
]

-- `encodePc` of the end address, unless the last instruction has set the program counter.
unfoldable pub encode_end_pc : BasicBlock → Build (Unit {0})
unfolding updates_pc encode_pc end_address
encode_end_pc block = elim (last_instruction block.instructions) [
  | none ↦ encode_pc (end_address block)
  | some inst ↦ if updates_pc inst.op_code then pure tt else encode_pc (end_address block)
]

-- `compileBlock` up to the call of `ir_jit_compile`.
unfoldable pub encode_block : BasicBlock → Build (Unit {0})
unfolding encode_instructions encode_end_pc encode_next_jit_entry
encode_block block = do
  emit start
  emit param
  encode_instructions block.instructions block.start_address
  encode_end_pc block
  next ← encode_next_jit_entry block
  emit (return next)
  pure tt
