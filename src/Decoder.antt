-- ===== src/Decoder.antt =====
-- src/toy/decoder.cpp and include/toy/decoder.hpp: the table of fixed bits, one decode function for
-- each row, and the linear search of `TIDecoder::decode`.
pub mod Shape
pub mod Table
use toy_isa_v1_5_interpreter.Base.{ℕ, List, [], ◌∷◌, bit_and, ◌==◌, if◌then◌else◌}
use toy_isa_v1_5_interpreter.BitUtils.{extract_bits, sign_extend}
use toy_isa_v1_5_interpreter.Instruction.{
  Opcode, OperandType, Operand, ThreadedHandler, Instruction, get_threaded_handler,
}

abbrev pub reg : ℕ → Operand
reg value = record { type = OperandType.register; value = value }

abbrev pub imm : ℕ → Operand
imm value = record { type = OperandType.immediate; value = value }

-- An instruction as a decode function returns it, before `decode` sets its handler.
abbrev pub instruction : Opcode → List Operand → Instruction
instruction op operands = record {
  op_code = op;
  operands = operands;
  threaded_handler = ThreadedHandler.null;
}

unfoldable pub decode_st : ℕ → Instruction
decode_st word =
    let base = extract_bits word 21 5 in
    let rt = extract_bits word 16 5 in
    let immediate = sign_extend (extract_bits word 0 14) 14 in
    instruction Opcode.st (reg rt ∷ reg base ∷ imm immediate ∷ [])

unfoldable pub decode_addi : ℕ → Instruction
decode_addi word =
    let rs = extract_bits word 21 5 in
    let rt = extract_bits word 16 5 in
    let immediate = sign_extend (extract_bits word 0 16) 16 in
    instruction Opcode.addi (reg rt ∷ reg rs ∷ imm immediate ∷ [])

unfoldable pub decode_or : ℕ → Instruction
decode_or word =
    let rs = extract_bits word 21 5 in
    let rt = extract_bits word 16 5 in
    let rd = extract_bits word 11 5 in instruction Opcode.or (reg rd ∷ reg rs ∷ reg rt ∷ [])

unfoldable pub decode_ld_reg : ℕ → Instruction
decode_ld_reg word =
    let base = extract_bits word 21 5 in
    let rt = extract_bits word 16 5 in
    let rm = extract_bits word 0 5 in instruction Opcode.ld_reg (reg rt ∷ reg base ∷ reg rm ∷ [])

unfoldable pub decode_j : ℕ → Instruction
decode_j word = instruction Opcode.j (imm (extract_bits word 0 26) ∷ [])

unfoldable pub decode_beq : ℕ → Instruction
decode_beq word =
    let rs = extract_bits word 21 5 in
    let rt = extract_bits word 16 5 in
    let offset = sign_extend (extract_bits word 0 16) 16 in
    instruction Opcode.beq (reg rs ∷ reg rt ∷ imm offset ∷ [])

unfoldable pub decode_clz : ℕ → Instruction
decode_clz word =
    instruction Opcode.clz (reg (extract_bits word 21 5) ∷ reg (extract_bits word 16 5) ∷ [])

unfoldable pub decode_ssat : ℕ → Instruction
decode_ssat word = instruction Opcode.ssat (
    reg (extract_bits word 21 5) ∷ reg (extract_bits word 16 5) ∷ imm (extract_bits word 11 5) ∷ [])

unfoldable pub decode_ld_imm : ℕ → Instruction
decode_ld_imm word =
    let base = extract_bits word 21 5 in
    let rt = extract_bits word 16 5 in
    let immediate = sign_extend (extract_bits word 0 14) 14 in
    instruction Opcode.ld_imm (reg rt ∷ reg base ∷ imm immediate ∷ [])

unfoldable pub decode_add : ℕ → Instruction
decode_add word = instruction Opcode.add (
    reg (extract_bits word 11 5) ∷ reg (extract_bits word 21 5) ∷ reg (extract_bits word 16 5) ∷ [])

unfoldable pub decode_syscall : ℕ → Instruction
decode_syscall word = instruction Opcode.syscall (imm (extract_bits word 6 20) ∷ [])

unfoldable pub decode_bext : ℕ → Instruction
decode_bext word = instruction Opcode.bext (
    reg (extract_bits word 21 5) ∷ reg (extract_bits word 16 5) ∷ reg (extract_bits word 11 5) ∷ [])

unfoldable pub decode_li : ℕ → Instruction
decode_li word =
    instruction Opcode.li
      (reg (extract_bits word 16 5) ∷ imm (sign_extend (extract_bits word 0 16) 16) ∷ [])

unfoldable pub decode_rori : ℕ → Instruction
decode_rori word = instruction Opcode.rori (
    reg (extract_bits word 21 5) ∷ reg (extract_bits word 16 5) ∷ imm (extract_bits word 11 5) ∷ [])

unfoldable pub decode_stp : ℕ → Instruction
decode_stp word = instruction Opcode.stp (
    reg (extract_bits word 16 5)
    ∷ reg (extract_bits word 11 5)
    ∷ reg (extract_bits word 21 5)
    ∷ imm (sign_extend (extract_bits word 0 11) 11)
    ∷ [])

unfoldable pub decode_flush : ℕ → Instruction
decode_flush word = instruction Opcode.flush []

pub record DecodeInfo : Type 0 where
  pub op_code : Opcode
  pub mask : ℕ
  pub reference : ℕ
  pub handler : ℕ → Instruction

abbrev pub row : Opcode → ℕ → ℕ → (ℕ → Instruction) → DecodeInfo
row op mask reference handler = record {
  op_code = op;
  mask = mask;
  reference = reference;
  handler = handler;
}

-- All fixed bits of a row: `(Word & Mask) == Reference`.
unfoldable pub decode_vector : List DecodeInfo
decode_vector =
    row Opcode.st 0xFC00C000 0x80000000 decode_st
    ∷ row Opcode.addi 0xFC000000 0x5C000000 decode_addi
    ∷ row Opcode.or 0xFC0007FF 0x0000001A decode_or
    ∷ row Opcode.ld_reg 0xFC00FFE0 0x0C00C000 decode_ld_reg
    ∷ row Opcode.j 0xFC000000 0xFC000000 decode_j
    ∷ row Opcode.beq 0xFC000000 0x40000000 decode_beq
    ∷ row Opcode.clz 0xFC00FFFF 0x00000032 decode_clz
    ∷ row Opcode.ssat 0xFC0007FF 0x20000000 decode_ssat
    ∷ row Opcode.ld_imm 0xFC00C000 0xCC000000 decode_ld_imm
    ∷ row Opcode.add 0xFC0007FF 0x0000000C decode_add
    ∷ row Opcode.syscall 0xFC00003F 0x0000001E decode_syscall
    ∷ row Opcode.bext 0xFC0007FF 0x00000034 decode_bext
    ∷ row Opcode.li 0xFFE00000 0x2C000000 decode_li
    ∷ row Opcode.rori 0xFC0007FF 0x74000000 decode_rori
    ∷ row Opcode.stp 0xFC000000 0x54000000 decode_stp
    ∷ row Opcode.flush 0xFC000000 0x98000000 decode_flush
    ∷ []

abbrev pub with_handler : Instruction → Instruction
with_handler inst = record inst { threaded_handler = get_threaded_handler inst.op_code }

-- The loop of `decode` over the rows that are left.
unfoldable pub decode_from : List DecodeInfo → ℕ → Instruction
decode_from [] word = with_handler (instruction Opcode.invalid [])
decode_from (info ∷ rows) word =
    if bit_and word info.mask == info.reference
    then with_handler (info.handler word)
    else decode_from rows word

unfoldable pub decode : ℕ → Instruction
unfolding decode_from decode_vector get_threaded_handler
decode word = decode_from decode_vector word
