-- ===== src/Decoder/Shape.antt =====
-- What an instruction from `TIDecoder::decode` (src/toy/decoder.cpp) looks like: its handler, and the
-- operands that the executors read.
use toy_isa_v1_5_interpreter.Base.{
  ℕ, ◌^◌, ◌<◌, ◌≡◌, refl, arith, List, [], ◌∷◌, All, Bool-cases, inl, inr, bit_and, ◌==◌,
}
use toy_isa_v1_5_interpreter.BitUtils.Fields.{extract_bits-lt}
use toy_isa_v1_5_interpreter.BitUtils.Signed.{sign_extend-lt}
use toy_isa_v1_5_interpreter.BitUtils.{extract_bits}
use toy_isa_v1_5_interpreter.Instruction.{
  Opcode, OperandType, Operand, Instruction, get_threaded_handler,
}
use toy_isa_v1_5_interpreter.Decoder.{
  DecodeInfo, decode, decode_from, decode_vector, decode_st, decode_addi, decode_or, decode_ld_reg,
  decode_j, decode_beq, decode_clz, decode_ssat, decode_ld_imm, decode_add, decode_syscall,
  decode_bext, decode_li, decode_rori, decode_stp, decode_flush,
}

-- A register number, or an immediate below a bound.
pub data OperandKind : Type 0 where
  register : OperandKind
  below : ℕ → OperandKind

abbrev pub word : OperandKind
word = below (2 ^ 32)

-- The operands of each operation, in the order of the executors.
abbrev pub operand_kinds : Opcode → List OperandKind
operand_kinds Opcode.invalid = []
operand_kinds Opcode.li = register ∷ word ∷ []
operand_kinds Opcode.add = register ∷ register ∷ register ∷ []
operand_kinds Opcode.addi = register ∷ register ∷ word ∷ []
operand_kinds Opcode.or = register ∷ register ∷ register ∷ []
operand_kinds Opcode.ld_reg = register ∷ register ∷ register ∷ []
operand_kinds Opcode.st = register ∷ register ∷ word ∷ []
operand_kinds Opcode.stp = register ∷ register ∷ register ∷ word ∷ []
operand_kinds Opcode.beq = register ∷ register ∷ word ∷ []
operand_kinds Opcode.j = below (2 ^ 26) ∷ []
operand_kinds Opcode.clz = register ∷ register ∷ []
operand_kinds Opcode.ssat = register ∷ register ∷ below 32 ∷ []
operand_kinds Opcode.rori = register ∷ register ∷ below 32 ∷ []
operand_kinds Opcode.bext = register ∷ register ∷ register ∷ []
operand_kinds Opcode.syscall = below (2 ^ 20) ∷ []
operand_kinds Opcode.ld_imm = register ∷ register ∷ word ∷ []
operand_kinds Opcode.flush = []

abbrev pub HasKind : OperandKind → Operand → Type 0
HasKind register o = (o.type ≡ OperandType.register) × (o.value < 32)
HasKind (below bound) o = (o.type ≡ OperandType.immediate) × (o.value < bound)

abbrev pub HaveKinds : List OperandKind → List Operand → Type 0
HaveKinds [] [] = Unit
HaveKinds [] (o ∷ os) = ⊥
HaveKinds (k ∷ ks) [] = ⊥
HaveKinds (k ∷ ks) (o ∷ os) = HasKind k o × HaveKinds ks os

abbrev pub IsShaped : Instruction → Type 0
IsShaped inst = HaveKinds (operand_kinds inst.op_code) inst.operands

-- An instruction as `decode` returns it.
pub record IsDecoded (inst : Instruction) : Type 0 where
  pub shaped : IsShaped inst
  pub handled : inst.threaded_handler ≡ get_threaded_handler inst.op_code

module _ (w : ℕ) (fits : w < 2 ^ 32) where
  field5 : (offset : ℕ) → offset < 28 → extract_bits w offset 5 < 32
  field5 offset h = extract_bits-lt w offset 5 fits (omega arith)

  rows-IsShaped : All (λ (info : DecodeInfo). IsShaped (info.handler w)) decode_vector
  unfolding decode_vector decode_st decode_addi decode_or decode_ld_reg decode_j decode_beq
      decode_clz decode_ssat decode_ld_imm decode_add decode_syscall decode_bext decode_li
      decode_rori decode_stp decode_flush
  rows-IsShaped = assumption (
    refl,
    tt,
    field5 21 (omega arith),
    field5 16 (omega arith),
    field5 11 (omega arith),
    field5 0 (omega arith),
    sign_extend-lt (extract_bits w 0 14) 13 (omega arith),
    sign_extend-lt (extract_bits w 0 16) 15 (omega arith),
    sign_extend-lt (extract_bits w 0 11) 10 (omega arith),
    extract_bits-lt w 0 26 fits (omega arith),
    extract_bits-lt w 6 20 fits (omega arith),
  )

  decode_from-IsDecoded :
      (rows : List DecodeInfo)
      → All (λ (info : DecodeInfo). IsShaped (info.handler w)) rows
      → IsDecoded (decode_from rows w)
  unfolding decode_from
  decode_from-IsDecoded [] h = record { shaped = tt; handled = refl }
  decode_from-IsDecoded (info ∷ rows) h =
      elim (Bool-cases (bit_and w info.mask == info.reference)) [
        | inl hit ↦ rw hit (record { shaped = h.0; handled = refl })
        | inr miss ↦ rw miss (decode_from-IsDecoded rows h.1)
      ]

  -- Every 32-bit word decodes to an instruction with the handler of its operation code and with the
  -- operands that this operation reads: register numbers below 32 and immediates in range.
  pub decode-IsDecoded : IsDecoded (decode w)
  unfolding decode
  decode-IsDecoded = decode_from-IsDecoded decode_vector rows-IsShaped
