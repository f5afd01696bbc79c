-- ===== src/Jit/Native/Inner.antt =====
-- The instructions inside a block, all together: `encodeInstruction` of
-- src/execution_type/jit_executor.cpp against the `switch` of switch_executor.cpp.
use toy_isa_v1_5_interpreter.Base.{ℕ, ◌≡◌, List, [], ◌∷◌, false}
use toy_isa_v1_5_interpreter.Instruction.{Opcode, Operand, ThreadedHandler, Instruction}
use toy_isa_v1_5_interpreter.Decoder.Shape.{
  OperandKind, register, below, word, operand_kinds, HaveKinds,
}
use toy_isa_v1_5_interpreter.BlockCache.{ends_block}
use toy_isa_v1_5_interpreter.Engine.{execute_opcode}
use toy_isa_v1_5_interpreter.Syscall.{Host}
use toy_isa_v1_5_interpreter.Jit.Ir.{Builder}
use toy_isa_v1_5_interpreter.Jit.Encode.{encode_opcode}
use toy_isa_v1_5_interpreter.Jit.Native.{Translates}
use toy_isa_v1_5_interpreter.Jit.Native.Registers.{
  li-Translates, add-Translates, addi-Translates, or-Translates, bext-Translates, rori-Translates,
}
use toy_isa_v1_5_interpreter.Jit.Native.Counting.{clz-Translates, ssat-Translates}
use toy_isa_v1_5_interpreter.Jit.Native.Memory.{
  ld_reg-Translates, ld_imm-Translates, st-Translates, stp-Translates,
}

-- Operands of given kinds are as many.
module _ {ℓ} (P : List Operand → Type ℓ) where
  pub none_of : (os : List Operand) → HaveKinds [] os → P [] → P os
  none_of [] h p = p
  none_of (o ∷ os) h p = absurd h

  pub one_of :
      (k : OperandKind)
      → ((x : Operand) → HaveKinds (k ∷ []) (x ∷ []) → P (x ∷ []))
      → (os : List Operand) → HaveKinds (k ∷ []) os
      → P os
  one_of k p [] h = absurd h
  one_of k p (x ∷ []) h = p x h
  one_of k p (x ∷ (y ∷ os)) h = absurd h.1

  two_of :
      (k l : OperandKind)
      → ((x y : Operand) → HaveKinds (k ∷ l ∷ []) (x ∷ y ∷ []) → P (x ∷ y ∷ []))
      → (os : List Operand) → HaveKinds (k ∷ l ∷ []) os
      → P os
  two_of k l p [] h = absurd h
  two_of k l p (x ∷ []) h = absurd h.1
  two_of k l p (x ∷ (y ∷ [])) h = p x y h
  two_of k l p (x ∷ (y ∷ (z ∷ os))) h = absurd h.1.1

  pub three_of :
      (k l m : OperandKind)
      → ((x y z : Operand) → HaveKinds (k ∷ l ∷ m ∷ []) (x ∷ y ∷ z ∷ []) → P (x ∷ y ∷ z ∷ []))
      → (os : List Operand) → HaveKinds (k ∷ l ∷ m ∷ []) os
      → P os
  three_of k l m p [] h = absurd h
  three_of k l m p (x ∷ []) h = absurd h.1
  three_of k l m p (x ∷ (y ∷ [])) h = absurd h.1.1
  three_of k l m p (x ∷ (y ∷ (z ∷ []))) h = p x y z h
  three_of k l m p (x ∷ (y ∷ (z ∷ (u ∷ os)))) h = absurd h.1.1.1

  four_of :
      (k l m n : OperandKind)
      → ((x y z u : Operand)
          → HaveKinds (k ∷ l ∷ m ∷ n ∷ []) (x ∷ y ∷ z ∷ u ∷ [])
          → P (x ∷ y ∷ z ∷ u ∷ []))
      → (os : List Operand) → HaveKinds (k ∷ l ∷ m ∷ n ∷ []) os
      → P os
  four_of k l m n p [] h = absurd h
  four_of k l m n p (x ∷ []) h = absurd h.1
  four_of k l m n p (x ∷ (y ∷ [])) h = absurd h.1.1
  four_of k l m n p (x ∷ (y ∷ (z ∷ []))) h = absurd h.1.1.1
  four_of k l m n p (x ∷ (y ∷ (z ∷ (u ∷ [])))) h = p x y z u h
  four_of k l m n p (x ∷ (y ∷ (z ∷ (u ∷ (t ∷ os))))) h = absurd h.1.1.1.1

module _ (host : Host) (handler : ThreadedHandler) (b : Builder) (address : ℕ) where
  abbrev instruction : Opcode → List Operand → Instruction
  instruction op operands = record { op_code = op; operands = operands; threaded_handler = handler }

  abbrev Inner : Opcode → List Operand → Type 0
  Inner op os =
      let inst = instruction op os in
      Translates host (encode_opcode op inst address) b (execute_opcode host op inst) address

  -- The nodes of an instruction that does not end a block do what its executor does, on operands
  -- as the decoder gives them.
  pub encode_opcode-Translates :
      (op : Opcode) (os : List Operand)
      → ends_block op ≡ false
      → HaveKinds (operand_kinds op) os
      → Inner op os
  unfolding encode_opcode execute_opcode ends_block
  encode_opcode-Translates Opcode.li os e =
      two_of (Inner Opcode.li) register word (li-Translates host handler b address) os
  encode_opcode-Translates Opcode.add os e =
      three_of (Inner Opcode.add) register register register (add-Translates host handler b address)
        os
  encode_opcode-Translates Opcode.addi os e =
      three_of (Inner Opcode.addi) register register word (addi-Translates host handler b address)
        os
  encode_opcode-Translates Opcode.or os e =
      three_of (Inner Opcode.or) register register register (or-Translates host handler b address)
        os
  encode_opcode-Translates Opcode.ld_reg os e =
      three_of (Inner Opcode.ld_reg) register register register
        (ld_reg-Translates host handler b address) os
  encode_opcode-Translates Opcode.st os e =
      three_of (Inner Opcode.st) register register word (st-Translates host handler b address) os
  encode_opcode-Translates Opcode.stp os e =
      four_of (Inner Opcode.stp) register register register word
        (stp-Translates host handler b address) os
  encode_opcode-Translates Opcode.clz os e =
      two_of (Inner Opcode.clz) register register (clz-Translates host handler b address) os
  encode_opcode-Translates Opcode.ssat os e =
      three_of (Inner Opcode.ssat) register register (below 32)
        (ssat-Translates host handler b address) os
  encode_opcode-Translates Opcode.rori os e =
      three_of (Inner Opcode.rori) register register (below 32)
        (rori-Translates host handler b address) os
  encode_opcode-Translates Opcode.bext os e =
      three_of (Inner Opcode.bext) register register register
        (bext-Translates host handler b address) os
  encode_opcode-Translates Opcode.ld_imm os e =
      three_of (Inner Opcode.ld_imm) register register word
        (ld_imm-Translates host handler b address) os
  encode_opcode-Translates Opcode.flush os e = absurd (cc)
  encode_opcode-Translates Opcode.beq os e = absurd (cc)
  encode_opcode-Translates Opcode.j os e = absurd (cc)
  encode_opcode-Translates Opcode.syscall os e = absurd (cc)
  encode_opcode-Translates Opcode.invalid os e = absurd (cc)
