-- ===== src/Jit/Native/Registers.antt =====
-- The instructions on registers, apart from CLZ and SSAT.
use toy_isa_v1_5_interpreter.Base.{ℕ, ◌+◌, refl, List, [], ◌∷◌, u32, bit_or}
use toy_isa_v1_5_interpreter.Instruction.{Opcode, Operand, ThreadedHandler, Instruction}
use toy_isa_v1_5_interpreter.Machine.Monad.{operand, advance_pc}
use toy_isa_v1_5_interpreter.Decoder.Shape.{operand_kinds, HaveKinds}
use toy_isa_v1_5_interpreter.Arith.{rotate_right, compress_bits}
use toy_isa_v1_5_interpreter.Arith.Rotate.{rotate_right_lem}
use toy_isa_v1_5_interpreter.Safety.Arith.{
  u32-IsWord, bit_or-IsWord, rotate_right-IsWord, compress_bits-IsWord,
}
use toy_isa_v1_5_interpreter.Executor.{
  execute_li, execute_add, execute_addi, execute_or, execute_rori, execute_bext,
}
use toy_isa_v1_5_interpreter.Syscall.{Host}
use toy_isa_v1_5_interpreter.Jit.Ir
use toy_isa_v1_5_interpreter.Jit.Ir.{
  IrNode, load, store, const, add, or, ror, call_compress_bits, register_at, Builder, Build,
}
use toy_isa_v1_5_interpreter.Jit.Meaning.{run_nodes}
use toy_isa_v1_5_interpreter.Jit.Encode.{
  encode_li, encode_add, encode_addi, encode_or, encode_rori, encode_bext,
}
use toy_isa_v1_5_interpreter.Jit.Native.{
  lookups, Translates, get_register-reads, set_register-writes,
}

module _ (host : Host) (handler : ThreadedHandler) (b : Builder) (address : ℕ) where
  abbrev inst : Opcode → List Operand → Instruction
  inst op operands = record { op_code = op; operands = operands; threaded_handler = handler }

  pub li-Translates :
      (x y : Operand)
      → HaveKinds (operand_kinds Opcode.li) (x ∷ y ∷ [])
      → let i = inst Opcode.li (x ∷ y ∷ []) in
        Translates host (encode_li i) b (execute_li i) address
  unfolding encode_li execute_li Ir.operand Ir.emit run_nodes operand advance_pc
  li-Translates x y h = record {
    code = const y.value ∷ store (register_at x.value) b.count ∷ [];
    built = refl;
    runs = λ rest s next go f d ready.
        let (e, e', ready') = set_register-writes x.value y.value address d h.0.1 h.1.0.1 ready in
        simp (e, e', lookups) (go _ _ ready');
  }

  pub add-Translates :
      (x y z : Operand)
      → HaveKinds (operand_kinds Opcode.add) (x ∷ y ∷ z ∷ [])
      → let i = inst Opcode.add (x ∷ y ∷ z ∷ []) in
        Translates host (encode_add i) b (execute_add i) address
  unfolding encode_add execute_add Ir.operand Ir.emit run_nodes operand advance_pc
  add-Translates x y z h = record {
    code =
        load (register_at y.value)
        ∷ load (register_at z.value)
        ∷ add b.count (b.count + 1)
        ∷ store (register_at x.value) (b.count + 1 + 1)
        ∷ [];
    built = refl;
    runs = λ rest s next go f d ready.
        let (v, v-word, e, e') = get_register-reads y.value address d h.1.0.1 ready.valid in
        let (w, w-word, e1, e1') = get_register-reads z.value address d h.1.1.0.1 ready.valid in
        let (e2, e2', ready') =
          set_register-writes x.value (u32 (v + w)) address d h.0.1 (u32-IsWord (v + w)) ready in
        simp (e, e', e1, e1', lookups, e2, e2') (go _ _ ready');
  }

  pub or-Translates :
      (x y z : Operand)
      → HaveKinds (operand_kinds Opcode.or) (x ∷ y ∷ z ∷ [])
      → let i = inst Opcode.or (x ∷ y ∷ z ∷ []) in
        Translates host (encode_or i) b (execute_or i) address
  unfolding encode_or execute_or Ir.operand Ir.emit run_nodes operand advance_pc
  or-Translates x y z h = record {
    code =
        load (register_at y.value)
        ∷ load (register_at z.value)
        ∷ or b.count (b.count + 1)
        ∷ store (register_at x.value) (b.count + 1 + 1)
        ∷ [];
    built = refl;
    runs = λ rest s next go f d ready.
        let (v, v-word, e, e') = get_register-reads y.value address d h.1.0.1 ready.valid in
        let (w, w-word, e1, e1') = get_register-reads z.value address d h.1.1.0.1 ready.valid in
        let (e2, e2', ready') =
          set_register-writes x.value (bit_or v w) address d h.0.1 (bit_or-IsWord v w v-word w-word)
            ready in
        simp (e, e', e1, e1', lookups, e2, e2') (go _ _ ready');
  }

  pub bext-Translates :
      (x y z : Operand)
      → HaveKinds (operand_kinds Opcode.bext) (x ∷ y ∷ z ∷ [])
      → let i = inst Opcode.bext (x ∷ y ∷ z ∷ []) in
        Translates host (encode_bext i) b (execute_bext i) address
  unfolding encode_bext execute_bext Ir.operand Ir.emit run_nodes operand advance_pc
  bext-Translates x y z h = record {
    code =
        load (register_at y.value)
        ∷ load (register_at z.value)
        ∷ call_compress_bits b.count (b.count + 1)
        ∷ store (register_at x.value) (b.count + 1 + 1)
        ∷ [];
    built = refl;
    runs = λ rest s next go f d ready.
        let (v, v-word, e, e') = get_register-reads y.value address d h.1.0.1 ready.valid in
        let (w, w-word, e1, e1') = get_register-reads z.value address d h.1.1.0.1 ready.valid in
        let (e2, e2', ready') =
          set_register-writes x.value (compress_bits v w) address d h.0.1 (compress_bits-IsWord v w)
            ready in
        simp (e, e', e1, e1', lookups, e2, e2') (go _ _ ready');
  }

  pub addi-Translates :
      (x y z : Operand)
      → HaveKinds (operand_kinds Opcode.addi) (x ∷ y ∷ z ∷ [])
      → let i = inst Opcode.addi (x ∷ y ∷ z ∷ []) in
        Translates host (encode_addi i) b (execute_addi i) address
  unfolding encode_addi execute_addi Ir.operand Ir.emit run_nodes operand advance_pc
  addi-Translates x y z h = record {
    code =
        load (register_at y.value)
        ∷ const z.value
        ∷ add b.count (b.count + 1)
        ∷ store (register_at x.value) (b.count + 1 + 1)
        ∷ [];
    built = refl;
    runs = λ rest s next go f d ready.
        let (v, v-word, e, e') = get_register-reads y.value address d h.1.0.1 ready.valid in
        let (e1, e1', ready') =
          set_register-writes x.value (u32 (v + z.value)) address d h.0.1 (u32-IsWord (v + z.value))
            ready in
        simp (e, e', lookups, e1, e1') (go _ _ ready');
  }

  pub rori-Translates :
      (x y z : Operand)
      → HaveKinds (operand_kinds Opcode.rori) (x ∷ y ∷ z ∷ [])
      → let i = inst Opcode.rori (x ∷ y ∷ z ∷ []) in
        Translates host (encode_rori i) b (execute_rori i) address
  unfolding encode_rori execute_rori Ir.operand Ir.emit run_nodes operand advance_pc
  rori-Translates x y z h = record {
    code =
        load (register_at y.value)
        ∷ const z.value
        ∷ ror b.count (b.count + 1)
        ∷ store (register_at x.value) (b.count + 1 + 1)
        ∷ [];
    built = refl;
    runs = λ rest s next go f d ready.
        let (v, v-word, e, e') = get_register-reads y.value address d h.1.0.1 ready.valid in
        let (e1, e1', ready') =
          set_register-writes x.value (rotate_right v z.value) address d h.0.1
            (rotate_right-IsWord v z.value v-word) ready in
        simp (e, e', lookups, ← rotate_right_lem v z.value v-word h.1.1.0.1, e1, e1')
          (go _ _ ready');
  }
