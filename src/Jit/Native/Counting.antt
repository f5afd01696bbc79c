-- ===== src/Jit/Native/Counting.antt =====
-- CLZ and SSAT, where native code computes another way than the interpreters.
use native.Mathlib.Nat.{one-le-pow}
use toy_isa_v1_5_interpreter.Base.{
  ap, ◌||◌, leb, ℕ, ◌+◌, ◌-◌, ◌^◌, ◌≤◌, ◌≡◌, refl, arith, List, [], ◌∷◌, Bool-cases, inl, inr, u32,
  bit_or, bit_and, ltb, ◌==◌, ==_iff, ltb→lt, ltb→ge, if◌then◌else◌, ◌<<<◌, false, true,
}
use toy_isa_v1_5_interpreter.Base.Bits.{bit_or-zero}
use toy_isa_v1_5_interpreter.Arith.Saturate.{saturate_signed_word, saturate_signed-ok, sign_bit_lem}
use toy_isa_v1_5_interpreter.Checked.{ok}
use toy_isa_v1_5_interpreter.Instruction.{Opcode, Operand, ThreadedHandler, Instruction}
use toy_isa_v1_5_interpreter.Machine.{fault}
use toy_isa_v1_5_interpreter.Machine.Monad.{operand, advance_pc}
use toy_isa_v1_5_interpreter.Decoder.Shape.{operand_kinds, HaveKinds}
use toy_isa_v1_5_interpreter.Arith.{count_leading_zeros, leading_zeros_loop, saturate_signed}
use toy_isa_v1_5_interpreter.Arith.Leading.{count_leading_zeros_lem}
use toy_isa_v1_5_interpreter.Executor.{execute_clz, execute_ssat}
use toy_isa_v1_5_interpreter.Safety.Invariant.{IsWord}
use toy_isa_v1_5_interpreter.Safety.Arith.{count_leading_zeros-IsWord, saturate_signed-IsWord}
use toy_isa_v1_5_interpreter.Engine.{execute_opcode}
use toy_isa_v1_5_interpreter.BitUtils.Fields.{two-pow-le}
use toy_isa_v1_5_interpreter.Jit.Helpers.{execute_instruction_helper, execute_helper}
use toy_isa_v1_5_interpreter.Jit.Native.Memory.{exit_nodes}
use toy_isa_v1_5_interpreter.Syscall.{Host}
use toy_isa_v1_5_interpreter.Jit.Ir
use toy_isa_v1_5_interpreter.Jit.Ir.{
  IrNode, call_helper, load, store, const, add, eq, or, zext, ctlz, bitcast, max_i32, min_i32,
  register_at, Builder,
}
use toy_isa_v1_5_interpreter.Jit.Meaning.{run_nodes, signed_lt}
use toy_isa_v1_5_interpreter.Jit.Encode.{
  encode_clz, encode_ssat, encode_call, encode_exit_if_stopped,
}
use toy_isa_v1_5_interpreter.Jit.Native.{
  lookups, Translates, get_register-reads, set_register-writes,
}

abbrev is_zero : ℕ → ℕ
is_zero v = if v == 0 then 1 else 0

safe_argument : (v : ℕ) → (bit_or v (is_zero v) == 0) ≡ false
safe_argument v = elim (Bool-cases (v == 0)) [
  | inl nought ↦ let e : v ≡ 0 = (==_iff v 0).0 nought in rw e refl
  | inr some ↦ rw (some, bit_or-zero v) some
]

zero_count : u32 (count_leading_zeros 1 + 1) ≡ count_leading_zeros 0
unfolding count_leading_zeros leading_zeros_loop
zero_count = refl

safe_count :
    (v : ℕ)
    → IsWord v
    → u32 (count_leading_zeros (bit_or v (is_zero v)) + is_zero v) ≡ count_leading_zeros v
safe_count v word = elim (Bool-cases (v == 0)) [
  | inl nought ↦ let e : v ≡ 0 = (==_iff v 0).0 nought in rw e zero_count
  | inr some ↦
      let (bits, total, has) = count_leading_zeros_lem v word in
      rw (some, bit_or-zero v) (omega arith)
]

-- The bounds as native code computes them, from the powers of the width.
abbrev bounded : ℕ → ℕ → ℕ
bounded v half =
    let minimum = 2 ^ 32 - 1 - (half - 1) in
    let lower = if signed_lt v minimum then minimum else v in
    if signed_lt lower (half - 1) then lower else half - 1

bounded_lem :
    (v half : ℕ)
    → IsWord v
    → 1 ≤ half
    → half ≤ 2 ^ 30
    → saturate_signed_word v (half - 1) ≡ bounded v half
bounded_lem v half word h k = elim (Bool-cases (ltb v (2 ^ 31))) [
  | inl small ↦
      let e : bit_and v (2 ^ 31) ≡ 0 =
        omega (arith, sign_bit_lem v word, ltb→lt v (2 ^ 31) small) in
      rw e (ground arith)
  | inr big ↦
      let e : bit_and v (2 ^ 31) ≡ 2 ^ 31 =
        omega (arith, sign_bit_lem v word, ltb→ge v (2 ^ 31) big) in
      rw e (ground arith)
]

-- SSAT as native code computes it.
abbrev saturated : ℕ → ℕ → ℕ
saturated v width =
    let maximum = (1 <<< (width - 1)) - 1 in
    let minimum = 2 ^ 32 - 1 - maximum in
    let lower = if signed_lt v minimum then minimum else v in
    if signed_lt lower maximum then lower else maximum

saturated_lem :
    (v width : ℕ)
    → IsWord v
    → 1 ≤ width
    → width ≤ 31
    → saturate_signed v width ≡ ok (saturated v width)
saturated_lem v width word h k =
    let half : ℕ = 2 ^ (width - 1) in
    let small : half ≤ 2 ^ 30 = two-pow-le (width - 1) 30 (omega arith) in
    let power : (1 <<< (width - 1)) ≡ half = omega arith in
    rw (saturate_signed-ok v width h k, power)
      (ap ok (bounded_lem v half word (one-le-pow (width - 1) 2 (omega arith)) small))

module _ (host : Host) (handler : ThreadedHandler) (b : Builder) (address : ℕ) where
  abbrev inst : Opcode → List Operand → Instruction
  inst op operands = record { op_code = op; operands = operands; threaded_handler = handler }

  pub clz-Translates :
      (x y : Operand)
      → HaveKinds (operand_kinds Opcode.clz) (x ∷ y ∷ [])
      → let i = inst Opcode.clz (x ∷ y ∷ []) in
        Translates host (encode_clz i) b (execute_clz i) address
  unfolding encode_clz execute_clz Ir.operand Ir.emit run_nodes operand advance_pc
  clz-Translates x y h = record {
    code =
        load (register_at y.value)
        ∷ const 0
        ∷ eq b.count (b.count + 1)
        ∷ zext (b.count + 1 + 1)
        ∷ or b.count (b.count + 1 + 1 + 1)
        ∷ ctlz (b.count + 1 + 1 + 1 + 1)
        ∷ add (b.count + 1 + 1 + 1 + 1 + 1) (b.count + 1 + 1 + 1)
        ∷ store (register_at x.value) (b.count + 1 + 1 + 1 + 1 + 1 + 1)
        ∷ [];
    built = refl;
    runs = λ rest s next go f d ready.
        let (v, v-word, e, e') = get_register-reads y.value address d h.1.0.1 ready.valid in
        let (e1, e1', ready') =
          set_register-writes x.value (count_leading_zeros v) address d h.0.1
            (count_leading_zeros-IsWord v) ready in
        simp (e, e', lookups, safe_argument v, safe_count v v-word, e1, e1') (go _ _ ready');
  }

  ssat_some-Translates :
      (x y z : Operand)
      → HaveKinds (operand_kinds Opcode.ssat) (x ∷ y ∷ z ∷ [])
      → (z.value == 0) ≡ false
      → let i = inst Opcode.ssat (x ∷ y ∷ z ∷ []) in
        Translates host (encode_ssat i) b (execute_ssat i) address
  unfolding encode_ssat execute_ssat Ir.operand Ir.emit run_nodes operand advance_pc
  ssat_some-Translates x y z h some =
      let width : ℕ = z.value in
      let test : (width == 0 || leb 32 width) ≡ false = ground (arith, h.1.1.0.1) in
      record {
        code =
            load (register_at y.value)
            ∷ bitcast b.count
            ∷ const (2 ^ 32 - 1 - ((1 <<< (width - 1)) - 1))
            ∷ max_i32 (b.count + 1) (b.count + 1 + 1)
            ∷ const ((1 <<< (width - 1)) - 1)
            ∷ min_i32 (b.count + 1 + 1 + 1) (b.count + 1 + 1 + 1 + 1)
            ∷ bitcast (b.count + 1 + 1 + 1 + 1 + 1)
            ∷ store (register_at x.value) (b.count + 1 + 1 + 1 + 1 + 1 + 1)
            ∷ [];
        built = rw test refl;
        runs = λ rest s next go f d ready.
            let (v, v-word, e, e') = get_register-reads y.value address d h.1.0.1 ready.valid in
            let done : saturate_signed v width ≡ ok (saturated v width) =
              saturated_lem v width v-word (ground arith) (omega (arith, h.1.1.0.1)) in
            let word : IsWord (saturated v width) = saturate_signed-IsWord v width v-word done in
            let (e1, e1', ready') =
              set_register-writes x.value (saturated v width) address d h.0.1 word ready in
            simp (e, e', lookups, done, e1, e1') (go _ _ ready');
      }

  -- A width of 0 is left to the executor, which throws.
  ssat_zero-Translates :
      (x y z : Operand)
      → HaveKinds (operand_kinds Opcode.ssat) (x ∷ y ∷ z ∷ [])
      → (z.value == 0) ≡ true
      → let i = inst Opcode.ssat (x ∷ y ∷ z ∷ []) in
        Translates host (encode_ssat i) b (execute_ssat i) address
  unfolding encode_ssat execute_ssat Ir.operand Ir.emit run_nodes operand advance_pc encode_call
      encode_exit_if_stopped execute_opcode execute_instruction_helper execute_helper
      saturate_signed fault
  ssat_zero-Translates x y z h nought = record {
    code = call_helper (inst Opcode.ssat (x ∷ y ∷ z ∷ [])) Opcode.ssat ∷ exit_nodes (b.count + 1);
    built = rw nought refl;
    runs = λ rest s next go f d ready.
        let (v, v-word, e, e') = get_register-reads y.value address d h.1.0.1 ready.valid in
        simp (e, e', nought, lookups);
  }

  pub ssat-Translates :
      (x y z : Operand)
      → HaveKinds (operand_kinds Opcode.ssat) (x ∷ y ∷ z ∷ [])
      → let i = inst Opcode.ssat (x ∷ y ∷ z ∷ []) in
        Translates host (encode_ssat i) b (execute_ssat i) address
  ssat-Translates x y z h = elim (Bool-cases (z.value == 0)) [
    | inl nought ↦ ssat_zero-Translates x y z h nought
    | inr some ↦ ssat_some-Translates x y z h some
  ]
