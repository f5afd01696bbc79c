-- ===== src/Safety/Executors.antt =====
-- Every function of src/toy/executor.cpp on the operands that the decoder gives it.
use toy_isa_v1_5_interpreter.Base.{
  ℕ, get_elem?, some, ◌+◌, ◌*◌, ◌≡◌, refl, arith, bit_and, bit_or, ◌==◌, u32,
}
use toy_isa_v1_5_interpreter.Base.Bits.{bit_and-le}
use toy_isa_v1_5_interpreter.Instruction.{Opcode, Instruction}
use toy_isa_v1_5_interpreter.Decoder.Shape.{OperandKind, operand_kinds, HaveKinds}
use toy_isa_v1_5_interpreter.Machine.Monad.{M, operand}
use toy_isa_v1_5_interpreter.Arith.{
  count_leading_zeros, saturate_signed, rotate_right, compress_bits,
}
use toy_isa_v1_5_interpreter.Executor.{
  execute_li, execute_add, execute_addi, execute_or, execute_ld_reg, execute_ld_imm, execute_st,
  execute_stp, execute_beq, execute_j, execute_clz, execute_ssat, execute_rori, execute_bext,
  execute_invalid,
}
use toy_isa_v1_5_interpreter.Safety.Invariant.{
  IsWord, Runs, Keeps, Runs-bind, Runs-then, Runs-if, InKind, operand-Runs, get_register-Runs,
  set_register-Keeps, get_pc-Runs, set_pc-Keeps, advance_pc-Keeps, load_word-Runs, store_word-Keeps,
  lift_checked-Runs,
}
use toy_isa_v1_5_interpreter.Safety.Arith.{
  u32-IsWord, bit_or-IsWord, count_leading_zeros-IsWord, saturate_signed-IsWord,
  rotate_right-IsWord, compress_bits-IsWord,
}

abbrev Takes : Opcode → (Instruction → M (Unit {0})) → Type 0
Takes op execute =
    (inst : Instruction) → HaveKinds (operand_kinds op) inst.operands → Keeps (execute inst)

at :
    (op : Opcode) (inst : Instruction)
    → HaveKinds (operand_kinds op) inst.operands
    → (i : ℕ) {k : OperandKind} → get_elem? (operand_kinds op) i ≡ some k
    → Runs (operand inst i) (InKind k)
at op inst h i e = operand-Runs (operand_kinds op) inst h i e

pub execute_li-Keeps : Takes Opcode.li execute_li
unfolding execute_li
execute_li-Keeps inst h = Runs-bind (at Opcode.li inst h 0 refl) λ rt rt-lt.
    Runs-bind (at Opcode.li inst h 1 refl)
      λ value value-lt. Runs-then (set_register-Keeps rt (value) rt-lt (value-lt)) advance_pc-Keeps

pub execute_add-Keeps : Takes Opcode.add execute_add
unfolding execute_add
execute_add-Keeps inst h = Runs-bind (at Opcode.add inst h 0 refl) λ rd rd-lt.
    Runs-bind (at Opcode.add inst h 1 refl) λ rs rs-lt.
      Runs-bind (at Opcode.add inst h 2 refl) λ rt rt-lt.
        Runs-bind (get_register-Runs rs rs-lt) λ a a-lt.
          Runs-bind (get_register-Runs rt rt-lt) λ b b-lt.
            Runs-then (set_register-Keeps rd (u32 (a + b)) rd-lt (u32-IsWord (a + b)))
              advance_pc-Keeps

pub execute_addi-Keeps : Takes Opcode.addi execute_addi
unfolding execute_addi
execute_addi-Keeps inst h = Runs-bind (at Opcode.addi inst h 0 refl) λ rt rt-lt.
    Runs-bind (at Opcode.addi inst h 1 refl) λ rs rs-lt.
      Runs-bind (at Opcode.addi inst h 2 refl) λ immediate immediate-lt.
        Runs-bind (get_register-Runs rs rs-lt) λ a a-lt.
          Runs-then (set_register-Keeps rt (u32 (a + immediate)) rt-lt (u32-IsWord (a + immediate)))
            advance_pc-Keeps

pub execute_or-Keeps : Takes Opcode.or execute_or
unfolding execute_or
execute_or-Keeps inst h = Runs-bind (at Opcode.or inst h 0 refl) λ rd rd-lt.
    Runs-bind (at Opcode.or inst h 1 refl) λ rs rs-lt.
      Runs-bind (at Opcode.or inst h 2 refl) λ rt rt-lt.
        Runs-bind (get_register-Runs rs rs-lt) λ a a-lt.
          Runs-bind (get_register-Runs rt rt-lt) λ b b-lt.
            Runs-then (set_register-Keeps rd (bit_or a b) rd-lt (bit_or-IsWord a b a-lt b-lt))
              advance_pc-Keeps

pub execute_ld_reg-Keeps : Takes Opcode.ld_reg execute_ld_reg
unfolding execute_ld_reg
execute_ld_reg-Keeps inst h = Runs-bind (at Opcode.ld_reg inst h 0 refl) λ rt rt-lt.
    Runs-bind (at Opcode.ld_reg inst h 1 refl) λ base base-lt.
      Runs-bind (at Opcode.ld_reg inst h 2 refl) λ rm rm-lt.
        Runs-bind (get_register-Runs base base-lt) λ a a-lt.
          Runs-bind (get_register-Runs rm rm-lt) λ b b-lt.
            Runs-bind (load_word-Runs (u32 (a + b)) (u32-IsWord (a + b))) λ value value-lt.
              Runs-then (set_register-Keeps rt (value) rt-lt (value-lt)) advance_pc-Keeps

pub execute_ld_imm-Keeps : Takes Opcode.ld_imm execute_ld_imm
unfolding execute_ld_imm
execute_ld_imm-Keeps inst h = Runs-bind (at Opcode.ld_imm inst h 0 refl) λ rt rt-lt.
    Runs-bind (at Opcode.ld_imm inst h 1 refl) λ base base-lt.
      Runs-bind (at Opcode.ld_imm inst h 2 refl) λ immediate immediate-lt.
        Runs-bind (get_register-Runs base base-lt) λ a a-lt.
          Runs-bind (load_word-Runs (u32 (a + immediate)) (u32-IsWord (a + immediate)))
            λ value value-lt.
              Runs-then (set_register-Keeps rt (value) rt-lt (value-lt)) advance_pc-Keeps

pub execute_st-Keeps : Takes Opcode.st execute_st
unfolding execute_st
execute_st-Keeps inst h = Runs-bind (at Opcode.st inst h 0 refl) λ rt rt-lt.
    Runs-bind (at Opcode.st inst h 1 refl) λ base base-lt.
      Runs-bind (at Opcode.st inst h 2 refl) λ immediate immediate-lt.
        Runs-bind (get_register-Runs base base-lt) λ a a-lt.
          Runs-bind (get_register-Runs rt rt-lt) λ value value-lt.
            Runs-then (store_word-Keeps (u32 (a + immediate)) value (u32-IsWord (a + immediate)))
              advance_pc-Keeps

pub execute_stp-Keeps : Takes Opcode.stp execute_stp
unfolding execute_stp
execute_stp-Keeps inst h = Runs-bind (at Opcode.stp inst h 0 refl) λ rt1 rt1-lt.
    Runs-bind (at Opcode.stp inst h 1 refl) λ rt2 rt2-lt.
      Runs-bind (at Opcode.stp inst h 2 refl) λ base base-lt.
        Runs-bind (at Opcode.stp inst h 3 refl) λ immediate immediate-lt.
          Runs-bind (get_register-Runs base base-lt) λ a a-lt.
            Runs-bind (get_register-Runs rt1 rt1-lt) λ first first-lt.
              Runs-then (store_word-Keeps (u32 (a + immediate)) first (u32-IsWord (a + immediate)))
                (Runs-bind (get_register-Runs rt2 rt2-lt) λ second second-lt.
                  Runs-then
                    (store_word-Keeps (u32 (u32 (a + immediate) + 4)) second
                      (u32-IsWord (u32 (a + immediate) + 4)))
                    advance_pc-Keeps)

pub execute_beq-Keeps : Takes Opcode.beq execute_beq
unfolding execute_beq
execute_beq-Keeps inst h = Runs-bind (at Opcode.beq inst h 0 refl) λ rs rs-lt.
    Runs-bind (at Opcode.beq inst h 1 refl) λ rt rt-lt.
      Runs-bind (get_register-Runs rs rs-lt) λ a a-lt.
        Runs-bind (get_register-Runs rt rt-lt) λ b b-lt.
          Runs-if (a == b)
            (Runs-bind (at Opcode.beq inst h 2 refl) λ offset offset-lt.
              Runs-bind get_pc-Runs λ pc pc-lt.
                set_pc-Keeps (u32 (pc + u32 (offset * 4))) (u32-IsWord (pc + u32 (offset * 4))))
            advance_pc-Keeps

pub execute_j-Keeps : Takes Opcode.j execute_j
unfolding execute_j
execute_j-Keeps inst h = Runs-bind (at Opcode.j inst h 0 refl) λ target target-lt.
    Runs-bind get_pc-Runs λ pc pc-lt.
      set_pc-Keeps (bit_or (bit_and pc 0xF0000000) (u32 (target * 4))) (
        bit_or-IsWord (bit_and pc 0xF0000000) (u32 (target * 4))
          (omega (arith, bit_and-le pc 0xF0000000, pc-lt)) (u32-IsWord (target * 4)))

pub execute_clz-Keeps : Takes Opcode.clz execute_clz
unfolding execute_clz
execute_clz-Keeps inst h = Runs-bind (at Opcode.clz inst h 0 refl) λ rd rd-lt.
    Runs-bind (at Opcode.clz inst h 1 refl) λ rs rs-lt.
      Runs-bind (get_register-Runs rs rs-lt) λ a a-lt.
        Runs-then
          (set_register-Keeps rd (count_leading_zeros a) rd-lt (count_leading_zeros-IsWord a))
          advance_pc-Keeps

pub execute_ssat-Keeps : Takes Opcode.ssat execute_ssat
unfolding execute_ssat
execute_ssat-Keeps inst h = Runs-bind (at Opcode.ssat inst h 0 refl) λ rd rd-lt.
    Runs-bind (at Opcode.ssat inst h 1 refl) λ rs rs-lt.
      Runs-bind (at Opcode.ssat inst h 2 refl) λ width width-lt.
        Runs-bind (get_register-Runs rs rs-lt) λ a a-lt.
          Runs-bind
            (lift_checked-Runs {P = IsWord} (saturate_signed a width)
              (λ v e. saturate_signed-IsWord a width a-lt e))
            λ value value-lt.
              Runs-then (set_register-Keeps rd (value) rd-lt (value-lt)) advance_pc-Keeps

pub execute_rori-Keeps : Takes Opcode.rori execute_rori
unfolding execute_rori
execute_rori-Keeps inst h = Runs-bind (at Opcode.rori inst h 0 refl) λ rd rd-lt.
    Runs-bind (at Opcode.rori inst h 1 refl) λ rs rs-lt.
      Runs-bind (at Opcode.rori inst h 2 refl) λ shift shift-lt.
        Runs-bind (get_register-Runs rs rs-lt) λ a a-lt.
          Runs-then
            (set_register-Keeps rd (rotate_right a shift) rd-lt (rotate_right-IsWord a shift a-lt))
            advance_pc-Keeps

pub execute_bext-Keeps : Takes Opcode.bext execute_bext
unfolding execute_bext
execute_bext-Keeps inst h = Runs-bind (at Opcode.bext inst h 0 refl) λ rd rd-lt.
    Runs-bind (at Opcode.bext inst h 1 refl) λ rs1 rs1-lt.
      Runs-bind (at Opcode.bext inst h 2 refl) λ rs2 rs2-lt.
        Runs-bind (get_register-Runs rs1 rs1-lt) λ a a-lt.
          Runs-bind (get_register-Runs rs2 rs2-lt) λ mask mask-lt.
            Runs-then
              (set_register-Keeps rd (compress_bits a mask) rd-lt (compress_bits-IsWord a mask))
              advance_pc-Keeps

pub execute_invalid-Keeps : Takes Opcode.invalid execute_invalid
unfolding execute_invalid
execute_invalid-Keeps inst h = record { at = λ c v. v }
