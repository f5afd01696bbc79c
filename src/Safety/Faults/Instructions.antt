-- ===== src/Safety/Faults/Instructions.antt =====
-- Where the executors of src/toy/executor.cpp throw, for the operations that do not end a block.
use toy_isa_v1_5_interpreter.Instruction.{Instruction}
use toy_isa_v1_5_interpreter.Arith.{saturate_signed}
use toy_isa_v1_5_interpreter.Executor.{
  execute_li, execute_add, execute_addi, execute_or, execute_ld_reg, execute_ld_imm, execute_st,
  execute_stp, execute_clz, execute_ssat, execute_rori, execute_bext,
}
use toy_isa_v1_5_interpreter.Safety.Faults.{
  Moves, Next, after, checked-Same, operand-Same, get_register-Same, load_word-Same,
  store_word-Same, finish, advance_pc-Next,
}

module _ (inst : Instruction) where
  pub li-Next : Moves Next (execute_li inst)
  unfolding execute_li
  li-Next = after (operand-Same inst 0) λ rt. after (operand-Same inst 1) λ value. finish rt value

  pub add-Next : Moves Next (execute_add inst)
  unfolding execute_add
  add-Next = after (operand-Same inst 0) λ rd. after (operand-Same inst 1) λ rs.
      after (operand-Same inst 2)
        λ rt. after (get_register-Same rs) λ a. after (get_register-Same rt) λ b. finish rd _

  pub addi-Next : Moves Next (execute_addi inst)
  unfolding execute_addi
  addi-Next = after (operand-Same inst 0) λ rt.
      after (operand-Same inst 1)
        λ rs. after (operand-Same inst 2) λ immediate. after (get_register-Same rs) λ a. finish rt _

  pub or-Next : Moves Next (execute_or inst)
  unfolding execute_or
  or-Next = after (operand-Same inst 0) λ rd. after (operand-Same inst 1) λ rs.
      after (operand-Same inst 2)
        λ rt. after (get_register-Same rs) λ a. after (get_register-Same rt) λ b. finish rd _

  pub ld_reg-Next : Moves Next (execute_ld_reg inst)
  unfolding execute_ld_reg
  ld_reg-Next = after (operand-Same inst 0) λ rt. after (operand-Same inst 1) λ base.
      after (operand-Same inst 2) λ rm.
        after (get_register-Same base)
          λ a. after (get_register-Same rm) λ b. after (load_word-Same _) λ value. finish rt value

  pub ld_imm-Next : Moves Next (execute_ld_imm inst)
  unfolding execute_ld_imm
  ld_imm-Next = after (operand-Same inst 0) λ rt. after (operand-Same inst 1) λ base.
      after (operand-Same inst 2) λ immediate.
        after (get_register-Same base) λ a. after (load_word-Same _) λ value. finish rt value

  pub st-Next : Moves Next (execute_st inst)
  unfolding execute_st
  st-Next = after (operand-Same inst 0) λ rt. after (operand-Same inst 1) λ base.
      after (operand-Same inst 2) λ immediate. after (get_register-Same base) λ a.
        after (get_register-Same rt) λ value. after (store_word-Same _ value) λ _. advance_pc-Next

  pub stp-Next : Moves Next (execute_stp inst)
  unfolding execute_stp
  stp-Next = after (operand-Same inst 0) λ rt1. after (operand-Same inst 1) λ rt2.
      after (operand-Same inst 2) λ base. after (operand-Same inst 3) λ immediate.
        after (get_register-Same base) λ a. after (get_register-Same rt1) λ first.
          after (store_word-Same _ first) λ _.
            after (get_register-Same rt2)
              λ second. after (store_word-Same _ second) λ _. advance_pc-Next

  pub clz-Next : Moves Next (execute_clz inst)
  unfolding execute_clz
  clz-Next =
      after (operand-Same inst 0)
        λ rd. after (operand-Same inst 1) λ rs. after (get_register-Same rs) λ a. finish rd _

  pub ssat-Next : Moves Next (execute_ssat inst)
  unfolding execute_ssat
  ssat-Next = after (operand-Same inst 0) λ rd. after (operand-Same inst 1) λ rs.
      after (operand-Same inst 2) λ width.
        after (get_register-Same rs)
          λ a. after (checked-Same (λ c. saturate_signed a width)) λ value. finish rd value

  pub rori-Next : Moves Next (execute_rori inst)
  unfolding execute_rori
  rori-Next = after (operand-Same inst 0) λ rd.
      after (operand-Same inst 1)
        λ rs. after (operand-Same inst 2) λ shift. after (get_register-Same rs) λ a. finish rd _

  pub bext-Next : Moves Next (execute_bext inst)
  unfolding execute_bext
  bext-Next = after (operand-Same inst 0) λ rd. after (operand-Same inst 1) λ rs1.
      after (operand-Same inst 2)
        λ rs2. after (get_register-Same rs1) λ a. after (get_register-Same rs2) λ mask. finish rd _
