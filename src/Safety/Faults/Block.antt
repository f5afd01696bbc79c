-- ===== src/Safety/Faults/Block.antt =====
-- Where whole blocks throw (src/execution_type/switch_executor.cpp).
use toy_isa_v1_5_interpreter.Base.{
  ℕ, zero, suc, refl, ◌+◌, ◌*◌, ◌^◌, ◌<◌, ◌≡◌, ap, arith, List, [], ◌∷◌, u32,
}
use toy_isa_v1_5_interpreter.Instruction.{Instruction}
use toy_isa_v1_5_interpreter.Machine.{CpuState, Context, BasicBlock}
use toy_isa_v1_5_interpreter.Machine.Monad.{
  M, Outcome, Exception, returned, thrown, undefined, diverged, pure, bind_outcome,
}
use toy_isa_v1_5_interpreter.BlockCache.Blocks.{EndsOnce}
use toy_isa_v1_5_interpreter.Syscall.{Host}
use toy_isa_v1_5_interpreter.Engine.{
  execute_opcode, execute_instruction_switch, execute_switch_instructions, execute_switch_block,
}
use toy_isa_v1_5_interpreter.Safety.Faults.{After, Next, Anywhere}
use toy_isa_v1_5_interpreter.Safety.Faults.Ends.{execute_opcode-Anywhere, execute_opcode-Next}

module _ (host : Host) where
  -- The instructions before number `i` return, and this one throws.
  abbrev pub ThrowsAt : ℕ → List Instruction → Context → Exception → Context → Type 0
  ThrowsAt i [] c e d = ⊥
  ThrowsAt zero (inst ∷ rest) c e d = execute_instruction_switch host inst c ≡ thrown e d
  ThrowsAt (suc i) (inst ∷ rest) c e d =
      (m : Context) × (execute_instruction_switch host inst c ≡ returned tt m)
      × ThrowsAt i rest m e d

  -- Where a block throws, the program counter is the address of the instruction that throws.
  abbrev pub IsPrecise : List Instruction → Context → Outcome (Unit {0}) → Type 0
  IsPrecise insts c (returned a d) = Unit
  IsPrecise insts c (thrown e d) =
      (i : ℕ) × ThrowsAt i insts c e d × (d.cpu.pc ≡ u32 (c.cpu.pc + 4 * i))
  IsPrecise insts c undefined = Unit
  IsPrecise insts c diverged = Unit

  -- The first instruction throws.
  first-IsPrecise :
      (inst : Instruction) (rest : List Instruction) (c d : Context) (e : Exception)
      → c.cpu.pc < 2 ^ 32
      → execute_instruction_switch host inst c ≡ thrown e d
      → d.cpu ≡ c.cpu
      → IsPrecise (inst ∷ rest) c (thrown e d)
  first-IsPrecise inst rest c d e word throws same =
      let at : d.cpu.pc ≡ c.cpu.pc = ap (λ (p : CpuState). p.pc) same in (0, throws, omega arith)

  -- The throw of a later instruction, seen from the one before.
  later-IsPrecise :
      (inst : Instruction) (rest : List Instruction) (c m : Context) (r : Outcome (Unit {0}))
      → execute_instruction_switch host inst c ≡ returned tt m
      → m.cpu.pc ≡ u32 (c.cpu.pc + 4)
      → IsPrecise rest m r
      → IsPrecise (inst ∷ rest) c r
  later-IsPrecise inst rest c m (returned a d) returns e h = tt
  later-IsPrecise inst rest c m (thrown x d) returns e (i, throws, at) =
      (suc i, (m, returns, throws), omega arith)
  later-IsPrecise inst rest c m undefined returns e h = tt
  later-IsPrecise inst rest c m diverged returns e h = tt

  -- An instruction inside a block and those behind it.
  inner-IsPrecise :
      (inst : Instruction) (rest : List Instruction) (c : Context)
      → c.cpu.pc < 2 ^ 32
      → (r : Outcome (Unit {0})) (k : M (Unit {0})) → execute_instruction_switch host inst c ≡ r
      → After Next c r
      → ((m : Context) → m.cpu.pc < 2 ^ 32 → IsPrecise rest m (k m))
      → IsPrecise (inst ∷ rest) c (bind_outcome r (λ _. k))
  inner-IsPrecise inst rest c word (returned tt m) k e h more =
      later-IsPrecise inst rest c m (k m) e h (more m (omega arith))
  inner-IsPrecise inst rest c word (thrown x d) k e h more =
      first-IsPrecise inst rest c d x word e h
  inner-IsPrecise inst rest c word undefined k e h more = tt
  inner-IsPrecise inst rest c word diverged k e h more = tt

  -- The last instruction.
  last-IsPrecise :
      (inst : Instruction) (c : Context)
      → c.cpu.pc < 2 ^ 32
      → (r : Outcome (Unit {0})) → execute_instruction_switch host inst c ≡ r
      → After Anywhere c r
      → IsPrecise (inst ∷ []) c (bind_outcome r (λ _. pure tt))
  last-IsPrecise inst c word (returned a d) e h = tt
  last-IsPrecise inst c word (thrown x d) e h = first-IsPrecise inst [] c d x word e h
  last-IsPrecise inst c word undefined e h = tt
  last-IsPrecise inst c word diverged e h = tt

  execute_switch_instructions-IsPrecise :
      (insts : List Instruction) (c : Context)
      → EndsOnce insts
      → c.cpu.pc < 2 ^ 32
      → IsPrecise insts c (execute_switch_instructions host insts c)
  unfolding execute_switch_instructions execute_instruction_switch
  execute_switch_instructions-IsPrecise [] c once word = absurd once
  execute_switch_instructions-IsPrecise (inst ∷ []) c once word =
      last-IsPrecise inst c word (execute_opcode host inst.op_code inst c) refl
        ((execute_opcode-Anywhere host inst inst.op_code).at c)
  execute_switch_instructions-IsPrecise (inst ∷ (next ∷ rest)) c once word =
      inner-IsPrecise inst (next ∷ rest) c word (execute_opcode host inst.op_code inst c)
        (execute_switch_instructions host (next ∷ rest)) refl
        ((execute_opcode-Next host inst inst.op_code once.0).at c)
        (λ m at. execute_switch_instructions-IsPrecise (next ∷ rest) m once.1 at)

  -- Faults are precise: where a block in which only the last instruction may end it throws, one of
  -- its instructions throws after those before it returned, and the program counter is the address
  -- of this instruction, four bytes for each one before it from where the block was entered. The
  -- block is entered with a program counter below 2^32.
  pub execute_switch_block-IsPrecise :
      (block : BasicBlock) (c : Context)
      → EndsOnce block.instructions
      → c.cpu.pc < 2 ^ 32
      → IsPrecise block.instructions c (execute_switch_block host block c)
  unfolding execute_switch_block
  execute_switch_block-IsPrecise block c once word =
      execute_switch_instructions-IsPrecise block.instructions c once word
