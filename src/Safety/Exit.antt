-- ===== src/Safety/Exit.antt =====
-- A program that exits: from the fetch of its SYSCALL (src/toy/basic_block_cache.cpp) over the
-- executor and src/toy/syscall_emulator.cpp to the end of `run` (src/toy/execution_context.cpp).
use toy_isa_v1_5_interpreter.Base.{
  ℕ, suc, ◌+◌, ◌/◌, ◌^◌, ◌<◌, ◌≤◌, ◌≡◌, refl, arith, sym, ◌∙◌, ap, some, none, get_elem?, List, [],
  ◌∷◌, Option, inl, inr, ◌⊎◌, true, false, subst,
}
use toy_isa_v1_5_interpreter.Checked.{ok}
use toy_isa_v1_5_interpreter.Instruction.{Opcode}
use toy_isa_v1_5_interpreter.Decoder.{decode}
use toy_isa_v1_5_interpreter.Decoder.Shape.{decode-IsDecoded}
use toy_isa_v1_5_interpreter.Memory.{size, read32}
use toy_isa_v1_5_interpreter.Machine.{ExecutionStatus, Context, BasicBlock, halt}
use toy_isa_v1_5_interpreter.Machine.Monad.{
  M, Outcome, diverged, bind_outcome, returned, get_register, get_pc,
}
use toy_isa_v1_5_interpreter.BlockCache.{
  ends_block, basic_block, find, emplace, erase, with_blocks, decode_round, decode_instructions,
  decode_fuel, decode_block, get_block,
}
use toy_isa_v1_5_interpreter.BlockCache.Blocks.{IsBlock, read32-lt}
use toy_isa_v1_5_interpreter.BlockCache.Hits.{get_block-hit}
use toy_isa_v1_5_interpreter.Syscall
use toy_isa_v1_5_interpreter.Syscall.{Host, find_handler}
use toy_isa_v1_5_interpreter.Executor.{execute_syscall}
use toy_isa_v1_5_interpreter.Engine.{
  execute_opcode, execute_instruction_switch, execute_switch_instructions, execute_switch_block,
}
use toy_isa_v1_5_interpreter.Jit.Execute.{Ir}
use toy_isa_v1_5_interpreter.ExecutionContext.{
  ExecutionMode, switch, threaded, jit, Options, while_running, execute_mode, execute_block, step,
  run,
}
use toy_isa_v1_5_interpreter.Engine.Agree.{execute_threaded_block-eq-execute_switch_block}
use toy_isa_v1_5_interpreter.Safety.Invariant.{IsValid}
use toy_isa_v1_5_interpreter.Safety.Runs.{Interprets}
use toy_isa_v1_5_interpreter.Safety.Fuel.{run-more_fuel}

-- What the cache has at the program counter is no block, one that is not valid any more, or the
-- block of the word in memory.
abbrev pub IsCurrent : ℕ → Option BasicBlock → Type 0
IsCurrent word none = Unit
IsCurrent word (some block) =
    (block.is_valid ≡ false) ⊎ ((block.is_valid ≡ true) × (block.instructions ≡ decode word ∷ []))

-- The program counter stands at a SYSCALL for an exit with `code`, and the cache does not hold other
-- code for it.
pub record IsExit (c : Context) (word code : ℕ) : Type 0 where
  pub running : c.state.status ≡ ExecutionStatus.running
  pub fetched : read32 c.memory c.cpu.pc ≡ ok word
  pub is_syscall : (decode word).op_code ≡ Opcode.syscall
  pub current : IsCurrent word (find c.cpu.pc c.block_cache.blocks)
  pub number : get_elem? c.cpu.registers 8 ≡ some 60
  pub argument : get_elem? c.cpu.registers 0 ≡ some code

while_running-running :
    (status : ExecutionStatus)
    → status ≡ ExecutionStatus.running
    → (m : M (Unit {0})) (c : Context) → while_running status m c ≡ m c
while_running-running status e m c = rw e refl

differ : {c : Context} → ◌≡◌ {A = Outcome (Unit {0})} (returned tt c) diverged → ⊥
differ e = absurd (cc)

-- What `getBlock` gives at such a SYSCALL: its block, in a context with another cache at most.
record Got (c : Context) (word : ℕ) : Type 0 where
  block : BasicBlock
  blocks : List (ℕ × BasicBlock)
  only : block.instructions ≡ decode word ∷ []
  got : get_block c.cpu.pc c ≡ returned block (with_blocks blocks c)

module _ (host : Host) (c : Context) (word code : ℕ) (exit : IsExit c word code) where
  decode_instructions-exit :
      decode_instructions (decode_fuel c.memory) c.memory c.cpu.pc ≡ some (ok (decode word ∷ []))
  unfolding decode_fuel decode_instructions decode_round ends_block
  decode_instructions-exit =
      let rounds : size c.memory / 4 + 1 ≡ suc (size c.memory / 4) = omega arith in
      rw (rounds, exit.fetched, exit.is_syscall) refl

  get_block-exit : Got c word
  unfolding get_block decode_block
  get_block-exit = go (find c.cpu.pc c.block_cache.blocks) refl exit.current
    where
      go :
          (r : Option BasicBlock)
          → find c.cpu.pc c.block_cache.blocks ≡ r
          → IsCurrent word r
          → Got c word
      go none e h = record {
        block = basic_block c.cpu.pc (decode word ∷ []);
        blocks = emplace c.cpu.pc (basic_block c.cpu.pc (decode word ∷ [])) c.block_cache.blocks;
        only = refl;
        got = rw (e, get_block, decode_block, decode_instructions-exit) refl;
      }
      go (some b) e (inl stale) = record {
        block = basic_block c.cpu.pc (decode word ∷ []);
        blocks =
            emplace c.cpu.pc (basic_block c.cpu.pc (decode word ∷ []))
              (erase c.cpu.pc c.block_cache.blocks);
        only = refl;
        got = rw (e, get_block, stale, decode_block, decode_instructions-exit) refl;
      }
      go (some b) e (inr (valid, only)) = record {
        block = b;
        blocks = c.block_cache.blocks;
        only = only;
        got = get_block-hit c.cpu.pc c b e valid;
      }

  abbrev block : BasicBlock
  block = get_block-exit.block

  -- The context with the cache that `getBlock` leaves.
  abbrev cached : Context
  cached = with_blocks get_block-exit.blocks c

  abbrev halted : Context
  halted = record cached { state = halt code c.state }

  execute-exit : execute_switch_block host block cached ≡ returned tt halted
  unfolding execute_switch_block execute_switch_instructions execute_instruction_switch
      execute_opcode execute_syscall Syscall.execute find_handler Syscall.handle Syscall.exit
      get_register halt
  execute-exit = rw (get_block-exit.only, exit.is_syscall, exit.number, exit.argument) refl

  module _ (ir : Ir) (options : Options) (interprets : Interprets options.mode)
      (valid : IsValid c) where
    execute_mode-exit :
        (mode : ExecutionMode) (fuel : ℕ)
        → Interprets mode
        → execute_mode host ir mode options fuel block cached ≡ returned tt halted
    unfolding execute_mode
    execute_mode-exit switch fuel h = execute-exit
    execute_mode-exit threaded fuel h =
        let fits : word < 2 ^ 32 =
          read32-lt c.memory c.cpu.pc valid.memory.bytes valid.pc exit.fetched in
        ap (λ (m : M (Unit {0})). m cached)
          (execute_threaded_block-eq-execute_switch_block host block (
            subst IsBlock (sym get_block-exit.only)
              (record { ends_once = tt; decoded = (decode-IsDecoded word fits, tt) })))
        ∙ execute-exit
    execute_mode-exit jit fuel h = absurd h

    step-exit : (fuel : ℕ) → step host ir options fuel c ≡ returned tt halted
    unfolding step execute_block get_pc
    step-exit fuel = rw (get_block-exit.got, execute_mode-exit options.mode fuel interprets) refl

    run_two-exit : run host ir options 2 c ≡ returned tt halted
    unfolding run halt
    run_two-exit =
        while_running-running c.state.status exit.running _ c
        ∙ ap (λ (r : Outcome (Unit {0})). bind_outcome r (λ _. run host ir options 1)) (step-exit 1)

    -- In an interpreting mode, a run from a valid context that is RUNNING at a SYSCALL of the memory
    -- with the number of exit in its register ends: with fuel for two rounds or more it returns, the
    -- status is HALTED and the exit code is the argument. If the cache has a valid block at the
    -- SYSCALL, it is the one that the memory holds.
    pub run-exits :
        (fuel : ℕ)
        → 2 ≤ fuel
        → (d : Context) × (run host ir options fuel c ≡ returned tt d)
          × (d.state.status ≡ ExecutionStatus.halted)
          × (d.state.exit_code ≡ code)
    unfolding halt
    run-exits fuel enough = (
      halted,
      run-more_fuel host ir options interprets 2 fuel c enough (λ e. differ (sym run_two-exit ∙ e))
          ∙ run_two-exit,
      refl,
      refl,
    )
