-- ===== src/Safety/Runs.antt =====
-- `executeBlock`, `step` and `run` of src/toy/execution_context.cpp in the interpreting modes.
use toy_isa_v1_5_interpreter.Base.{ℕ, ◌≢◌}
use toy_isa_v1_5_interpreter.Machine.{ExecutionStatus, BasicBlock, Context, fault}
use toy_isa_v1_5_interpreter.Machine.Monad.{
  M, Outcome, returned, thrown, undefined, diverged, simulation, runtime_error, bind_outcome,
}
use toy_isa_v1_5_interpreter.BlockCache.Blocks.{IsBlock}
use toy_isa_v1_5_interpreter.Syscall.{Host}
use toy_isa_v1_5_interpreter.Engine.Agree.{execute_threaded_block-eq-execute_switch_block}
use toy_isa_v1_5_interpreter.Jit.Execute.{Ir}
use toy_isa_v1_5_interpreter.ExecutionContext.{
  ExecutionMode, threaded, switch, jit, Options, fault_on_exception, execute_mode, execute_block,
  step,
}
use toy_isa_v1_5_interpreter.Safety.Invariant.{IsValid, Ends, Keeps, Runs-bind, get_pc-Runs}
use toy_isa_v1_5_interpreter.Safety.Cache.{get_block-Runs}
use toy_isa_v1_5_interpreter.Safety.Host.{ReadsBytes}
use toy_isa_v1_5_interpreter.Safety.Engines.{execute_switch_block-Keeps}

-- The modes that interpret.
abbrev pub Interprets : ExecutionMode → Type 0
Interprets switch = Unit
Interprets threaded = Unit
Interprets jit = ⊥

-- How a run may end: with a valid context that is not RUNNING any more, or by an exception that
-- leaves a valid context; or its fuel is used up.
abbrev pub IsSafe : Outcome (Unit {0}) → Type 0
IsSafe (returned a c) = IsValid c × (c.state.status ≢ ExecutionStatus.running)
IsSafe (thrown e c) = IsValid c
IsSafe undefined = ⊥
IsSafe diverged = Unit

fault-IsValid : {c : Context} → IsValid c → IsValid (record c { state = fault c.state })
fault-IsValid v = record {
  register_count = v.register_count;
  registers = v.registers;
  pc = v.pc;
  memory = v.memory;
  blocks = v.blocks;
}

fault_on_exception-Ends :
    (r : Outcome (Unit {0})) → Ends (λ _. Unit {0}) r → Ends (λ _. Unit {0}) (fault_on_exception r)
fault_on_exception-Ends (returned a c) h = h
fault_on_exception-Ends (thrown (simulation e) c) h = fault-IsValid h
fault_on_exception-Ends (thrown runtime_error c) h = h
fault_on_exception-Ends undefined h = h
fault_on_exception-Ends diverged h = h

pub bind-IsSafe :
    (r : Outcome (Unit {0})) (k : M (Unit {0}))
    → Ends (λ _. Unit {0}) r
    → ((c : Context) → IsValid c → IsSafe (k c))
    → IsSafe (bind_outcome r (λ _. k))
bind-IsSafe (returned a c) k h f = f c h.0
bind-IsSafe (thrown e c) k h f = h
bind-IsSafe undefined k h f = h
bind-IsSafe diverged k h f = absurd h

module _ (host : Host) (honest : ReadsBytes host) (ir : Ir) where
  execute_mode-Keeps :
      (mode : ExecutionMode) (options : Options) (fuel : ℕ) (block : BasicBlock)
      → Interprets mode
      → IsBlock block.instructions
      → Keeps (execute_mode host ir mode options fuel block)
  unfolding execute_mode
  execute_mode-Keeps switch options fuel block i h = execute_switch_block-Keeps host honest block h
  execute_mode-Keeps threaded options fuel block i h =
      rw (execute_threaded_block-eq-execute_switch_block host block h)
        (execute_switch_block-Keeps host honest block h)
  execute_mode-Keeps jit options fuel block i h = absurd i

  execute_block-Keeps :
      (options : Options) (fuel : ℕ) (block : BasicBlock)
      → Interprets options.mode
      → IsBlock block.instructions
      → Keeps (execute_block host ir options fuel block)
  unfolding execute_block
  execute_block-Keeps options fuel block i h = record {
    at = λ c v.
        fault_on_exception-Ends (execute_mode host ir options.mode options fuel block c)
          ((execute_mode-Keeps options.mode options fuel block i h).at c v);
  }

  pub step-Keeps :
      (options : Options) (fuel : ℕ) → Interprets options.mode → Keeps (step host ir options fuel)
  unfolding step
  step-Keeps options fuel i = Runs-bind get_pc-Runs λ pc word.
      Runs-bind (get_block-Runs pc word) λ block at. execute_block-Keeps options fuel block i at.1
