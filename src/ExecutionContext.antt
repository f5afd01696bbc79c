-- ===== src/ExecutionContext.antt =====
-- src/toy/execution_context.cpp: `executeBlock`, `step` and `run`. The members that never change
-- are the record `Options`.
use toy_isa_v1_5_interpreter.Base.{ℕ, zero, suc}
use toy_isa_v1_5_interpreter.Machine.{ExecutionStatus, BasicBlock, fault}
use toy_isa_v1_5_interpreter.Machine.Monad.{
  M, Outcome, returned, thrown, undefined, diverged, simulation, runtime_error, pure, get_pc, ◌>>=◌,
  ◌>>◌,
}
use toy_isa_v1_5_interpreter.BlockCache.{get_block}
use toy_isa_v1_5_interpreter.Syscall.{Host}
use toy_isa_v1_5_interpreter.Engine.{execute_switch_block, execute_threaded_block}
use toy_isa_v1_5_interpreter.Jit.Execute.{Ir, execute_jit_block}

pub data ExecutionMode : Type 0 where
  threaded switch jit : ExecutionMode

pub record Options : Type 0 where
  pub mode : ExecutionMode
  pub jit_threshold : ℕ
  pub jit_optimization_level : ℕ

-- The handler of `executeBlock`: a `SimulationException` faults the context and goes on.
abbrev pub fault_on_exception : Outcome (Unit {0}) → Outcome (Unit {0})
fault_on_exception (returned a c) = returned a c
fault_on_exception (thrown (simulation e) c) =
    thrown (simulation e) (record c { state = fault c.state })
fault_on_exception (thrown runtime_error c) = thrown runtime_error c
fault_on_exception undefined = undefined
fault_on_exception diverged = diverged

-- The test of the loop of `run`.
abbrev pub while_running : ExecutionStatus → M (Unit {0}) → M (Unit {0})
while_running ExecutionStatus.running again = again
while_running _ again = pure tt

module _ (host : Host) (ir : Ir) where
  -- The engine of a mode; `fuel` bounds a chain of native blocks.
  unfoldable pub execute_mode : ExecutionMode → Options → ℕ → BasicBlock → M (Unit {0})
  execute_mode switch options fuel block = execute_switch_block host block
  execute_mode jit options fuel block =
      execute_jit_block ir host options.jit_optimization_level options.jit_threshold fuel block
  execute_mode threaded options fuel block = execute_threaded_block host block

  unfoldable pub execute_block : Options → ℕ → BasicBlock → M (Unit {0})
  unfolding execute_mode
  execute_block options fuel block c =
      fault_on_exception (execute_mode options.mode options fuel block c)

  unfoldable pub step : Options → ℕ → M (Unit {0})
  unfolding get_pc
  step options fuel = do pc ← get_pc; block ← get_block pc; execute_block options fuel block

  -- The loop of `run`, with `fuel` for its rounds and for each chain.
  unfoldable pub run : Options → ℕ → M (Unit {0})
  run options zero c = diverged
  run options (suc fuel) c = while_running c.state.status (step options fuel >> run options fuel) c
