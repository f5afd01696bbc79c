-- ===== src/Safety/Fuel.antt =====
-- The fuel of `run` (src/toy/execution_context.cpp) in the interpreting modes.
use mathlib.Core.Path.{fun_ext}
use toy_isa_v1_5_interpreter.Base.{ℕ, zero, suc, ◌≤◌, ◌≡◌, ◌≢◌, refl, ap, arith}
use toy_isa_v1_5_interpreter.Machine.{ExecutionStatus, BasicBlock, Context}
use toy_isa_v1_5_interpreter.Machine.Monad.{
  M, Outcome, returned, thrown, undefined, diverged, bind_outcome, get_pc, ◌>>=◌,
}
use toy_isa_v1_5_interpreter.BlockCache.{get_block}
use toy_isa_v1_5_interpreter.Syscall.{Host}
use toy_isa_v1_5_interpreter.Jit.Execute.{Ir}
use toy_isa_v1_5_interpreter.ExecutionContext.{
  ExecutionMode, threaded, switch, jit, Options, fault_on_exception, execute_mode, execute_block,
  step, run, while_running,
}
use toy_isa_v1_5_interpreter.Safety.Runs.{Interprets}

module _ (host : Host) (ir : Ir) (options : Options) (interprets : Interprets options.mode) where
  -- An interpreter has no use for fuel.
  execute_mode-fuel :
      (mode : ExecutionMode) (m n : ℕ) (block : BasicBlock)
      → Interprets mode
      → execute_mode host ir mode options m block ≡ execute_mode host ir mode options n block
  unfolding execute_mode
  execute_mode-fuel switch m n block h = refl
  execute_mode-fuel threaded m n block h = refl
  execute_mode-fuel jit m n block h = absurd h

  step-fuel : (m n : ℕ) → step host ir options m ≡ step host ir options n
  unfolding step execute_block
  step-fuel m n =
      ap (λ (k : BasicBlock → M (Unit {0})). get_pc >>= λ pc. get_block pc >>= k)
        (fun_ext λ block. fun_ext λ c.
          ap (λ (k : M (Unit {0})). fault_on_exception (k c))
            (execute_mode-fuel options.mode m n block interprets))

  outcome-fuel :
      (r : Outcome (Unit {0})) (k k' : M (Unit {0}))
      → bind_outcome r (λ _. k) ≢ diverged
      → ((d : Context) → k d ≢ diverged → k' d ≡ k d)
      → bind_outcome r (λ _. k') ≡ bind_outcome r (λ _. k)
  outcome-fuel (returned a d) k k' h more = more d h
  outcome-fuel (thrown e d) k k' h more = refl
  outcome-fuel undefined k k' h more = refl
  outcome-fuel diverged k k' h more = refl

  -- A round of the loop.
  round-fuel :
      (status : ExecutionStatus) (m k k' : M (Unit {0})) (c : Context)
      → while_running status (m >>= λ _. k) c ≢ diverged
      → ((d : Context) → k d ≢ diverged → k' d ≡ k d)
      → while_running status (m >>= λ _. k') c ≡ while_running status (m >>= λ _. k) c
  round-fuel ExecutionStatus.running m k k' c h more = outcome-fuel (m c) k k' h more
  round-fuel ExecutionStatus.halted m k k' c h more = refl
  round-fuel ExecutionStatus.faulted m k k' c h more = refl

  -- Where fuel is enough for a run in an interpreting mode, more fuel gives the same outcome: the
  -- result of a run that ends does not depend on the fuel.
  pub run-more_fuel :
      (fuel more : ℕ) (c : Context)
      → fuel ≤ more
      → run host ir options fuel c ≢ diverged
      → run host ir options more c ≡ run host ir options fuel c
  unfolding run
  run-more_fuel zero more c le h = absurd (h refl)
  run-more_fuel (suc fuel) zero c le h = absurd (omega arith)
  run-more_fuel (suc fuel) (suc more) c le h = rw (step-fuel more fuel) (
      round-fuel c.state.status (step host ir options fuel) (run host ir options fuel)
        (run host ir options more) c h (λ d on. run-more_fuel fuel more d (omega arith) on))
