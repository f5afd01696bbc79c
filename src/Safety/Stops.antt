-- ===== src/Safety/Stops.antt =====
-- Where `run` (src/toy/execution_context.cpp) returns, in every mode.
use toy_isa_v1_5_interpreter.Base.{◌≢◌}
use toy_isa_v1_5_interpreter.Machine.{ExecutionStatus}
use toy_isa_v1_5_interpreter.Machine.Monad.{Outcome, returned, thrown, undefined, diverged}

abbrev IsStopped : Outcome (Unit {0}) → Type 0
IsStopped (returned a d) = d.state.status ≢ ExecutionStatus.running
IsStopped (thrown e d) = Unit
IsStopped undefined = Unit
IsStopped diverged = Unit
