-- ===== src/Safety.antt =====
-- The invariant of the machine, and proofs about its methods, up to whole runs.
pub mod Invariant
pub mod Arith
pub mod Executors
pub mod Cache
pub mod Host
pub mod Engines
pub mod Runs
pub mod Agree
pub mod Fuel
pub mod Stops
pub mod Exit
pub mod Loader
pub mod Faults
