-- ===== src/Tests.antt =====
-- The theorems at concrete inputs.
mod Safety
mod Components
mod Arithmetic
mod Jit
mod Runs
mod Programs
