-- ===== src/Jit.antt =====
-- src/execution_type/jit_executor.cpp: translation of basic blocks through the IR library, and the
-- chains of translated blocks.
pub mod Ir
pub mod Encode
pub mod Compile
pub mod Execute
pub mod Helpers
pub mod Meaning
pub mod Native
