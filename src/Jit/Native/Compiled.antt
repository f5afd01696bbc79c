-- ===== src/Jit/Native/Compiled.antt =====
-- A block that `executeJitBlock` (src/execution_type/jit_executor.cpp) compiles and enters.
use toy_isa_v1_5_interpreter.Base.{ℕ, ◌≡◌, List, some, false, ◌≢◌}
use toy_isa_v1_5_interpreter.Machine.{Context, BasicBlock, CompiledBlock}
use toy_isa_v1_5_interpreter.Machine.Monad.{Outcome, returned, thrown, runtime_error}
use toy_isa_v1_5_interpreter.BlockCache.{find, emplace, assign}
use toy_isa_v1_5_interpreter.Engine.{execute_switch_block}
use toy_isa_v1_5_interpreter.Syscall.{Host}
use toy_isa_v1_5_interpreter.Jit.Ir.{IrNode}
use toy_isa_v1_5_interpreter.Jit.Meaning.{active, run_nodes}
use toy_isa_v1_5_interpreter.Jit.Execute.{Ir}
use toy_isa_v1_5_interpreter.Jit.Native.Agree.{Agrees, last_op}

-- What the IR library documents: a call of the native code of a list of nodes is a run of them. A
-- null entry is no native code, and nothing is said of it.
pub record Compiles (host : Host) (ir : Ir) (nodes : List IrNode) (level : ℕ) : Type 0 where
  pub meaning :
      (ir.compile nodes level).entry_point ≢ 0
      → (c : Context)
      → ir.call (ir.compile nodes level).entry_point c
        ≡ run_nodes host nodes active 0 (λ _. 0) false c

-- The context after the block is compiled.
abbrev compiled_context : BasicBlock → CompiledBlock → List (ℕ × ℕ) → Context → Context
compiled_context block compiled slots c = record c {
  block_cache = record (c.block_cache) {
    blocks =
        assign block.start_address (record block { compiled_block = compiled })
          c.block_cache.blocks;
    jit_entries =
        assign block.start_address compiled.entry_point (emplace block.start_address 0 slots);
  };
}

-- The IR library gives a null entry for the nodes of the block, and the method throws.
pub record Fails (block : BasicBlock) (compiled : CompiledBlock) (r : Outcome ℕ) : Type 0 where
  pub null : compiled.entry_point ≡ 0
  pub context : Context
  pub throws : r ≡ thrown runtime_error context

-- The library gives an entry, and the method goes on with it after publishing it in the slot of the
-- block; its call in the context that is left agrees with switch execution of the block.
pub record Publishes (host : Host) (ir : Ir) (block : BasicBlock) (compiled : CompiledBlock)
    (r : Outcome ℕ) : Type 0 where
  pub entry : compiled.entry_point ≢ 0
  pub context : Context
  pub returns : r ≡ returned compiled.entry_point context
  pub published :
      find block.start_address context.block_cache.jit_entries ≡ some compiled.entry_point
  pub agrees :
      Agrees context.cpu.pc
        (last_op block.instructions)
        (execute_switch_block host block context)
        (ir.call compiled.entry_point context)
