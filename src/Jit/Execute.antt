-- ===== src/Jit/Execute.antt =====
-- `executeJitBlock` of src/execution_type/jit_executor.cpp. The IR library is the parameter `Ir`.
use toy_isa_v1_5_interpreter.Base.{
  ℕ, zero, suc, ◌+◌, Bool, false, none, some, List, [], ltb, ◌==◌, if◌then◌else◌, u64,
}
use toy_isa_v1_5_interpreter.Machine.{BasicBlock, CompiledBlock}
use toy_isa_v1_5_interpreter.Machine.Monad.{
  M, returned, thrown, undefined, diverged, runtime_error, pure, ◌>>=◌, ◌>>◌,
}
use toy_isa_v1_5_interpreter.BlockCache.{assign, emplace}
use toy_isa_v1_5_interpreter.Syscall.{Host}
use toy_isa_v1_5_interpreter.Engine.{execute_threaded_block}
use toy_isa_v1_5_interpreter.Jit.Ir.{IrNode}
use toy_isa_v1_5_interpreter.Jit.Compile.{encode_block}

-- `ir_jit_compile` with its level, 0 for a null entry, and a call of the native code at an entry,
-- which gives the next entry.
pub record Ir : Type 0 where
  pub compile : List IrNode → ℕ → CompiledBlock
  pub call : ℕ → M ℕ

abbrev pub has_compiled_block : BasicBlock → Bool
has_compiled_block block = ltb 0 block.compiled_block.entry_point

-- A change of the block through the reference to its entry of the cache.
unfoldable pub update_block : BasicBlock → M (Unit {0})
update_block block c = returned tt (record c {
  block_cache = record (c.block_cache) {
    blocks = assign block.start_address block c.block_cache.blocks;
  };
})

unfoldable pub record_execution : BasicBlock → BasicBlock
record_execution block = record block { execution_count = u64 (block.execution_count + 1) }

-- `jitEntrySlot` makes the slot, and `setJitEntry` fills it.
unfoldable pub set_jit_entry : ℕ → ℕ → M (Unit {0})
set_jit_entry address entry c = returned tt (record c {
  block_cache = record (c.block_cache) {
    jit_entries = assign address entry (emplace address 0 c.block_cache.jit_entries);
  };
})

abbrev pub not_yet : BasicBlock → ℕ → Bool
not_yet block threshold =
    if has_compiled_block block then false else ltb block.execution_count threshold

module _ (ir : Ir) where
  -- `compileBlock`, with the slots that it makes.
  unfoldable pub compile_block : BasicBlock → ℕ → M CompiledBlock
  unfolding encode_block
  compile_block block level c =
      elim (encode_block block
        (record { count = 0; nodes = []; jit_entries = c.block_cache.jit_entries })) [
          | none ↦ undefined
          | some (_, built) ↦ returned (ir.compile built.nodes level) (record c {
            block_cache = record (c.block_cache) { jit_entries = built.jit_entries };
          })
        ]

  -- The loop over the chain of native entries.
  unfoldable pub run_chain : ℕ → ℕ → M (Unit {0})
  run_chain zero entry = λ c. diverged
  run_chain (suc fuel) entry =
      let rest = ir.call entry >>= run_chain fuel in if entry == 0 then pure tt else rest

  -- Compile the block if it is not, and publish its entry.
  unfoldable pub ensure_compiled : BasicBlock → ℕ → M ℕ
  unfolding compile_block update_block set_jit_entry
  ensure_compiled block level =
      if has_compiled_block block then pure block.compiled_block.entry_point else (do
        compiled ← compile_block block level
        if compiled.entry_point == 0 then (λ c. thrown runtime_error c) else (do
          update_block (record block { compiled_block = compiled })
          set_jit_entry block.start_address compiled.entry_point
          pure compiled.entry_point))

  unfoldable pub execute_jit_block : Host → ℕ → ℕ → ℕ → BasicBlock → M (Unit {0})
  unfolding run_chain ensure_compiled update_block record_execution
  execute_jit_block host level threshold fuel block =
      let native = ensure_compiled block level >>= λ entry. run_chain fuel entry in
      if not_yet block threshold
      then update_block (record_execution block) >> execute_threaded_block host block
      else native
