-- ===== src/Safety/Cache.antt =====
-- The methods of `TIBasicBlockCache` (src/toy/basic_block_cache.cpp) and the invariant.
use toy_isa_v1_5_interpreter.Base.{
  ℕ, ◌≡◌, refl, Option, none, some, List, [], ◌∷◌, All, Bool-cases, inl, inr, u64, ◌+◌,
}
use toy_isa_v1_5_interpreter.Checked.{Checked, ok, fail}
use toy_isa_v1_5_interpreter.Instruction.{Instruction}
use toy_isa_v1_5_interpreter.Memory.{CodeRange, take_dirty_code_ranges}
use toy_isa_v1_5_interpreter.Machine.{BasicBlock, BlockCache, Context}
use toy_isa_v1_5_interpreter.BlockCache.{
  find, erase, emplace, basic_block, with_blocks, decode_instructions, decode_fuel, decode_block,
  get_block, invalidate_blocks, invalidate_range, invalidate_ranges, overlaps, assign,
  flush_instruction_cache,
}
use toy_isa_v1_5_interpreter.BlockCache.Blocks.{IsDone, decode_instructions-IsDone}
use toy_isa_v1_5_interpreter.BlockCache.Maps.{All-find, All-erase, All-emplace}
use toy_isa_v1_5_interpreter.Executor.{execute_flush}
use toy_isa_v1_5_interpreter.Safety.Invariant.{
  IsWord, IsEntry, IsValid, Ends, Runs, Keeps, Runs-then, advance_pc-Keeps,
}

-- A block that the cache holds for `address`.
abbrev pub IsBlockAt : ℕ → BasicBlock → Type 0
IsBlockAt address block = IsEntry (address, block)

pub with_blocks-IsValid :
    {c : Context} (blocks : List (ℕ × BasicBlock))
    → All IsEntry blocks
    → IsValid c
    → IsValid (with_blocks blocks c)
with_blocks-IsValid blocks h v = record {
  register_count = v.register_count;
  registers = v.registers;
  pc = v.pc;
  memory = v.memory;
  blocks = h;
}

decode_block-Runs : (address : ℕ) → IsWord address → Runs (decode_block address) (IsBlockAt address)
unfolding decode_block
decode_block-Runs address word = record {
  at = λ c v.
      go c v (decode_instructions (decode_fuel c.memory) c.memory address) refl
        (decode_instructions-IsDone c.memory v.memory.small v.memory.bytes address word);
}
  where
    go :
        (c : Context)
        → IsValid c
        → (r : Option (Checked (List Instruction)))
        → decode_instructions (decode_fuel c.memory) c.memory address ≡ r
        → IsDone r
        → Ends (IsBlockAt address) (decode_block address c)
    go c v none e d = absurd d
    go c v (some (fail x)) e d = rw (e, decode_block) v
    go c v (some (ok insts)) e d =
        rw (e, decode_block)
          (
            with_blocks-IsValid (emplace address (basic_block address insts) c.block_cache.blocks)
                (All-emplace IsEntry address (basic_block address insts) c.block_cache.blocks
                  v.blocks (refl, d))
                v,
            (refl, d),
          )

-- From a valid context, `getBlock` throws or gives a block as the decoder makes it, at the address
-- asked for, a 32-bit word; the context stays valid.
pub get_block-Runs : (address : ℕ) → IsWord address → Runs (get_block address) (IsBlockAt address)
unfolding get_block
get_block-Runs address word = record { at = λ c v. go c v (find address c.block_cache.blocks) refl }
  where
    go :
        (c : Context)
        → IsValid c
        → (r : Option BasicBlock) → find address c.block_cache.blocks ≡ r
        → Ends (IsBlockAt address) (get_block address c)
    go c v none e = rw (e, get_block) ((decode_block-Runs address word).at c v)
    go c v (some block) e = elim (Bool-cases block.is_valid) [
      | inl valid ↦
          rw (e, get_block, valid) (v, All-find IsEntry address c.block_cache.blocks v.blocks e)
      | inr stale ↦
          rw (e, get_block, stale)
            ((decode_block-Runs address word).at
              (with_blocks (erase address c.block_cache.blocks) c)
              (with_blocks-IsValid (erase address c.block_cache.blocks)
                (All-erase IsEntry address c.block_cache.blocks v.blocks) v))
    ]

pub invalidate_blocks-IsEntry :
    (write_begin write_end : ℕ) (blocks : List (ℕ × BasicBlock)) (entries : List (ℕ × ℕ))
    → All IsEntry blocks
    → All IsEntry (invalidate_blocks write_begin write_end blocks entries).0
unfolding invalidate_blocks
invalidate_blocks-IsEntry write_begin write_end [] entries h = tt
invalidate_blocks-IsEntry write_begin write_end ((key, block) ∷ blocks) entries h =
    elim (Bool-cases (overlaps write_begin write_end block)) [
      | inl hit ↦
          rw hit
            (h.0, invalidate_blocks-IsEntry write_begin write_end blocks (assign key 0 entries) h.1)
      | inr miss ↦ rw miss (h.0, invalidate_blocks-IsEntry write_begin write_end blocks entries h.1)
    ]

invalidate_ranges-IsEntry :
    (ranges : List CodeRange) (cache : BlockCache)
    → All IsEntry cache.blocks
    → All IsEntry (invalidate_ranges ranges cache).blocks
unfolding invalidate_ranges invalidate_range
invalidate_ranges-IsEntry [] cache h = h
invalidate_ranges-IsEntry (range ∷ ranges) cache h =
    invalidate_ranges-IsEntry ranges (invalidate_range range.address range.size cache) (
      invalidate_blocks-IsEntry range.address (u64 (range.address + range.size)) cache.blocks
        cache.jit_entries h)

flush_instruction_cache-Keeps : Keeps flush_instruction_cache
unfolding flush_instruction_cache take_dirty_code_ranges
flush_instruction_cache-Keeps = record {
  at = λ c v. (
    record {
      register_count = v.register_count;
      registers = v.registers;
      pc = v.pc;
      memory = record { bytes = v.memory.bytes; small = v.memory.small };
      blocks = invalidate_ranges-IsEntry c.memory.dirty_code_ranges c.block_cache v.blocks;
    },
    tt,
  );
}

pub execute_flush-Keeps : (inst : Instruction) → Keeps (execute_flush inst)
unfolding execute_flush
execute_flush-Keeps inst = Runs-then flush_instruction_cache-Keeps advance_pc-Keeps
