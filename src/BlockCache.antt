-- ===== src/BlockCache.antt =====
-- `TIBasicBlock` and `TIBasicBlockCache` (include/toy/basic_block_cache.hpp,
-- src/toy/basic_block_cache.cpp): the blocks that were decoded, by start address, and the native
-- entries for chaining. An `unordered_map` is a list of pairs with distinct keys.
pub mod Blocks
pub mod Flush
pub mod Maps
pub mod Hits
pub mod Touched
pub mod Dirty
use toy_isa_v1_5_interpreter.Base.{
  ℕ, zero, suc, ◌+◌, ◌*◌, ◌/◌, Bool, true, false, ◌&&◌, Option, none, some, List, [], ◌∷◌, length,
  ltb, ◌==◌, if◌then◌else◌, u32, u64,
}
use toy_isa_v1_5_interpreter.BitUtils.{instruction_size}
use toy_isa_v1_5_interpreter.Checked.{Checked, ok, fail}
use toy_isa_v1_5_interpreter.Instruction.{Opcode, Instruction}
use toy_isa_v1_5_interpreter.Decoder.{decode}
use toy_isa_v1_5_interpreter.Memory.{Memory, CodeRange, read32, size, take_dirty_code_ranges}
use toy_isa_v1_5_interpreter.Machine.{BasicBlock, BlockCache, Context}
use toy_isa_v1_5_interpreter.Machine.Monad.{M, returned, thrown, diverged, simulation}

-- The constructor of `TIBasicBlock`.
abbrev pub basic_block : ℕ → List Instruction → BasicBlock
basic_block start_address instructions = record {
  start_address = start_address;
  execution_count = 0;
  is_valid = true;
  instructions = instructions;
  compiled_block = record { entry_point = 0; code_size = 0 };
}

unfoldable pub end_address : BasicBlock → ℕ
end_address block = u32 (block.start_address + u32 (length block.instructions * instruction_size))

unfoldable pub invalidate : BasicBlock → BasicBlock
invalidate block = record block { is_valid = false }

unfoldable pub ends_block : Opcode → Bool
ends_block Opcode.beq = true
ends_block Opcode.j = true
ends_block Opcode.syscall = true
ends_block Opcode.invalid = true
ends_block Opcode.flush = true
ends_block _ = false

-- The maps: `find`, `erase`, and `emplace`, which keeps an entry that is there.
module _ {V : Type 0} where
  unfoldable pub find : ℕ → List (ℕ × V) → Option V
  find key [] = none
  find key ((k, v) ∷ entries) = if k == key then some v else find key entries

  unfoldable pub erase : ℕ → List (ℕ × V) → List (ℕ × V)
  erase key [] = []
  erase key ((k, v) ∷ entries) =
      let rest = erase key entries in if k == key then entries else (k, v) ∷ rest

  unfoldable pub emplace : ℕ → V → List (ℕ × V) → List (ℕ × V)
  emplace key v [] = (key, v) ∷ []
  emplace key v ((k, w) ∷ entries) =
      let rest = emplace key v entries in if k == key then (k, w) ∷ entries else (k, w) ∷ rest

  -- A write through the reference to an entry that is there.
  unfoldable pub assign : ℕ → V → List (ℕ × V) → List (ℕ × V)
  assign key v [] = []
  assign key v ((k, w) ∷ entries) =
      let rest = assign key v entries in if k == key then (k, v) ∷ entries else (k, w) ∷ rest

-- `++` on the instructions of a decoding that may have failed or run out of fuel.
abbrev pub prepend :
    Instruction → Option (Checked (List Instruction)) → Option (Checked (List Instruction))
prepend inst none = none
prepend inst (some (fail e)) = some (fail e)
prepend inst (some (ok rest)) = some (ok (inst ∷ rest))

-- A round of the loop of `decodeBlock`, with the word that was read, the next address and the
-- rounds that may follow.
unfoldable pub decode_round :
    Memory
    → ℕ
    → Option (Checked (List Instruction))
    → Checked ℕ
    → Option (Checked (List Instruction))
unfolding ends_block
decode_round memory next rest (fail e) = some (fail e)
decode_round memory next rest (ok encoding) =
    let inst = decode encoding in
    if ends_block inst.op_code
    then some (ok (inst ∷ []))
    else if ltb (size memory) (u64 (next + instruction_size))
    then some (ok (inst ∷ []))
    else prepend inst rest

-- The loop of `decodeBlock`; `none` is fuel that ran out.
unfoldable pub decode_instructions : ℕ → Memory → ℕ → Option (Checked (List Instruction))
unfolding decode_round
decode_instructions zero memory address = none
decode_instructions (suc fuel) memory address =
    let next = u32 (address + instruction_size) in
    let rest = decode_instructions fuel memory next in
    decode_round memory next rest (read32 memory address)

-- Each round but the last reads another word of the memory.
unfoldable pub decode_fuel : Memory → ℕ
decode_fuel memory = size memory / instruction_size + 1

abbrev pub with_blocks : List (ℕ × BasicBlock) → Context → Context
with_blocks blocks c = record c { block_cache = record (c.block_cache) { blocks = blocks } }

unfoldable pub decode_block : ℕ → M BasicBlock
unfolding decode_instructions decode_fuel
decode_block address c = elim (decode_instructions (decode_fuel c.memory) c.memory address) [
  | none ↦ diverged
  | some (fail e) ↦ thrown (simulation e) c
  | some (ok instructions) ↦
      let block = basic_block address instructions in
      returned block (with_blocks (emplace address block c.block_cache.blocks) c)
]

unfoldable pub get_block : ℕ → M BasicBlock
unfolding decode_block find erase
get_block address c = elim (find address c.block_cache.blocks) [
  | none ↦ decode_block address c
  | some block ↦
      if block.is_valid
      then returned block c
      else decode_block address (with_blocks (erase address c.block_cache.blocks) c)
]

-- Whether the block meets the bytes `[write_begin, write_end)`.
abbrev pub overlaps : ℕ → ℕ → BasicBlock → Bool
overlaps write_begin write_end block =
    ltb block.start_address write_end && ltb write_begin (end_address block)

-- The loop of `invalidateRange` over the blocks.
unfoldable pub invalidate_blocks :
    ℕ → ℕ → List (ℕ × BasicBlock) → List (ℕ × ℕ) → List (ℕ × BasicBlock) × List (ℕ × ℕ)
unfolding invalidate end_address assign
invalidate_blocks write_begin write_end [] entries = ([], entries)
invalidate_blocks write_begin write_end ((key, block) ∷ blocks) entries =
    let hit = overlaps write_begin write_end block in
    let entries' = if hit then assign key 0 entries else entries in
    let (blocks', entries'') = invalidate_blocks write_begin write_end blocks entries' in
    ((key, if hit then invalidate block else block) ∷ blocks', entries'')

unfoldable pub invalidate_range : ℕ → ℕ → BlockCache → BlockCache
unfolding invalidate_blocks
invalidate_range address byte_count cache =
    let write_end = u64 (address + byte_count) in
    let (blocks, entries) = invalidate_blocks address write_end cache.blocks cache.jit_entries in
    record { blocks = blocks; jit_entries = entries }

unfoldable pub clear : BlockCache → BlockCache
clear cache = record { blocks = []; jit_entries = [] }

unfoldable pub invalidate_ranges : List CodeRange → BlockCache → BlockCache
unfolding invalidate_range
invalidate_ranges [] cache = cache
invalidate_ranges (range ∷ ranges) cache =
    invalidate_ranges ranges (invalidate_range range.address range.size cache)

-- `ExecutionContext::flushInstructionCache`
unfoldable pub flush_instruction_cache : M (Unit {0})
unfolding take_dirty_code_ranges invalidate_ranges
flush_instruction_cache c =
    let (ranges, memory) = take_dirty_code_ranges c.memory in
    returned tt (record c { memory = memory; block_cache = invalidate_ranges ranges c.block_cache })
