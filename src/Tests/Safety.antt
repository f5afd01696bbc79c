-- ===== src/Tests/Safety.antt =====
-- The theorems of `Safety`, `Engine`, `BlockCache` and `Decoder` on the sample program.
use toy_isa_v1_5_interpreter.Base.{
  ℕ, zero, suc, true, length, ◌≤◌, ◌≡◌, refl, arith, ap, subst, some, List, [], ◌∷◌, All, map,
}
use toy_isa_v1_5_interpreter.Memory.Access.{IsByte}
use toy_isa_v1_5_interpreter.Syscall.{Reply, done, failed}
use toy_isa_v1_5_interpreter.Machine.{BasicBlock}
use toy_isa_v1_5_interpreter.BlockCache.{
  basic_block, decode_instructions, decode_fuel, get_block, ends_block, find, erase, emplace,
  invalidate, with_blocks, decode_round, decode_block,
}
use toy_isa_v1_5_interpreter.BlockCache.Hits.{IsMap, get_block-again}
use toy_isa_v1_5_interpreter.Memory.{
  read32, check_bounds, check_alignment, readable_range, range_bytes, load_bytes,
}
use toy_isa_v1_5_interpreter.BitUtils.{decode_little_endian_word}
use toy_isa_v1_5_interpreter.BlockCache.Blocks.{
  EndsOnce, IsBlock, IsDone, decode_instructions-IsDone,
}
use toy_isa_v1_5_interpreter.Decoder.{decode, decode_li, decode_syscall}
use toy_isa_v1_5_interpreter.Decoder.Shape.{IsDecoded, decode-IsDecoded}
use toy_isa_v1_5_interpreter.Engine.{execute_switch_block, execute_threaded_block}
use toy_isa_v1_5_interpreter.Engine.Agree.{execute_threaded_block-eq-execute_switch_block}
use toy_isa_v1_5_interpreter.ExecutionContext.{switch, threaded, run}
use toy_isa_v1_5_interpreter.Safety.Invariant.{IsValid, Runs}
use toy_isa_v1_5_interpreter.Safety.Cache.{IsBlockAt, get_block-Runs}
use toy_isa_v1_5_interpreter.Safety.Host.{ReadsBytes}
use toy_isa_v1_5_interpreter.Safety.Agree.{run-agree}
use toy_isa_v1_5_interpreter.Machine.{Context}
use toy_isa_v1_5_interpreter.Machine.Monad.{returned}
use toy_isa_v1_5_interpreter.BlockCache.{flush_instruction_cache}
use toy_isa_v1_5_interpreter.BlockCache.Dirty.{flushed, SlotCleared, flush_instruction_cache_lem}
use toy_isa_v1_5_interpreter.Safety.Faults.Block.{IsPrecise, execute_switch_block-IsPrecise}
use toy_isa_v1_5_interpreter.Samples.{host, input, ir, options, program, loaded}

abbrev bytes_of : Reply (List ℕ) → List ℕ
bytes_of (done bytes) = bytes
bytes_of (failed errno) = []

input-fits : (count : ℕ) → All IsByte (input count) × (length (input count) ≤ count)
input-fits zero = (tt, omega arith)
input-fits (suc count) = ((omega arith, tt), omega arith)

pub host-ReadsBytes : ReadsBytes host
host-ReadsBytes = record {
  at = λ calls count {bytes} e.
      subst (λ (r : List ℕ). All IsByte r × (length r ≤ count)) (ap bytes_of e) (input-fits count);
}

pub loaded-IsValid : IsValid loaded
loaded-IsValid = record {
  register_count = refl;
  registers = omega arith;
  pc = omega arith;
  memory = record { bytes = omega arith; small = omega arith };
  blocks = tt;
}

run-agree_example : run host ir (options switch) 2 loaded ≡ run host ir (options threaded) 2 loaded
run-agree_example =
    run-agree host ir (options switch) (options threaded) refl refl host-ReadsBytes 2 loaded
      loaded-IsValid

get_block-Runs_example : Runs (get_block 4) (IsBlockAt 4)
get_block-Runs_example = get_block-Runs 4 (omega arith)

decode_instructions-IsDone_example : IsDone (decode_instructions (decode_fuel program) program 4)
decode_instructions-IsDone_example =
    decode_instructions-IsDone program (omega arith) (omega arith) 4 (omega arith)

decode-IsDecoded_example : IsDecoded (decode 0x2C08003C)
decode-IsDecoded_example = decode-IsDecoded 0x2C08003C (omega arith)

-- LI r0, 42; SYSCALL
abbrev pub two : BasicBlock
two = basic_block 0 (decode 0x2C00002A ∷ decode 0x1E ∷ [])

pub two-IsBlock : IsBlock two.instructions
unfolding decode decode_li decode_syscall ends_block
two-IsBlock = record {
  ends_once = (refl, tt);
  decoded = (decode-IsDecoded 0x2C00002A (omega arith), (decode-IsDecoded 0x1E (omega arith), tt));
}

execute_threaded_block-eq-execute_switch_block_example :
    execute_threaded_block host two ≡ execute_switch_block host two
execute_threaded_block-eq-execute_switch_block_example =
    execute_threaded_block-eq-execute_switch_block host two two-IsBlock

-- The block `two` and one behind it in the cache, with native entries, and the first word written
-- over.
abbrev stale : Context
stale = record loaded {
  memory = record program { dirty_code_ranges = record { address = 0; size = 4 } ∷ [] };
  block_cache = record {
    blocks = (0, two) ∷ (8, basic_block 8 (decode 0x1E ∷ [])) ∷ [];
    jit_entries = (0, 7) ∷ (8, 9) ∷ [];
  };
}

flush_instruction_cache_lem_example :
    (d : Context) × (flush_instruction_cache stale ≡ returned tt d)
    × (d.memory.dirty_code_ranges ≡ [])
    × (d.block_cache.blocks ≡ map (flushed stale.memory.dirty_code_ranges) stale.block_cache.blocks)
    × All
        (SlotCleared stale.memory.dirty_code_ranges d.block_cache.jit_entries)
        stale.block_cache.blocks
flush_instruction_cache_lem_example =
    flush_instruction_cache_lem stale ((omega arith, omega arith), tt)
      ((omega arith, omega arith), ((omega arith, omega arith), tt))

-- LI r0, 42 and a word that is no instruction.
abbrev faulty : BasicBlock
faulty = basic_block 0 (decode 0x2C00002A ∷ decode 0 ∷ [])

faulty-EndsOnce : EndsOnce faulty.instructions
unfolding decode decode_li ends_block
faulty-EndsOnce = (refl, tt)

execute_switch_block-IsPrecise_example :
    IsPrecise host faulty.instructions loaded (execute_switch_block host faulty loaded)
execute_switch_block-IsPrecise_example =
    execute_switch_block-IsPrecise host faulty loaded faulty-EndsOnce (omega arith)

-- The cache with a block at 8 and a block at 4 that was invalidated, and with the one at 4 decoded
-- again: LI r8, 60; SYSCALL.
abbrev invalidated : Context
invalidated = with_blocks ((4, invalidate two) ∷ (8, two) ∷ []) loaded

abbrev tail : BasicBlock
tail = basic_block 4 (decode 0x2C08003C ∷ decode 0x1E ∷ [])

abbrev refreshed : Context
refreshed = with_blocks ((8, two) ∷ (4, tail) ∷ []) loaded

get_block-refreshes : get_block 4 invalidated ≡ returned tail refreshed
unfolding get_block decode_block decode_instructions decode_round decode_fuel find erase emplace
    invalidate ends_block decode decode_li decode_syscall read32 check_bounds check_alignment
    readable_range range_bytes load_bytes decode_little_endian_word
get_block-refreshes = refl

invalidated-IsMap : IsMap invalidated.block_cache.blocks
unfolding find
invalidated-IsMap = (refl, (refl, tt))

get_block-again_example :
    (find 4 refreshed.block_cache.blocks ≡ some tail)
    × (tail.is_valid ≡ true)
    × (get_block 4 refreshed ≡ returned tail refreshed)
    × IsMap refreshed.block_cache.blocks
get_block-again_example =
    get_block-again 4 invalidated refreshed tail invalidated-IsMap get_block-refreshes
