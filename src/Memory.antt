-- ===== src/Memory.antt =====
-- include/toy/memory.hpp: guest memory, its bounds and alignment checks, and the record of writes
-- to executable regions. The bytes are the list `bytes`. A range is the address of its first byte
-- and its size; a null `Data` is `none`.
pub mod Access
pub mod Bytes
pub mod ReadWrite
use toy_isa_v1_5_interpreter.Base.{
  ℕ, zero, suc, ◌+◌, ◌-◌, ◌%◌, ◌^◌, Bool, false, ◌&&◌, ◌||◌, Option, none, some, List, [], ◌∷◌,
  ◌++◌, length, get_or, set, replicate, ltb, ◌==◌, if◌then◌else◌, u64,
}
use toy_isa_v1_5_interpreter.BitUtils.{
  word_size, word_bit_count, decode_little_endian_word, encode_little_endian_word,
}
use toy_isa_v1_5_interpreter.Checked.{ErrorCode, Checked, ok, fail, ◌>>=◌, ◌>>◌}

pub record CodeRange : Type 0 where
  pub address : ℕ
  pub size : ℕ

-- `TIMemoryRange` and `TIConstMemoryRange`.
pub record MemoryRange : Type 0 where
  pub start : Option ℕ
  pub size : ℕ

pub record Memory : Type 0 where
  pub bytes : List ℕ
  pub executable_regions : List CodeRange
  pub dirty_code_ranges : List CodeRange

unfoldable pub init : ℕ → Memory
init size_bytes = record {
  bytes = replicate size_bytes 0;
  executable_regions = [];
  dirty_code_ranges = [];
}

abbrev pub size : Memory → ℕ
size memory = length memory.bytes

-- `count` bytes from `address` up; the callers have checked the bounds.
unfoldable pub load_bytes : List ℕ → ℕ → ℕ → List ℕ
load_bytes bytes address zero = []
load_bytes bytes address (suc count) = get_or bytes address 0 ∷ load_bytes bytes (address + 1) count

-- `memcpy` into guest memory.
unfoldable pub store_bytes : List ℕ → ℕ → List ℕ → List ℕ
store_bytes bytes address [] = bytes
store_bytes bytes address (b ∷ rest) = store_bytes (set bytes address b) (address + 1) rest

unfoldable pub check_bounds : Memory → ℕ → ℕ → Checked (Unit {0})
check_bounds memory address byte_count =
    if ltb (size memory) address
      || ltb (size memory - address) byte_count
      || ltb (2 ^ word_bit_count - address) byte_count
    then fail ErrorCode.memory_out_of_bounds
    else ok tt

unfoldable pub check_alignment : ℕ → Checked (Unit {0})
check_alignment address =
    if address % word_size == 0 then ok tt else fail ErrorCode.misaligned_access

unfoldable pub add_executable_region : Memory → ℕ → ℕ → Checked Memory
unfolding check_bounds
add_executable_region memory address byte_count = do
  check_bounds memory address byte_count
  ok (record memory {
    executable_regions =
        memory.executable_regions ++ record { address = address; size = byte_count } ∷ [];
  })

-- The ranges that were recorded, and the memory with none.
unfoldable pub take_dirty_code_ranges : Memory → List CodeRange × Memory
take_dirty_code_ranges memory = (memory.dirty_code_ranges, record memory { dirty_code_ranges = [] })

abbrev pub range_at : ℕ → ℕ → MemoryRange
range_at address byte_count = record {
  start = if byte_count == 0 then none else some address;
  size = byte_count;
}

unfoldable pub readable_range : Memory → ℕ → ℕ → Checked MemoryRange
unfolding check_bounds
readable_range memory address byte_count = do
  check_bounds memory address byte_count
  ok (range_at address byte_count)

unfoldable pub writable_range : Memory → ℕ → ℕ → Checked MemoryRange
unfolding check_bounds
writable_range memory address byte_count = do
  check_bounds memory address byte_count
  ok (range_at address byte_count)

-- The bytes of a range, and new bytes for one from its start; a null range has none.
unfoldable pub range_bytes : Memory → MemoryRange → List ℕ
unfolding load_bytes
range_bytes memory range = elim range.start [
  | none ↦ []
  | some address ↦ load_bytes memory.bytes address range.size
]

unfoldable pub fill_range : Memory → MemoryRange → List ℕ → Memory
unfolding store_bytes
fill_range memory range new_bytes = elim range.start [
  | none ↦ memory
  | some address ↦ record memory { bytes = store_bytes memory.bytes address new_bytes }
]

unfoldable pub read32 : Memory → ℕ → Checked ℕ
unfolding readable_range check_alignment range_bytes decode_little_endian_word
read32 memory address = do
  range ← readable_range memory address word_size
  check_alignment address
  ok (decode_little_endian_word (range_bytes memory range))

-- Whether a write to `[write_begin, write_end)` meets one of the regions.
unfoldable pub overlaps_region : ℕ → ℕ → List CodeRange → Bool
overlaps_region write_begin write_end [] = false
overlaps_region write_begin write_end (region ∷ regions) =
    let region_begin = region.address in
    let region_end = u64 (region_begin + region.size) in
    ltb region_begin write_end && ltb write_begin region_end
    || overlaps_region write_begin write_end regions

unfoldable pub mark_code_dirty : Memory → ℕ → ℕ → Memory
unfolding overlaps_region
mark_code_dirty memory address byte_count =
    let write_end = u64 (address + byte_count) in
    if overlaps_region address write_end memory.executable_regions
    then record memory {
      dirty_code_ranges =
          memory.dirty_code_ranges ++ record { address = address; size = byte_count } ∷ [];
    }
    else memory

unfoldable pub write32 : Memory → ℕ → ℕ → Checked Memory
unfolding writable_range check_alignment fill_range mark_code_dirty encode_little_endian_word
write32 memory address value = do
  range ← writable_range memory address word_size
  check_alignment address
  ok (mark_code_dirty (fill_range memory range (encode_little_endian_word value)) address word_size)
