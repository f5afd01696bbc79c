-- ===== src/Loader.antt =====
-- `loadBinary` and `loadSegment` of src/toy/execution_context.cpp. The file as the ELFIO library
-- reads it is the parameter `Elf`, and the constants of the ELF format are `ElfFormat`.
pub mod Contents
pub mod Truncated
use toy_isa_v1_5_interpreter.Base.{
  ℕ, ◌+◌, ◌-◌, ◌%◌, Bool, true, false, ◌&&◌, Option, none, some, List, [], ◌∷◌, length, replicate,
  ltb, ◌==◌, if◌then◌else◌, u32, bit_and,
}
use toy_isa_v1_5_interpreter.BitUtils.{instruction_size, elf_machine}
use toy_isa_v1_5_interpreter.Checked.{ErrorCode}
use toy_isa_v1_5_interpreter.Memory.{
  Memory, MemoryRange, load_bytes, writable_range, fill_range, add_executable_region,
}
use toy_isa_v1_5_interpreter.Machine.{reset}
use toy_isa_v1_5_interpreter.Machine.Monad.{
  M, returned, thrown, undefined, simulation, pure, ◌>>=◌, ◌>>◌, lift_checked, set_pc,
}
use toy_isa_v1_5_interpreter.BlockCache.{clear}

pub record ElfFormat : Type 0 where
  pub et_exec : ℕ
  pub elfclass32 : ℕ
  pub elfdata2lsb : ℕ
  pub pt_load : ℕ
  pub pf_x : ℕ

-- `ELFIO::segment`; `contents` is what `get_data` points to.
pub record Segment : Type 0 where
  pub type : ℕ
  pub flags : ℕ
  pub virtual_address : ℕ
  pub file_size : ℕ
  pub memory_size : ℕ
  pub contents : List ℕ

-- `ELFIO::elfio` after a `load` that succeeded.
pub record Elf : Type 0 where
  pub type : ℕ
  pub class : ℕ
  pub encoding : ℕ
  pub machine : ℕ
  pub entry : ℕ
  pub segments : List Segment

abbrev pub incorrect_file : {A : Type 0} → M A
incorrect_file c = thrown (simulation ErrorCode.incorrect_binary_file) c

abbrev pub replace_memory : (Memory → Memory) → M (Unit {0})
replace_memory f c = returned tt (record c { memory = f c.memory })

-- `memcpy` of the data of the file into the range.
unfoldable pub copy_data : Segment → MemoryRange → M (Unit {0})
unfolding fill_range load_bytes
copy_data segment range =
    if segment.file_size == 0
    then pure tt
    else if ltb (length segment.contents) segment.file_size
    then (λ c. undefined)
    else replace_memory
        λ memory. fill_range memory range (load_bytes segment.contents 0 segment.file_size)

-- `Range.Data + count`
abbrev pub range_from : MemoryRange → ℕ → MemoryRange
range_from range count = record {
  start = elim range.start [ none ↦ none | some address ↦ some (address + count) ];
  size = range.size - count;
}

-- `memset` of what the file leaves out.
unfoldable pub clear_rest : Segment → MemoryRange → M (Unit {0})
unfolding fill_range
clear_rest segment range =
    let zeros = replicate (segment.memory_size - segment.file_size) 0 in
    if ltb segment.file_size segment.memory_size
    then replace_memory (λ m. fill_range m (range_from range segment.file_size) zeros)
    else pure tt

unfoldable pub load_segment : Segment → M (Unit {0})
unfolding copy_data clear_rest writable_range
load_segment segment = if ltb segment.memory_size segment.file_size then incorrect_file else (do
  range ← λ c.
      lift_checked (writable_range c.memory (u32 segment.virtual_address) segment.memory_size) c
  copy_data segment range
  clear_rest segment range)

unfoldable pub add_segment_region : Segment → M (Unit {0})
unfolding add_executable_region
add_segment_region segment =
    if segment.memory_size % instruction_size == 0
      && segment.virtual_address % instruction_size == 0
    then (do
      memory ← λ c.
          lift_checked
            (add_executable_region c.memory (u32 segment.virtual_address) segment.memory_size) c
      replace_memory λ _. memory)
    else incorrect_file

module _ (format : ElfFormat) where
  abbrev pub is_executable : Segment → Bool
  is_executable segment =
      if bit_and segment.flags format.pf_x == 0 then false else ltb 0 segment.memory_size

  -- The loop over the segments, with `HasExecutableSegment`.
  unfoldable pub load_segments : List Segment → Bool → M Bool
  unfolding load_segment add_segment_region
  load_segments [] has_executable = pure has_executable
  load_segments (segment ∷ segments) has_executable =
      let rest = load_segments segments in
      if segment.type == format.pt_load
      then (if is_executable segment
          then (do add_segment_region segment; load_segment segment; rest true)
          else (do load_segment segment; rest has_executable))
      else rest has_executable

  abbrev pub is_toy_elf : Elf → Bool
  is_toy_elf elf =
      elf.type == format.et_exec
      && elf.class == format.elfclass32
      && elf.encoding == format.elfdata2lsb
      && elf.machine == elf_machine

  -- `State.reset()` and `BlockCache.clear()`.
  unfoldable pub reset_execution : M (Unit {0})
  unfolding reset clear
  reset_execution c =
      returned tt (record c { state = reset c.state; block_cache = clear c.block_cache })

  unfoldable pub load_elf : Elf → M (Unit {0})
  unfolding load_segments reset_execution set_pc
  load_elf elf =
      if is_toy_elf elf
      then (do
        has_executable ← load_segments elf.segments false
        if has_executable then (do set_pc (u32 elf.entry); reset_execution) else incorrect_file)
      else incorrect_file

  -- `loadBinary`; `file` is what `Reader.load` makes of the file, `none` if it fails.
  unfoldable pub load_binary : Option Elf → ℕ → M (Unit {0})
  unfolding load_elf
  load_binary file load_address =
      if load_address == 0
      then elim file [ none ↦ incorrect_file | some elf ↦ load_elf elf ]
      else (λ c. thrown (simulation ErrorCode.misaligned_access) c)
