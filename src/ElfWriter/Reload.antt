-- ===== src/ElfWriter/Reload.antt =====
-- A file of `writeElf` (assembler/elf_writer.cpp) in the loader (src/toy/execution_context.cpp).
use toy_isa_v1_5_interpreter.Base.{
  ℕ, zero, suc, ◌+◌, ◌-◌, ◌%◌, ◌^◌, ◌<◌, ◌≤◌, ◌≡◌, refl, arith, ap, ap₂, ◌∙◌, Bool, true, false,
  some, List, [], ◌∷◌, ◌++◌, map, length, length-append, ◌==◌, ==_refl, lt→ltb, u32, get_or,
}
use toy_isa_v1_5_interpreter.Checked.{ok}
use toy_isa_v1_5_interpreter.Memory.{
  size, load_bytes, store_bytes, check_bounds, add_executable_region,
}
use toy_isa_v1_5_interpreter.Memory.Access.{check_bounds-ok}
use toy_isa_v1_5_interpreter.Memory.Bytes.{load_bytes-store_bytes, length-store_bytes}
use toy_isa_v1_5_interpreter.Machine.{ExecutionStatus, Context, reset}
use toy_isa_v1_5_interpreter.Machine.Monad.{returned, set_pc}
use toy_isa_v1_5_interpreter.BlockCache.{clear}
use toy_isa_v1_5_interpreter.Loader.{
  Segment, Elf, is_executable, load_segment, add_segment_region, load_segments, reset_execution,
  load_elf,
}
use toy_isa_v1_5_interpreter.Loader.Contents.{store_bytes-append, load_segment_returns}
use toy_isa_v1_5_interpreter.ElfWriter.{
  WriterFormat, WriterSegment, Writer, written, build_elf, write_contents, write_elf, text_segment,
  data_segment,
}

-- The bytes of a segment are those of its section.
abbrev pub read_segment : WriterSegment → Segment
read_segment segment = record {
  type = segment.type;
  flags = segment.flags;
  virtual_address = segment.virtual_address;
  file_size = length segment.section.contents;
  memory_size = length segment.section.contents;
  contents = segment.section.contents;
}

-- What ELFIO documents of a file that it has written and reads again.
pub record Rereads (reload : Writer → Elf) : Type 0 where
  pub same :
      (writer : Writer)
      → reload writer ≡ record {
        type = writer.type;
        class = writer.class;
        encoding = writer.encoding;
        machine = writer.machine;
        entry = writer.entry;
        segments = map read_segment writer.segments;
      }

-- The flags of a segment, as the ELF format numbers them.
pub record HasElfFlags (wf : WriterFormat) : Type 0 where
  pub x : wf.format.pf_x ≡ 1
  pub w : wf.pf_w ≡ 2
  pub r : wf.pf_r ≡ 4

load_bytes-shift :
    (x : ℕ) (xs : List ℕ) (a n : ℕ) → load_bytes (x ∷ xs) (a + 1) n ≡ load_bytes xs a n
unfolding load_bytes
load_bytes-shift x xs a zero = refl
load_bytes-shift x xs a (suc n) =
    let e : a + 1 ≡ suc a = omega arith in
    ap₂ (λ (v : ℕ) (vs : List ℕ). v ∷ vs) (ap (λ (i : ℕ). get_or (x ∷ xs) i 0) e)
      (load_bytes-shift x xs (a + 1) n)

load_bytes-whole : (xs : List ℕ) → load_bytes xs 0 (length xs) ≡ xs
unfolding load_bytes
load_bytes-whole [] = refl
load_bytes-whole (x ∷ xs) =
    ap (λ (vs : List ℕ). x ∷ vs) (load_bytes-shift x xs 0 (length xs) ∙ load_bytes-whole xs)

abbrev with_region : List ℕ → Context → Context
with_region text c = record c {
  memory = record (c.memory) {
    executable_regions =
        c.memory.executable_regions ++ record { address = 0; size = length text } ∷ [];
  };
}

abbrev with_bytes : ℕ → List ℕ → Context → Context
with_bytes a bytes c = record c {
  memory = record (c.memory) { bytes = store_bytes c.memory.bytes a bytes };
}

-- The context after the load: the text at 0 and the data behind it.
abbrev with_program : List ℕ → List ℕ → Context → Context
with_program text bytes c = record c {
  cpu = record (c.cpu) { pc = 0 };
  memory = record (c.memory) {
    bytes = store_bytes (store_bytes c.memory.bytes 0 text) (length text) bytes;
    executable_regions =
        c.memory.executable_regions ++ record { address = 0; size = length text } ∷ [];
  };
  state = reset c.state;
  block_cache = clear c.block_cache;
}

-- A segment whose bytes are all in the file.
load_whole :
    (segment : WriterSegment) (c : Context)
    → let a = segment.virtual_address in
      let bytes = segment.section.contents in
      a + length bytes ≤ size c.memory
      → size c.memory < 2 ^ 32
      → load_segment (read_segment segment) c ≡ returned tt (with_bytes a bytes c)
unfolding store_bytes
load_whole segment c fits small =
    let a : ℕ = segment.virtual_address in
    let bytes : List ℕ = segment.section.contents in
    let none_left : length bytes - length bytes ≡ 0 = omega arith in
    let low : u32 a ≡ a = omega arith in
    load_segment_returns (read_segment segment) c (omega arith) (omega arith)
      (omega arith, omega arith)
    ∙ rw (load_bytes-whole bytes, none_left, low) refl

module _ (wf : WriterFormat) (flags : HasElfFlags wf) where
  -- The segment of the text makes an executable region.
  add_text :
      (text : List ℕ) (c : Context)
      → length text % 4 ≡ 0
      → length text ≤ size c.memory
      → size c.memory < 2 ^ 32
      → add_segment_region (read_segment (text_segment wf text)) c
        ≡ returned tt (with_region text c)
  unfolding add_segment_region add_executable_region
  add_text text c whole fits small =
      let bounds : check_bounds c.memory 0 (length text) ≡ ok tt =
        check_bounds-ok c.memory 0 (length text) (omega arith, omega arith) in
      rw (whole, bounds) refl

  text_executable :
      (text : List ℕ)
      → 1 ≤ length text
      → is_executable wf.format (read_segment (text_segment wf text)) ≡ true
  text_executable text nonempty = rw (flags.x, flags.r) (lt→ltb 0 (length text) nonempty)

  data_executable :
      (address : ℕ) (bytes : List ℕ)
      → is_executable wf.format (read_segment (data_segment wf address bytes)) ≡ false
  data_executable address bytes = rw (flags.x, flags.r, flags.w) refl

  load_both :
      (text bytes : List ℕ) (c : Context)
      → 1 ≤ length text
      → length text % 4 ≡ 0
      → length text + length bytes ≤ size c.memory
      → size c.memory < 2 ^ 32
      → load_segments wf.format
          (read_segment (text_segment wf text)
            ∷ read_segment (data_segment wf (length text) bytes)
            ∷ [])
          false
          c
        ≡ returned true (with_bytes (length text) bytes (with_bytes 0 text (with_region text c)))
  unfolding load_segments
  load_both text bytes c nonempty whole fits small =
      let d : Context = with_bytes 0 text (with_region text c) in
      let same_size : size d.memory ≡ size c.memory = length-store_bytes c.memory.bytes 0 text in
      simp (
        ==_refl,
        text_executable text nonempty,
        data_executable,
        add_text text c whole (omega arith) small,
        load_whole (text_segment wf text) (with_region text c) (omega arith) small,
        load_whole (data_segment wf (length text) bytes) d (omega (arith, same_size))
            (omega (arith, same_size)),
      )

  -- A text that is not empty, of whole words, is written with the data, if ELFIO saves the file. Where
  -- ELFIO reads a file as it wrote it, with the flags as the ELF format numbers them, the loader
  -- accepts the file, if text and data fit into the memory of less than 2^32 bytes: the text stands
  -- at 0 and the data behind it, the other bytes are left as they were, the text alone becomes
  -- executable, the program counter is 0 and the status RUNNING.
  pub write_elf-load_elf :
      (save : Writer → Bool) (reload : Writer → Elf) (text bytes : List ℕ) (c : Context)
      → Rereads reload
      → save (build_elf wf text bytes) ≡ true
      → 1 ≤ length text
      → length text % 4 ≡ 0
      → length text + length bytes ≤ size c.memory
      → size c.memory < 2 ^ 32
      → (writer : Writer) × (write_elf wf save (some text) (some bytes) ≡ written writer)
        × (d : Context) × (load_elf wf.format (reload writer) c ≡ returned tt d)
        × (load_bytes d.memory.bytes 0 (length (text ++ bytes)) ≡ text ++ bytes)
        × (d.memory.bytes ≡ store_bytes c.memory.bytes 0 (text ++ bytes))
        × (d.memory.executable_regions
            ≡ c.memory.executable_regions ++ record { address = 0; size = length text } ∷ [])
        × (d.cpu.pc ≡ 0)
        × (d.state.status ≡ ExecutionStatus.running)
  unfolding write_elf write_contents build_elf load_elf set_pc reset_execution reset clear
  write_elf-load_elf save reload text bytes c rereads saves nonempty whole fits small =
      let sized : (length text == 0) ≡ false = ground arith in
      let low : u32 (length text) ≡ length text = omega arith in
      let stored : store_bytes (store_bytes c.memory.bytes 0 text) (length text) bytes
          ≡ store_bytes c.memory.bytes 0 (text ++ bytes) =
        ap (λ (n : ℕ). store_bytes (store_bytes c.memory.bytes 0 text) n bytes) (omega arith)
        ∙ store_bytes-append text c.memory.bytes bytes 0 in
      (
        build_elf wf text bytes,
        simp (sized, whole, saves),
        with_program text bytes c,
        rw
            (
              rereads.same (build_elf wf text bytes),
              low,
              ==_refl wf.format.et_exec,
              ==_refl wf.format.elfclass32,
              ==_refl wf.format.elfdata2lsb,
              load_both text bytes c nonempty whole fits small,
            )
            refl,
        rw stored (
            load_bytes-store_bytes c.memory.bytes 0 (text ++ bytes)
              (omega (arith, length-append text bytes))),
        stored,
        refl,
        refl,
        refl,
      )
