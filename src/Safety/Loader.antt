-- ===== src/Safety/Loader.antt =====
-- `loadBinary` (src/toy/execution_context.cpp) and the invariant, and what `main` does with it: a
-- new context, the file, and a run.
use toy_isa_v1_5_interpreter.Base.{◌≡◌, ◌≤◌, Option, none, some, All, length}
use toy_isa_v1_5_interpreter.Memory.{Memory, fill_range, writable_range}
use toy_isa_v1_5_interpreter.Memory
use toy_isa_v1_5_interpreter.Memory.Access.{IsByte}
use toy_isa_v1_5_interpreter.Syscall.{Host}
use toy_isa_v1_5_interpreter.Loader.{ElfFormat, Segment, Elf}
use toy_isa_v1_5_interpreter.Safety.Invariant.{Runs}

-- `get_data` points to as many bytes as the header of the segment says.
abbrev pub HasContents : Segment → Type 0
HasContents segment = All IsByte segment.contents × (segment.file_size ≤ length segment.contents)

module _ (format : ElfFormat) where
  -- A segment that the loader copies has its contents.
  abbrev pub IsComplete : Segment → Type 0
  IsComplete segment = segment.type ≡ format.pt_load → HasContents segment

  -- What ELFIO gives of the file, if it can read it.
  abbrev pub HasFile : Option Elf → Type 0
  HasFile none = Unit
  HasFile (some elf) = All IsComplete elf.segments
