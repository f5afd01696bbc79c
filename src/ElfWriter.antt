-- ===== src/ElfWriter.antt =====
-- assembler/elf_writer.cpp. What the ELFIO library writes is the parameter `save` and what it reads
-- again is `Elfio`; a file that is read is its bytes, `none` if it cannot be opened.
pub mod Reload
pub mod Status
use toy_isa_v1_5_interpreter.Base.{
  ℕ, ◌%◌, Bool, true, false, ◌||◌, Option, none, some, List, [], ◌∷◌, ◌++◌, length, ◌==◌,
  if◌then◌else◌, u32, bit_or,
}
use toy_isa_v1_5_interpreter.BitUtils.{elf_machine}
use toy_isa_v1_5_interpreter.Loader.{ElfFormat}

-- The constants of the ELF format that only the writer uses.
pub record WriterFormat : Type 0 where
  pub format : ElfFormat
  pub elfosabi_linux : ℕ
  pub sht_progbits : ℕ
  pub shf_alloc : ℕ
  pub shf_execinstr : ℕ
  pub shf_write : ℕ
  pub pf_r : ℕ
  pub pf_w : ℕ

-- `ELFIO::section`, which has a name in the file.
pub data SectionName : Type 0 where
  text_section data_section : SectionName

pub record Section : Type 0 where
  pub name : SectionName
  pub type : ℕ
  pub flags : ℕ
  pub address : ℕ
  pub align : ℕ
  pub contents : List ℕ

-- `ELFIO::segment` with the section that `add_section` has put into it.
pub record WriterSegment : Type 0 where
  pub type : ℕ
  pub virtual_address : ℕ
  pub physical_address : ℕ
  pub flags : ℕ
  pub align : ℕ
  pub section : Section

-- `ELFIO::elfio` as it is built.
pub record Writer : Type 0 where
  pub class : ℕ
  pub encoding : ℕ
  pub os_abi : ℕ
  pub type : ℕ
  pub machine : ℕ
  pub entry : ℕ
  pub sections : List Section
  pub segments : List WriterSegment

-- The messages of the exceptions, and the writer that was saved.
pub data WriteResult : Type 0 where
  cannot_open_section_file incorrect_section_format cannot_write_file : WriteResult
  written : Writer → WriteResult

abbrev pub text_address : ℕ
text_address = 0

abbrev pub section_alignment : ℕ
section_alignment = 4

module _ (wf : WriterFormat) where
  abbrev pub format : ElfFormat
  format = wf.format

  abbrev pub text_of : List ℕ → Section
  text_of text = record {
    name = text_section;
    type = wf.sht_progbits;
    flags = bit_or wf.shf_alloc wf.shf_execinstr;
    address = text_address;
    align = section_alignment;
    contents = text;
  }

  abbrev pub data_of : ℕ → List ℕ → Section
  data_of address bytes = record {
    name = data_section;
    type = wf.sht_progbits;
    flags = bit_or wf.shf_alloc wf.shf_write;
    address = address;
    align = section_alignment;
    contents = bytes;
  }

  abbrev pub text_segment : List ℕ → WriterSegment
  text_segment text = record {
    type = format.pt_load;
    virtual_address = text_address;
    physical_address = text_address;
    flags = bit_or wf.pf_r format.pf_x;
    align = section_alignment;
    section = text_of text;
  }

  abbrev pub data_segment : ℕ → List ℕ → WriterSegment
  data_segment address bytes = record {
    type = format.pt_load;
    virtual_address = address;
    physical_address = address;
    flags = bit_or wf.pf_r wf.pf_w;
    align = section_alignment;
    section = data_of address bytes;
  }

  -- `writeElf` up to the call of `save`.
  unfoldable pub build_elf : List ℕ → List ℕ → Writer
  build_elf text bytes =
      let data_address = u32 (length text) in
      record {
        class = format.elfclass32;
        encoding = format.elfdata2lsb;
        os_abi = wf.elfosabi_linux;
        type = format.et_exec;
        machine = elf_machine;
        entry = text_address;
        sections = text_of text ∷ data_of data_address bytes ∷ [];
        segments = text_segment text ∷ data_segment data_address bytes ∷ [];
      }

  -- `writeElf` behind the two calls of `readBinary`.
  unfoldable pub write_contents : (Writer → Bool) → List ℕ → List ℕ → WriteResult
  unfolding build_elf
  write_contents save text bytes =
      let writer = build_elf text bytes in
      let saved = if save writer then written writer else cannot_write_file in
      if length text == 0
      then incorrect_section_format
      else if length text % section_alignment == 0
      then saved
      else incorrect_section_format

  unfoldable pub write_elf : (Writer → Bool) → Option (List ℕ) → Option (List ℕ) → WriteResult
  unfolding write_contents
  write_elf save none file = cannot_open_section_file
  write_elf save (some text) none = cannot_open_section_file
  write_elf save (some text) (some bytes) = write_contents save text bytes

  abbrev exit_status : WriteResult → ℕ
  exit_status (written writer) = 0
  exit_status _ = 1

  -- `main`: its exit code, for the number of arguments.
  unfoldable pub main : (Writer → Bool) → ℕ → Option (List ℕ) → Option (List ℕ) → ℕ
  unfolding write_elf
  main save argument_count text bytes =
      let status = exit_status (write_elf save text bytes) in
      if argument_count == 4 then status else 1
