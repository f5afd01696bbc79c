-- ===== src/ElfWriter/Status.antt =====
-- The exit code of assembler/elf_writer.cpp.
use toy_isa_v1_5_interpreter.Base.{ℕ, ◌%◌, ◌≤◌, ◌≡◌, arith, Bool, true, some, List, length, ◌↔◌}
use toy_isa_v1_5_interpreter.ElfWriter.{
  WriterFormat, Writer, build_elf, write_contents, write_elf, main,
}

module _ (wf : WriterFormat) (save : Writer → Bool) where
  -- The program ends with 0 just if it has three arguments, the text is not empty and of whole words,
  -- and ELFIO saves the file.
  pub main-zero_iff :
      (argument_count : ℕ) (text bytes : List ℕ)
      → (main wf save argument_count (some text) (some bytes) ≡ 0) ↔ (
          (argument_count ≡ 4)
          × (1 ≤ length text)
          × (length text % 4 ≡ 0)
          × (save (build_elf wf text bytes) ≡ true))
  unfolding main write_elf write_contents
  main-zero_iff argument_count text bytes = ground arith
