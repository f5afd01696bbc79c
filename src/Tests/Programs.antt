-- ===== src/Tests/Programs.antt =====
-- The theorems of `CommandLine` and `ElfWriter` on small inputs.
use toy_isa_v1_5_interpreter.Base.{
  ℕ, ◌%◌, ◌≤◌, ◌≡◌, ◌↔◌, refl, arith, true, some, List, [], ◌∷◌, ◌++◌, map, length,
}
use toy_isa_v1_5_interpreter.Memory.{load_bytes, store_bytes}
use toy_isa_v1_5_interpreter.Machine.{ExecutionStatus, Context}
use toy_isa_v1_5_interpreter.Machine.Monad.{returned}
use toy_isa_v1_5_interpreter.Loader.{Elf, load_elf}
use toy_isa_v1_5_interpreter.ExecutionContext.{jit}
use toy_isa_v1_5_interpreter.CommandLine.Threshold.{parse_threshold_lem}
use toy_isa_v1_5_interpreter.CommandLine.Bounds.{IsBounded, parse_command_line-IsBounded}
use toy_isa_v1_5_interpreter.CommandLine.Engine.{with_mode, parse_arguments-engine}
use toy_isa_v1_5_interpreter.CommandLine.{
  Text, codes, CommandLineOptions, Parsed, parsed, refused, default_options, parse_arguments,
  parse_command_line, parse_threshold,
}
use toy_isa_v1_5_interpreter.CommandLine
use toy_isa_v1_5_interpreter.ElfWriter.{WriterFormat, Writer, written, build_elf, write_elf}
use toy_isa_v1_5_interpreter.ElfWriter
use toy_isa_v1_5_interpreter.ElfWriter.Reload.{read_segment, write_elf-load_elf}
use toy_isa_v1_5_interpreter.ElfWriter.Status.{main-zero_iff}
use toy_isa_v1_5_interpreter.Safety.Runs.{Interprets}
use toy_isa_v1_5_interpreter.Samples.{format, loaded}

-- a.elf --engine=switch --jit-threshold=42
abbrev arguments : List Text
arguments = codes "a.elf" ∷ codes "--engine=switch" ∷ codes "--jit-threshold=42" ∷ []

parse_command_line-IsBounded_example : IsBounded (parse_command_line arguments)
parse_command_line-IsBounded_example = parse_command_line-IsBounded arguments

-- " 42"
parse_threshold_lem_example :
    parse_threshold (32 ∷ 52 ∷ 50 ∷ []) default_options
    ≡ parsed (record default_options { jit_threshold = 42 })
parse_threshold_lem_example =
    parse_threshold_lem (32 ∷ []) 52 (50 ∷ []) [] default_options (refl, tt) (refl, (refl, tt)) refl

parse_arguments-engine_example :
    parse_arguments (codes "--engine=switch" ∷ codes "--engine=jit" ∷ []) default_options
    ≡ with_mode jit (parse_arguments (codes "--engine=switch" ∷ []) default_options)
parse_arguments-engine_example =
    parse_arguments-engine (codes "--engine=switch" ∷ []) jit default_options

abbrev AllInterpret : Parsed CommandLineOptions → Type 0
AllInterpret (parsed line) = Interprets line.options.mode
AllInterpret (refused error) = Unit

abbrev writer_format : WriterFormat
writer_format = record {
  format = format;
  elfosabi_linux = 3;
  sht_progbits = 1;
  shf_alloc = 2;
  shf_execinstr = 4;
  shf_write = 1;
  pf_r = 4;
  pf_w = 2;
}

abbrev reload : Writer → Elf
reload writer = record {
  type = writer.type;
  class = writer.class;
  encoding = writer.encoding;
  machine = writer.machine;
  entry = writer.entry;
  segments = map read_segment writer.segments;
}

-- SYSCALL
abbrev text : List ℕ
text = 0x1E ∷ 0 ∷ 0 ∷ 0 ∷ []

write_elf-load_elf_example :
    (writer : Writer) × (write_elf writer_format (λ _. true) (some text) (some (7 ∷ []))
      ≡ written writer)
    × (d : Context) × (load_elf format (reload writer) loaded ≡ returned tt d)
    × (load_bytes d.memory.bytes 0 5 ≡ text ++ 7 ∷ [])
    × (d.memory.bytes ≡ store_bytes loaded.memory.bytes 0 (text ++ 7 ∷ []))
    × (d.memory.executable_regions
        ≡ loaded.memory.executable_regions ++ record { address = 0; size = 4 } ∷ [])
    × (d.cpu.pc ≡ 0)
    × (d.state.status ≡ ExecutionStatus.running)
write_elf-load_elf_example =
    write_elf-load_elf writer_format (record { x = refl; w = refl; r = refl }) (λ _. true) reload
      text (7 ∷ []) loaded (record { same = λ _. refl }) refl (omega arith) refl (omega arith)
      (omega arith)

main-zero_iff_example :
    (ElfWriter.main writer_format (λ _. true) 4 (some text) (some []) ≡ 0)
    ↔ (◌≡◌ {A = ℕ} 4 4 × (1 ≤ length text) × (length text % 4 ≡ 0) × (true ≡ true))
main-zero_iff_example = main-zero_iff writer_format (λ _. true) 4 text []
