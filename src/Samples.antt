-- ===== src/Samples.antt =====
-- A host, an IR library, a small program and the file that holds it, for the tests.
use toy_isa_v1_5_interpreter.Base.{ℕ, zero, suc, List, [], ◌∷◌, replicate}
use toy_isa_v1_5_interpreter.BitUtils.{register_count, elf_machine}
use toy_isa_v1_5_interpreter.Memory.{Memory}
use toy_isa_v1_5_interpreter.Machine.{ExecutionStatus, Context}
use toy_isa_v1_5_interpreter.Machine.Monad.{undefined}
use toy_isa_v1_5_interpreter.Syscall.{Host, done, at_eof}
use toy_isa_v1_5_interpreter.Jit.Execute.{Ir}
use toy_isa_v1_5_interpreter.Loader.{ElfFormat, Segment, Elf}
use toy_isa_v1_5_interpreter.ExecutionContext.{Options, ExecutionMode}

-- Standard input holds one `A` for each call that asks for a byte.
abbrev pub input : ℕ → List ℕ
input zero = []
input (suc count) = 65 ∷ []

-- A read takes a byte of the input, and a write takes everything.
abbrev pub host : Host
host = record {
  read = λ calls count. done (input count);
  write = λ calls descriptor bytes. done 0;
  read_number = λ calls. at_eof;
  ebadf = 9;
  enodata = 61;
  einval = 22;
}

-- An IR library that fails to compile.
abbrev pub ir : Ir
ir = record {
  compile = λ nodes level. record { entry_point = 0; code_size = 0 };
  call = λ entry c. undefined;
}

abbrev pub options : ExecutionMode → Options
options mode = record { mode = mode; jit_threshold = 0; jit_optimization_level = 0 }

-- LI r0, 42; LI r8, 60; SYSCALL
abbrev pub program : Memory
program = record {
  bytes = 0x2A ∷ 0 ∷ 0 ∷ 0x2C ∷ 0x3C ∷ 0 ∷ 0x08 ∷ 0x2C ∷ 0x1E ∷ 0 ∷ 0 ∷ 0 ∷ [];
  executable_regions = record { address = 0; size = 12 } ∷ [];
  dirty_code_ranges = [];
}

abbrev pub loaded : Context
loaded = record {
  cpu = record { registers = replicate register_count 0; pc = 0 };
  memory = program;
  state = record { status = ExecutionStatus.running; exit_code = 0 };
  block_cache = record { blocks = []; jit_entries = [] };
  calls = [];
}

-- The constants of the ELF format, and the program as a file with one segment.
abbrev pub format : ElfFormat
format = record { et_exec = 2; elfclass32 = 1; elfdata2lsb = 1; pt_load = 1; pf_x = 1 }

abbrev pub segment : Segment
segment = record {
  type = 1;
  flags = 5;
  virtual_address = 0;
  file_size = 12;
  memory_size = 16;
  contents = program.bytes;
}

abbrev pub file : Elf
file = record {
  type = 2;
  class = 1;
  encoding = 1;
  machine = elf_machine;
  entry = 0;
  segments = segment ∷ [];
}
