-- ===== src/Tests/Runs.antt =====
-- The theorems about the end of a run on the last instruction of the sample program.
use toy_isa_v1_5_interpreter.Base.{◌≡◌, refl, arith, ◌∷◌, ◌++◌, replicate}
use toy_isa_v1_5_interpreter.Decoder.{decode, decode_syscall}
use toy_isa_v1_5_interpreter.Memory.{
  read32, check_bounds, check_alignment, readable_range, range_bytes, load_bytes,
}
use toy_isa_v1_5_interpreter.BitUtils.{decode_little_endian_word}
use toy_isa_v1_5_interpreter.Machine.{ExecutionStatus, Context}
use toy_isa_v1_5_interpreter.Machine.Monad.{returned}
use toy_isa_v1_5_interpreter.BlockCache.{find}
use toy_isa_v1_5_interpreter.ExecutionContext.{switch, threaded, run}
use toy_isa_v1_5_interpreter.Safety.Invariant.{IsValid}
use toy_isa_v1_5_interpreter.Safety.Exit.{IsExit, run-exits}
use toy_isa_v1_5_interpreter.Samples.{host, ir, options, loaded}

-- At the SYSCALL, with 60 in r8 and 5 in r0.
abbrev exiting : Context
exiting = record loaded {
  cpu = record { registers = 5 ∷ (replicate 7 0 ++ (60 ∷ replicate 23 0)); pc = 8 };
}

exiting-IsValid : IsValid exiting
exiting-IsValid = record {
  register_count = refl;
  registers = omega arith;
  pc = omega arith;
  memory = record { bytes = omega arith; small = omega arith };
  blocks = tt;
}

exiting-IsExit : IsExit exiting 0x1E 5
unfolding decode decode_syscall find read32 check_bounds check_alignment readable_range range_bytes
    load_bytes decode_little_endian_word
exiting-IsExit = record {
  running = refl;
  fetched = refl;
  is_syscall = refl;
  current = tt;
  number = refl;
  argument = refl;
}

run-exits_example :
    (d : Context) × (run host ir (options switch) 9 exiting ≡ returned tt d)
    × (d.state.status ≡ ExecutionStatus.halted)
    × (d.state.exit_code ≡ 5)
run-exits_example =
    run-exits host exiting 0x1E 5 exiting-IsExit ir (options switch) tt exiting-IsValid 9
      (omega arith)

abbrev ended :
    (d : Context) × (run host ir (options threaded) 2 exiting ≡ returned tt d)
    × (d.state.status ≡ ExecutionStatus.halted)
    × (d.state.exit_code ≡ 5)
ended =
    run-exits host exiting 0x1E 5 exiting-IsExit ir (options threaded) tt exiting-IsValid 2
      (omega arith)
