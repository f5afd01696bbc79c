-- ===== src/CommandLine.antt =====
-- src/main.cpp: the options of the command line, and the program. A text is the list of its bytes.
pub mod Stoull
pub mod Threshold
pub mod Bounds
pub mod Engine
pub mod Main
pub mod Digits
use Prim.Native.Char.{code}
use Prim.Native.String.{String}
use toy_isa_v1_5_interpreter.Base.{
  ℕ, ◌+◌, ◌*◌, Bool, true, false, Option, none, some, List, [], ◌∷◌, length, ltb, ◌==◌,
  if◌then◌else◌,
}
use toy_isa_v1_5_interpreter.Machine.{init}
use toy_isa_v1_5_interpreter.Machine.Monad.{
  Outcome, returned, thrown, undefined, diverged, ◌>>=◌, ◌>>◌,
}
use toy_isa_v1_5_interpreter.Loader.{ElfFormat, Elf, load_binary}
use toy_isa_v1_5_interpreter.Syscall.{Host}
use toy_isa_v1_5_interpreter.Jit.Execute.{Ir}
use toy_isa_v1_5_interpreter.ExecutionContext.{ExecutionMode, switch, threaded, jit, Options, run}
use toy_isa_v1_5_interpreter.CommandLine.Stoull.{
  Number, number, invalid_argument, out_of_range, stoull,
}

abbrev pub Text : Type 0
Text = List ℕ

abbrev pub codes : String → Text
codes String.[] = []
codes (String.◌∷◌ c s) = code c ∷ codes s

abbrev pub same_text : Text → Text → Bool
same_text [] [] = true
same_text [] (d ∷ u) = false
same_text (c ∷ t) [] = false
same_text (c ∷ t) (d ∷ u) = let rest = same_text t u in if c == d then rest else false

-- What follows a prefix, `none` if the text does not begin with it.
abbrev pub strip : Text → Text → Option Text
strip [] u = some u
strip (c ∷ t) [] = none
strip (c ∷ t) (d ∷ u) = let rest = strip t u in if c == d then rest else none

pub record CommandLineOptions : Type 0 where
  pub filename : Text
  pub options : Options

abbrev pub default_options : Options
default_options = record { mode = threaded; jit_threshold = 0; jit_optimization_level = 0 }

-- The exceptions: the messages of the program, and those of `stoull`.
pub data ParseError : Type 0 where
  usage unknown_argument invalid_jit_threshold invalid_jit_optimization_level bad_number
        number_out_of_range :
      ParseError

pub data Parsed (A : Type 0) : Type 0 where
  parsed : A → Parsed A
  refused : ParseError → Parsed A

-- `stoull`, and the test that it has read all characters.
unfoldable pub parse_whole : ParseError → Text → Parsed ℕ
parse_whole error value = elim (stoull value) [
  | invalid_argument ↦ refused bad_number
  | out_of_range ↦ refused number_out_of_range
  | number n count ↦ if count == length value then parsed n else refused error
]

unfoldable pub parse_threshold : Text → Options → Parsed Options
unfolding parse_whole
parse_threshold value options = elim (parse_whole invalid_jit_threshold value) [
  | refused error ↦ refused error
  | parsed n ↦ parsed (record options { jit_threshold = n })
]

unfoldable pub parse_level : Text → Options → Parsed Options
unfolding parse_whole
parse_level value options = elim (parse_whole invalid_jit_optimization_level value) [
  | refused error ↦ refused error
  | parsed n ↦
      if ltb 2 n
      then refused invalid_jit_optimization_level
      else parsed (record options { jit_optimization_level = n })
]

unfoldable pub parse_level_argument : Text → Options → Parsed Options
unfolding parse_level
parse_level_argument argument options = elim (strip (codes "--jit-opt-level=") argument) [
  | some value ↦ parse_level value options
  | none ↦ refused unknown_argument
]

unfoldable pub parse_number_argument : Text → Options → Parsed Options
unfolding parse_threshold parse_level_argument
parse_number_argument argument options = elim (strip (codes "--jit-threshold=") argument) [
  | some value ↦ parse_threshold value options
  | none ↦ parse_level_argument argument options
]

-- The body of the loop over the arguments.
unfoldable pub parse_argument : Text → Options → Parsed Options
unfolding parse_number_argument
parse_argument argument options =
    let other = parse_number_argument argument options in
    if same_text argument (codes "--engine=switch")
    then parsed (record options { mode = switch })
    else if same_text argument (codes "--engine=jit")
    then parsed (record options { mode = jit })
    else if same_text argument (codes "--engine=threaded")
    then parsed (record options { mode = threaded })
    else other

unfoldable pub parse_arguments : List Text → Options → Parsed Options
unfolding parse_argument
parse_arguments [] options = parsed options
parse_arguments (argument ∷ rest) options = elim (parse_argument argument options) [
  | refused error ↦ refused error
  | parsed options' ↦ parse_arguments rest options'
]

abbrev pub with_filename : Text → Parsed Options → Parsed CommandLineOptions
with_filename filename (parsed options) = parsed (record { filename = filename; options = options })
with_filename filename (refused error) = refused error

-- The arguments behind the name of the program.
unfoldable pub parse_command_line : List Text → Parsed CommandLineOptions
unfolding parse_arguments
parse_command_line [] = refused usage
parse_command_line (filename ∷ arguments) =
    let result = with_filename filename (parse_arguments arguments default_options) in
    if ltb 3 (length arguments) then refused usage else result

abbrev pub memory_size : ℕ
memory_size = 64 * 1024 * 1024

-- How the program ends: its exit code, with the exit code of the guest that it prints.
pub data Ending : Type 0 where
  exits : ℕ → Option ℕ → Ending
  undefined_behaviour never : Ending

abbrev pub ending : Outcome (Unit {0}) → Ending
ending (returned a c) = exits 0 (some c.state.exit_code)
ending (thrown e c) = exits 1 none
ending undefined = undefined_behaviour
ending diverged = never

-- `main`, with the files that ELFIO can read, and fuel for the run.
unfoldable pub main : ElfFormat → Host → Ir → (Text → Option Elf) → ℕ → List Text → Ending
unfolding parse_command_line
main format host ir files fuel arguments = elim (parse_command_line arguments) [
  | refused error ↦ exits 1 none
  | parsed line ↦ ending (
      (load_binary format (files line.filename) 0 >> run host ir line.options fuel)
        (init memory_size))
]
