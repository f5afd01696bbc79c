-- ===== src/CommandLine/Engine.antt =====
-- The option `--engine` of src/main.cpp.
use toy_isa_v1_5_interpreter.Base.{◌≡◌, refl, List, [], ◌∷◌, ◌++◌}
use toy_isa_v1_5_interpreter.ExecutionContext.{ExecutionMode, switch, threaded, jit, Options}
use toy_isa_v1_5_interpreter.CommandLine.{
  Text, codes, Parsed, parsed, refused, parse_argument, parse_arguments,
}

-- The argument that asks for an engine.
abbrev pub engine_argument : ExecutionMode → Text
engine_argument switch = codes "--engine=switch"
engine_argument jit = codes "--engine=jit"
engine_argument threaded = codes "--engine=threaded"

abbrev pub with_mode : ExecutionMode → Parsed Options → Parsed Options
with_mode mode (parsed options) = parsed (record options { mode = mode })
with_mode mode (refused error) = refused error

parse_argument-engine :
    (mode : ExecutionMode) (options : Options)
    → parse_argument (engine_argument mode) options ≡ parsed (record options { mode = mode })
unfolding parse_argument
parse_argument-engine switch options = refl
parse_argument-engine jit options = refl
parse_argument-engine threaded options = refl

-- An `--engine` at the end of the arguments sets the mode, whatever engine was asked for before,
-- and changes nothing else.
pub parse_arguments-engine :
    (arguments : List Text) (mode : ExecutionMode) (options : Options)
    → parse_arguments (arguments ++ engine_argument mode ∷ []) options
      ≡ with_mode mode (parse_arguments arguments options)
unfolding parse_arguments
parse_arguments-engine [] mode options =
    rw (parse_arguments, parse_argument-engine mode options) refl
parse_arguments-engine (argument ∷ rest) mode options =
    next (parse_argument argument options) (λ options'. parse_arguments-engine rest mode options')
  where
    next :
        (r : Parsed Options)
        → ((options' : Options)
            → parse_arguments (rest ++ engine_argument mode ∷ []) options'
              ≡ with_mode mode (parse_arguments rest options'))
        → elim r [
          | refused error ↦ refused error
          | parsed options' ↦ parse_arguments (rest ++ engine_argument mode ∷ []) options'
        ]
          ≡ with_mode mode (elim r [
            | refused error ↦ refused error
            | parsed options' ↦ parse_arguments rest options'
          ])
    next (refused error) more = refl
    next (parsed options') more = more options'
