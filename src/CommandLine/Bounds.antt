-- ===== src/CommandLine/Bounds.antt =====
-- The ranges of the options that `parseCommandLine` (src/main.cpp) returns.
use toy_isa_v1_5_interpreter.Base.{
  ℕ, ◌^◌, ◌<◌, ◌≤◌, arith, Bool, true, false, Bool-cases, inl, inr, List, [], ◌∷◌, length, ltb, leb,
  ltb→ge, ◌==◌, Option, some, none, if◌then◌else◌,
}
use toy_isa_v1_5_interpreter.ExecutionContext.{Options}
use toy_isa_v1_5_interpreter.CommandLine.Stoull.{
  Number, number, invalid_argument, out_of_range, read_digits, starts_with_digit, signed_value,
  read_number, read_signed, skip_spaces, stoull,
}
use toy_isa_v1_5_interpreter.CommandLine.{
  Text, CommandLineOptions, ParseError, Parsed, parsed, refused, default_options, parse_whole,
  parse_threshold, parse_level, parse_level_argument, parse_number_argument, parse_argument,
  parse_arguments, with_filename, parse_command_line, strip, codes, same_text,
}

abbrev Fits : Number → Type 0
Fits (number n count) = n < 2 ^ 64
Fits _ = Unit

if-Fits : (b : Bool) (x y : Number) → Fits x → Fits y → Fits (if b then x else y)
if-Fits true x y h k = h
if-Fits false x y h k = k

signed_value-lt :
    (negative : Bool) (value : ℕ) → value < 2 ^ 64 → signed_value negative value < 2 ^ 64
signed_value-lt true value h = omega arith
signed_value-lt false value h = h

read_number-Fits : (negative : Bool) (whole text : List ℕ) → Fits (read_number negative whole text)
unfolding read_number
read_number-Fits negative whole text =
    let value : ℕ = (read_digits 0 text).0 in
    elim (Bool-cases (starts_with_digit text)) [
      | inr nothing ↦ rw nothing tt
      | inl digit ↦ elim (Bool-cases (leb (2 ^ 64) value)) [
        | inl over ↦ rw (digit, over) tt
        | inr fits ↦ rw (digit, fits) (signed_value-lt negative value (ground arith))
      ]
    ]

read_signed-Fits : (text rest : List ℕ) → Fits (read_signed text rest)
unfolding read_signed
read_signed-Fits text [] = tt
read_signed-Fits text (c ∷ rest) = if-Fits (c == b'+') _ _ (read_number-Fits false text rest) (
    if-Fits (c == b'-') _ _ (read_number-Fits true text rest)
      (read_number-Fits false text (c ∷ rest)))

stoull-Fits : (text : List ℕ) → Fits (stoull text)
unfolding stoull
stoull-Fits text = read_signed-Fits text (skip_spaces text)

abbrev Holds : {A : Type 0} → (A → Type 0) → Parsed A → Type 0
Holds P (parsed a) = P a
Holds P (refused error) = Unit

Holds-if :
    {A : Type 0} (P : A → Type 0) (b : Bool) (x y : Parsed A)
    → Holds P x
    → Holds P y
    → Holds P (if b then x else y)
Holds-if P true x y h k = h
Holds-if P false x y h k = k

parse_whole-lt :
    (error : ParseError) (text : Text) → Holds (λ n. n < 2 ^ 64) (parse_whole error text)
unfolding parse_whole
parse_whole-lt error text = go (stoull text) (stoull-Fits text)
  where
    go :
        (r : Number)
        → Fits r
        → Holds
            (λ n. n < 2 ^ 64)
            (elim r [
              | invalid_argument ↦ refused ParseError.bad_number
              | out_of_range ↦ refused ParseError.number_out_of_range
              | number n count ↦ if count == length text then parsed n else refused error
            ])
    go invalid_argument h = tt
    go out_of_range h = tt
    go (number n count) h = Holds-if _ (count == length text) _ _ h tt

abbrev InRange : Options → Type 0
InRange options = (options.jit_threshold < 2 ^ 64) × (options.jit_optimization_level ≤ 2)

parse_threshold-InRange :
    (value : Text) (options : Options)
    → InRange options
    → Holds InRange (parse_threshold value options)
unfolding parse_threshold
parse_threshold-InRange value options h =
    go (parse_whole ParseError.invalid_jit_threshold value)
      (parse_whole-lt ParseError.invalid_jit_threshold value)
  where
    go :
        (r : Parsed ℕ)
        → Holds (λ n. n < 2 ^ 64) r
        → Holds InRange (elim r [
          | refused error ↦ refused error
          | parsed n ↦ parsed (record options { jit_threshold = n })
        ])
    go (refused error) k = tt
    go (parsed n) k = (k, h.1)

parse_level-InRange :
    (value : Text) (options : Options) → InRange options → Holds InRange (parse_level value options)
unfolding parse_level
parse_level-InRange value options h =
    go (parse_whole ParseError.invalid_jit_optimization_level value)
  where
    go :
        (r : Parsed ℕ)
        → Holds InRange (elim r [
          | refused error ↦ refused error
          | parsed n ↦
              if ltb 2 n
              then refused ParseError.invalid_jit_optimization_level
              else parsed (record options { jit_optimization_level = n })
        ])
    go (refused error) = tt
    go (parsed n) = elim (Bool-cases (ltb 2 n)) [
      | inl over ↦ rw over tt
      | inr fits ↦ rw fits (h.0, ltb→ge 2 n fits)
    ]

parse_number_argument-InRange :
    (argument : Text) (options : Options)
    → InRange options
    → Holds InRange (parse_number_argument argument options)
unfolding parse_number_argument parse_level_argument
parse_number_argument-InRange argument options h =
    threshold (strip (codes "--jit-threshold=") argument)
  where
    level :
        (r : Option Text)
        → Holds InRange (elim r [
          | some value ↦ parse_level value options
          | none ↦ refused ParseError.unknown_argument
        ])
    level none = tt
    level (some value) = parse_level-InRange value options h

    threshold :
        (r : Option Text)
        → Holds InRange (elim r [
          | some value ↦ parse_threshold value options
          | none ↦ parse_level_argument argument options
        ])
    threshold none = level (strip (codes "--jit-opt-level=") argument)
    threshold (some value) = parse_threshold-InRange value options h

parse_argument-InRange :
    (argument : Text) (options : Options)
    → InRange options
    → Holds InRange (parse_argument argument options)
unfolding parse_argument
parse_argument-InRange argument options h =
    Holds-if InRange (same_text argument (codes "--engine=switch")) _ _ h (
      Holds-if InRange (same_text argument (codes "--engine=jit")) _ _ h (
        Holds-if InRange (same_text argument (codes "--engine=threaded")) _ _ h
          (parse_number_argument-InRange argument options h)))

parse_arguments-InRange :
    (arguments : List Text) (options : Options)
    → InRange options
    → Holds InRange (parse_arguments arguments options)
unfolding parse_arguments
parse_arguments-InRange [] options h = h
parse_arguments-InRange (argument ∷ rest) options h =
    next (parse_argument argument options) (parse_argument-InRange argument options h)
      (λ options' k. parse_arguments-InRange rest options' k)
  where
    next :
        (r : Parsed Options)
        → Holds InRange r
        → ((options' : Options) → InRange options' → Holds InRange (parse_arguments rest options'))
        → Holds InRange (elim r [
          | refused error ↦ refused error
          | parsed options' ↦ parse_arguments rest options'
        ])
    next (refused error) k more = tt
    next (parsed options') k more = more options' k

abbrev pub IsBounded : Parsed CommandLineOptions → Type 0
IsBounded (parsed line) = InRange line.options
IsBounded (refused error) = Unit

with_filename-IsBounded :
    (filename : Text) (r : Parsed Options) → Holds InRange r → IsBounded (with_filename filename r)
with_filename-IsBounded filename (parsed options) h = h
with_filename-IsBounded filename (refused error) h = tt

-- Options that `parseCommandLine` accepts have a threshold below 2^64 and an optimization level of
-- at most 2.
pub parse_command_line-IsBounded :
    (arguments : List Text) → IsBounded (parse_command_line arguments)
unfolding parse_command_line
parse_command_line-IsBounded [] = tt
parse_command_line-IsBounded (filename ∷ arguments) = elim (Bool-cases (ltb 3 (length arguments))) [
  | inl many ↦ rw many tt
  | inr few ↦ rw few (
      with_filename-IsBounded filename (parse_arguments arguments default_options)
        (parse_arguments-InRange arguments default_options (omega arith, omega arith)))
]
