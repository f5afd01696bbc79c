-- ===== src/CommandLine/Main.antt =====
-- `main` of src/main.cpp, from the arguments to the exit code.
use toy_isa_v1_5_interpreter.Base.{ℕ, ◌≡◌, some, none, ◌⊎◌}
use toy_isa_v1_5_interpreter.Syscall.{Host}
use toy_isa_v1_5_interpreter.CommandLine.{Ending, exits, undefined_behaviour, never}

abbrev pub EndsWell : Ending → Type 0
EndsWell (exits code printed) =
    ((code ≡ 0) × ((guest : ℕ) × (printed ≡ some guest))) ⊎ ((code ≡ 1) × (printed ≡ none))
EndsWell undefined_behaviour = ⊥
EndsWell never = Unit
