-- ===== src/Checked.antt =====
-- include/toy/execution_state.hpp: the error codes of a `SimulationException`, and the result of
-- code that may throw one.
use toy_isa_v1_5_interpreter.Base.{◌≡◌, refl, inl, inr, ◌⊎◌}

pub data ErrorCode : Type 0 where
  invalid_instruction memory_out_of_bounds misaligned_access unsupported_syscall
        incorrect_binary_file :
      ErrorCode

pub data Checked {ℓ} (A : Type ℓ) : Type ℓ where
  ok : A → Checked A
  fail : ErrorCode → Checked A

infixl 5 ◌>>=◌ ◌>>◌
abbrev pub ◌>>=◌ {ℓ κ} : {A : Type ℓ} {B : Type κ} → Checked A → (A → Checked B) → Checked B
ok a >>= f = f a
fail e >>= f = fail e

abbrev pub ◌>>◌ {ℓ} : {B : Type ℓ} → Checked (Unit {0}) → Checked B → Checked B
m >> k = m >>= λ _. k

-- To split on a computed value and keep the equation.
pub Checked-cases {ℓ} :
    {A : Type ℓ} (r : Checked A) → ((a : A) × (r ≡ ok a)) ⊎ ((e : _) × (r ≡ fail e))
Checked-cases (ok a) = inl (a, refl)
Checked-cases (fail e) = inr (e, refl)
