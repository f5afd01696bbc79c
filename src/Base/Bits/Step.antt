-- ===== src/Base/Bits/Step.antt =====
-- `bit_and` and `bit_or` from their lowest digit up. The native operations stand for a recursion
-- with fuel, and more fuel than needed changes nothing.
use Prim.Native.Nat.{
  ℕ, zero, suc, ◌+◌, ◌-◌, ◌*◌, ◌/◌, ◌%◌, ◌≤◌, min, max, bit_and, bit_or, digits, bitwise,
  bit_and-bitwise, bit_or-bitwise,
}
use mathlib.Core.Path.{◌≡◌, refl, ap, ◌∙◌}
use native.Mathlib.Omega.{arith}

suc-add : (n extra : ℕ) → suc n + extra ≡ suc (n + extra)
suc-add n extra = omega arith

zero-add : (n : ℕ) → 0 + n ≡ n
zero-add n = omega arith

module _ (last : ℕ → ℕ) (g : ℕ → ℕ → ℕ) where
  more_fuel : (extra n a b : ℕ) → a ≤ n → digits last g (n + extra) a b ≡ digits last g n a b
  more_fuel extra (suc n) (suc a) b enough =
      rw (suc-add n extra, more_fuel extra n (suc a / 2) (b / 2) (omega arith)) refl
  more_fuel extra (suc n) zero b enough = rw (suc-add n extra) refl
  more_fuel zero zero a b enough = refl
  more_fuel (suc extra) zero zero b enough = rw (zero-add (suc extra)) refl
  more_fuel (suc extra) zero (suc a) b enough = absurd (omega arith)

  halved : (a b : ℕ) → digits last g a (suc a / 2) (b / 2) ≡ bitwise last g (suc a / 2) (b / 2)
  halved a b =
      let split : a ≡ suc a / 2 + (a - suc a / 2) = omega arith in
      ap (λ (n : ℕ). digits last g n (suc a / 2) (b / 2)) split
      ∙ more_fuel (a - suc a / 2) (suc a / 2) (suc a / 2) (b / 2) (omega arith)

pub bit_and_step : (a b : ℕ) → bit_and a b ≡ min (a % 2) (b % 2) + 2 * bit_and (a / 2) (b / 2)
bit_and_step zero b = simp bit_and-bitwise (omega arith)
bit_and_step (suc a) b = simp bit_and-bitwise (omega (arith, halved (λ _. 0) min a b))

pub bit_or_step : (a b : ℕ) → bit_or a b ≡ max (a % 2) (b % 2) + 2 * bit_or (a / 2) (b / 2)
bit_or_step zero b = simp bit_or-bitwise (omega arith)
bit_or_step (suc a) b = simp bit_or-bitwise (omega (arith, halved (λ y. y) max a b))
