-- ===== src/Prelude/Text/Decimal.antt =====
-- The decimal text of a number: `Display` of the unsigned integer types.
use Prim.Native.Nat.{ℕ, zero, suc, ◌+◌, ◌-◌, ◌*◌, ◌/◌, ◌%◌, ◌≤◌, ◌<◌}
use mathlib.Core.Path.{◌≡◌, refl, ◌∙◌}
use mathlib.Core.Logic.{inl, inr}
use mathlib.Core.Bool.{true, false}
use mathlib.Core.Option.{some}
use mathlib.Core.List.{[], ◌∷◌}
use native.Mathlib.Omega.{arith}
use aircraft_api_r.Prelude.Tests.{ltb, Bool-cases, if◌then◌else◌}
use aircraft_api_r.Prelude.Lists.{All}
use aircraft_api_r.Prelude.Text.{Text, is_ascii_digit, is_empty, parse_digits}

-- The digits in front of those that are there; fuel above the number is enough.
unfoldable pub decimal_loop : ℕ → ℕ → Text → Text
decimal_loop zero n acc = acc
decimal_loop (suc fuel) n acc =
    let digits = (b'0' + n % 10) ∷ acc in
    let rest = decimal_loop fuel (n / 10) digits in if ltb n 10 then digits else rest

unfoldable pub decimal : ℕ → Text
decimal n = decimal_loop (suc n) n []

module _ (bound : ℕ) where
  parse_digits_step :
      (acc digit : ℕ) (s : Text)
      → digit < 10
      → acc * 10 + digit ≤ bound
      → parse_digits bound acc ((b'0' + digit) ∷ s) ≡ parse_digits bound (acc * 10 + digit) s
  unfolding parse_digits
  parse_digits_step acc digit s h le =
      let same : b'0' + digit - b'0' ≡ digit = omega arith in rw same (ground arith)

  parse_digits-decimal_loop :
      (fuel n : ℕ) (acc : Text)
      → n < fuel
      → n ≤ bound
      → parse_digits bound 0 (decimal_loop fuel n acc) ≡ parse_digits bound n acc
  unfolding decimal_loop
  parse_digits-decimal_loop zero n acc h le = absurd (omega arith)
  parse_digits-decimal_loop (suc fuel) n acc h le =
      let digits = (b'0' + n % 10) ∷ acc in
      elim (Bool-cases (ltb n 10)) [
        | inl small ↦
            let same : 0 * 10 + n % 10 ≡ n = ground arith in
            rw small (parse_digits_step 0 (n % 10) acc (omega arith) (ground arith) ∙ rw same refl)
        | inr large ↦
            let same : n / 10 * 10 + n % 10 ≡ n = omega arith in
            rw large (
              parse_digits-decimal_loop fuel (n / 10) digits (ground arith) (omega arith)
              ∙ parse_digits_step (n / 10) (n % 10) acc (omega arith) (omega arith)
              ∙ rw same refl)
      ]

  -- A number that fits the bound is read back from its decimal text.
  pub parse_digits-decimal : (n : ℕ) → n ≤ bound → parse_digits bound 0 (decimal n) ≡ some n
  unfolding decimal parse_digits
  parse_digits-decimal n h = parse_digits-decimal_loop (suc n) n [] (omega arith) h

abbrev pub AreDigits : Text → Type 0
AreDigits = All (λ c. is_ascii_digit c ≡ true)

digit-is_ascii_digit : (d : ℕ) → d < 10 → is_ascii_digit (b'0' + d) ≡ true
digit-is_ascii_digit d h = ground arith

decimal_loop-AreDigits :
    (fuel n : ℕ) (acc : Text)
    → n < fuel
    → AreDigits acc
    → AreDigits (decimal_loop fuel n acc) × (is_empty (decimal_loop fuel n acc) ≡ false)
unfolding decimal_loop
decimal_loop-AreDigits zero n acc h k = absurd (omega arith)
decimal_loop-AreDigits (suc fuel) n acc h k =
    let d = digit-is_ascii_digit (n % 10) (omega arith) in
    elim (Bool-cases (ltb n 10)) [
      | inl small ↦ rw small ((d, k), refl)
      | inr large ↦
          rw large
            (decimal_loop-AreDigits fuel (n / 10) ((b'0' + n % 10) ∷ acc) (ground arith) (d, k))
    ]

pub decimal-AreDigits : (n : ℕ) → AreDigits (decimal n) × (is_empty (decimal n) ≡ false)
unfolding decimal
decimal-AreDigits n = decimal_loop-AreDigits (suc n) n [] (omega arith) tt
