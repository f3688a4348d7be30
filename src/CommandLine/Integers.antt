-- ===== src/CommandLine/Integers.antt =====
-- What is_integer and std::stoi make of the numbers of a command line.
use mavcam.Prelude.{
  ◌≡◌, ◌∙◌, refl, ap, ℕ, suc, zero, ◌+◌, ◌%◌, ◌/◌, ◌^◌, ◌<◌, true, List, [], ◌∷◌, ◌++◌, ltb,
  Bool-cases, inl, inr, arith, if◌then◌else◌,
}
use mavcam.Prelude.Int.{ℤ, pos}
use mavcam.Prelude.Text.{all_digits, codes, decimal, decimal_fuel, is_digit}
use mavcam.Prelude.Text.RoundTrip.{decimal-small, decimal-large, stoi-decimal}
use mavcam.CommandLine.{Outcome, Round, is_integer, integer_option}

all_digits-append :
    (cs : List ℕ) (d : ℕ) → all_digits cs ≡ true → d < 10 → all_digits (cs ++ (48 + d) ∷ []) ≡ true
unfolding all_digits is_digit
all_digits-append [] d h lt = ground arith
all_digits-append (c ∷ cs) d h lt = ground (arith, all_digits-append cs d)

decimal-all_digits : (fuel n : ℕ) → n < fuel → all_digits (codes (decimal_fuel fuel n)) ≡ true
unfolding all_digits is_digit
decimal-all_digits zero n h = absurd (omega arith)
decimal-all_digits (suc fuel) n h = elim (Bool-cases (ltb n 10)) [
  | inl small ↦
      ap all_digits (decimal-small fuel n small) ∙ all_digits-append [] n refl (ground arith)
  | inr large ↦
      ap all_digits (decimal-large fuel n large)
      ∙ all_digits-append (codes (decimal_fuel fuel (n / 10))) (n % 10)
          (decimal-all_digits fuel (n / 10) (ground arith)) (omega arith)
]

is_integer-decimal : (n : ℕ) → is_integer (decimal n) ≡ true
unfolding is_integer decimal
is_integer-decimal n = decimal-all_digits (suc n) n (omega arith)

module _ {O : Type 0} (assign : ℤ → O) where
  pub integer_option-decimal :
      (n : ℕ)
      → integer_option assign (decimal n)
        ≡ (if ltb n (2 ^ 31) then Round.takes_two (assign (pos n)) else Round.ends Outcome.throws)
  unfolding integer_option
  integer_option-decimal n = ground (arith, is_integer-decimal n, stoi-decimal n)

  pub integer_option-small :
      (n : ℕ) → n < 2 ^ 31 → integer_option assign (decimal n) ≡ Round.takes_two (assign (pos n))
  integer_option-small n fits =
      let small : ltb n (2 ^ 31) ≡ true = ground arith in
      integer_option-decimal n
      ∙ ap (λ test. if test then Round.takes_two (assign (pos n)) else Round.ends Outcome.throws)
          small
