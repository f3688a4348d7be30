-- ===== src/Prelude/Text/RoundTrip.antt =====
-- std::stoi reads what std::to_string writes.
use Prim.Native.Nat.{ℕ, zero, suc, ◌+◌, ◌-◌, ◌*◌, ◌/◌, ◌%◌, ◌^◌, ◌<◌, ◌≤◌}
use Prim.Native.Char.{code}
use Prim.Native.String.{String, ◌++◌ as append_text}
use mathlib.Core.Bool.{Bool, true, false, ◌&&◌}
use mathlib.Core.Option.{none, some}
use mathlib.Core.List.{List, [], ◌∷◌, ◌++◌, append_assoc, append-nil}
use mathlib.Core.Path.{◌≡◌, refl, sym, ap, ◌∙◌}
use mathlib.Core.Logic.{inl, inr}
use text.Mathlib.TextLemmas.{nil-append, cons-append}
use native.Mathlib.Omega.{arith}
use mavcam.Prelude.Tests.{leb, ltb, if◌then◌else◌, Bool-cases}
use mavcam.Prelude.Int.{ℤ, pos, negsuc}
use mavcam.Prelude.Text.{
  codes, digit_text, decimal_fuel, decimal, read_digits, is_digit, is_space, to_signed, read_sign,
  skip_spaces, stoi, to_string,
}

codes-append : (s t : String) → codes (append_text s t) ≡ codes s ++ codes t
codes-append String.[] t = ap codes (nil-append t)
codes-append (String.◌∷◌ c s) t =
    ap codes (cons-append c s t) ∙ ap (λ rest. code c ∷ rest) (codes-append s t)

digit-code : (n : ℕ) → n < 10 → codes (digit_text n) ≡ (48 + n) ∷ []
unfolding digit_text
digit-code zero h = refl
digit-code (suc zero) h = refl
digit-code (suc (suc zero)) h = refl
digit-code (suc (suc (suc zero))) h = refl
digit-code (suc (suc (suc (suc zero)))) h = refl
digit-code (suc (suc (suc (suc (suc zero))))) h = refl
digit-code (suc (suc (suc (suc (suc (suc zero)))))) h = refl
digit-code (suc (suc (suc (suc (suc (suc (suc zero))))))) h = refl
digit-code (suc (suc (suc (suc (suc (suc (suc (suc zero)))))))) h = refl
digit-code (suc (suc (suc (suc (suc (suc (suc (suc (suc zero))))))))) h = refl
digit-code (suc (suc (suc (suc (suc (suc (suc (suc (suc (suc n)))))))))) h = absurd (omega arith)

read_digit :
    (seen : Bool) (n d : ℕ) (out : List ℕ)
    → d < 10
    → read_digits seen n ((48 + d) ∷ out) ≡ read_digits true (10 * n + d) out
unfolding read_digits is_digit
read_digit seen n d out h =
    let first : (leb 48 (48 + d) && leb (48 + d) 57) ≡ true = ground arith in
    let value : 10 * n + (48 + d - 48) ≡ 10 * n + d = omega arith in
    ap
      (λ test. elim test [
        | true ↦ read_digits true (10 * n + (48 + d - 48)) out
        | false ↦ if seen then some n else none
      ])
      first
    ∙ ap (λ m. read_digits true m out) value

pub decimal-small :
    (fuel n : ℕ) → ltb n 10 ≡ true → codes (decimal_fuel (suc fuel) n) ≡ (48 + n) ∷ []
unfolding decimal_fuel
decimal-small fuel n small =
    ap
      (λ test. codes (
        if test
        then digit_text n
        else append_text (decimal_fuel fuel (n / 10)) (digit_text (n % 10))))
      small
    ∙ digit-code n (ground arith)

pub decimal-large :
    (fuel n : ℕ)
    → ltb n 10 ≡ false
    → codes (decimal_fuel (suc fuel) n) ≡ codes (decimal_fuel fuel (n / 10)) ++ (48 + n % 10) ∷ []
unfolding decimal_fuel
decimal-large fuel n large =
    ap
      (λ test. codes (
        if test
        then digit_text n
        else append_text (decimal_fuel fuel (n / 10)) (digit_text (n % 10))))
      large
    ∙ codes-append (decimal_fuel fuel (n / 10)) (digit_text (n % 10))
    ∙ ap (λ last. codes (decimal_fuel fuel (n / 10)) ++ last) (digit-code (n % 10) (omega arith))

-- The digits of a number, read before any others, leave the number read.
read_digits-decimal :
    (fuel n : ℕ) (out : List ℕ)
    → n < fuel
    → read_digits false 0 (codes (decimal_fuel fuel n) ++ out) ≡ read_digits true n out
read_digits-decimal zero n out h = absurd (omega arith)
read_digits-decimal (suc fuel) n out h = elim (Bool-cases (ltb n 10)) [
  | inl small ↦
      ap (λ cs. read_digits false 0 (cs ++ out)) (decimal-small fuel n small)
      ∙ read_digit false 0 n out (ground arith)
      ∙ ap (λ m. read_digits true m out) (omega arith)
  | inr large ↦
      ap (λ cs. read_digits false 0 (cs ++ out)) (decimal-large fuel n large)
      ∙ ap (read_digits false 0)
          (append_assoc (codes (decimal_fuel fuel (n / 10))) ((48 + n % 10) ∷ []) out)
      ∙ read_digits-decimal fuel (n / 10) ((48 + n % 10) ∷ out) (ground arith)
      ∙ read_digit true (n / 10) (n % 10) out (omega arith)
      ∙ ap (λ m. read_digits true m out) (omega arith)
]

-- A text of digits, at least one.
abbrev StartsWithDigit : List ℕ → Type 0
StartsWithDigit cs = (c : ℕ) × (rest : List ℕ) × (cs ≡ c ∷ rest) × (48 ≤ c) × (c ≤ 57)

decimal-StartsWithDigit : (fuel n : ℕ) → n < fuel → StartsWithDigit (codes (decimal_fuel fuel n))
decimal-StartsWithDigit zero n h = absurd (omega arith)
decimal-StartsWithDigit (suc fuel) n h = elim (Bool-cases (ltb n 10)) [
  | inl small ↦ (48 + n, [], decimal-small fuel n small, omega arith, ground arith)
  | inr large ↦
      let (c, rest, e, low, high) = decimal-StartsWithDigit fuel (n / 10) (ground arith) in
      (
        c,
        rest ++ (48 + n % 10) ∷ [],
        decimal-large fuel n large ∙ ap (λ cs. cs ++ (48 + n % 10) ∷ []) e,
        low,
        high,
      )
]

stoi-unsigned :
    (c : ℕ) (rest : List ℕ)
    → 48 ≤ c
    → c ≤ 57
    → read_sign (skip_spaces (c ∷ rest)) ≡ to_signed false (read_digits false 0 (c ∷ rest))
unfolding skip_spaces read_sign is_space
stoi-unsigned c rest low high = ground arith

stoi-digits :
    (cs : List ℕ)
    → StartsWithDigit cs
    → read_sign (skip_spaces cs) ≡ to_signed false (read_digits false 0 cs)
stoi-digits cs (c, rest, e, low, high) =
    ap (λ cs. read_sign (skip_spaces cs)) e
    ∙ stoi-unsigned c rest low high
    ∙ ap (λ cs. to_signed false (read_digits false 0 cs)) (sym e)

read_decimal : (n : ℕ) → read_digits false 0 (codes (decimal n)) ≡ some n
unfolding decimal read_digits
read_decimal n =
    ap (read_digits false 0) (sym (append-nil (codes (decimal_fuel (suc n) n))))
    ∙ read_digits-decimal (suc n) n [] (omega arith)

-- std::stoi throws at a number that no int can hold.
pub stoi-decimal : (n : ℕ) → stoi (decimal n) ≡ (if ltb n (2 ^ 31) then some (pos n) else none)
unfolding stoi decimal to_signed
stoi-decimal n =
    stoi-digits (codes (decimal n)) (decimal-StartsWithDigit (suc n) n (omega arith))
    ∙ ap (to_signed false) (read_decimal n)

-- The numbers of an int.
abbrev pub is_int : ℤ → Bool
is_int (pos n) = ltb n (2 ^ 31)
is_int (negsuc n) = ltb n (2 ^ 31)

-- std::stoi gives back every int that std::to_string has written, the smallest included.
pub stoi-to_string : (v : ℤ) → is_int v ≡ true → stoi (to_string v) ≡ some v
unfolding stoi to_string decimal skip_spaces read_sign is_space to_signed
stoi-to_string (pos n) h = stoi-decimal n ∙ ap (λ test. if test then some (pos n) else none) h
stoi-to_string (negsuc n) h =
    ap (λ cs. read_sign (skip_spaces cs)) (codes-append "-" (decimal (suc n)))
    ∙ ap (to_signed true) (read_decimal (suc n))
    ∙ ground arith
