-- ===== src/Prelude/Text.antt =====
-- Numbers as text: what std::to_string and std::ostream write for an int that is not negative, and
-- std::stoi, whose exceptions are `none`.
pub mod RoundTrip
use Prim.Native.Nat.{ℕ, zero, suc, ◌+◌, ◌-◌, ◌*◌, ◌/◌, ◌%◌, ◌^◌}
use Prim.Native.Char.{code}
use Prim.Native.String.{String, ◌++◌ as append_text}
use mathlib.Core.Bool.{Bool, true, false, ◌&&◌, ◌||◌}
use mathlib.Core.Option.{Option, none, some}
use mathlib.Core.List.{List, [], ◌∷◌}
use mathlib.Core.Path.{◌≡◌, refl}
use mavcam.Prelude.Tests.{leb, ltb, ◌==◌, str_eq, if◌then◌else◌}
use mavcam.Prelude.Int.{ℤ, pos, negsuc}
pub use Prim.Native.String.{◌++◌ as append_text}

-- The bytes of an ASCII text.
abbrev pub codes : String → List ℕ
codes String.[] = []
codes (String.◌∷◌ c s) = code c ∷ codes s

unfoldable pub digit_text : ℕ → String
digit_text zero = "0"
digit_text (suc zero) = "1"
digit_text (suc (suc zero)) = "2"
digit_text (suc (suc (suc zero))) = "3"
digit_text (suc (suc (suc (suc zero)))) = "4"
digit_text (suc (suc (suc (suc (suc zero))))) = "5"
digit_text (suc (suc (suc (suc (suc (suc zero)))))) = "6"
digit_text (suc (suc (suc (suc (suc (suc (suc zero))))))) = "7"
digit_text (suc (suc (suc (suc (suc (suc (suc (suc zero)))))))) = "8"
digit_text _ = "9"

-- Fuel: a number has fewer digits than one more than itself.
unfoldable pub decimal_fuel : ℕ → ℕ → String
unfolding digit_text
decimal_fuel zero n = ""
decimal_fuel (suc fuel) n =
    let rest = decimal_fuel fuel (n / 10) in
    if ltb n 10 then digit_text n else append_text rest (digit_text (n % 10))

unfoldable pub decimal : ℕ → String
unfolding decimal_fuel
decimal n = decimal_fuel (suc n) n

-- `std::setw(4) << std::setfill('0')`
unfoldable pub padded4 : ℕ → String
unfolding decimal
padded4 n =
    append_text
      (if ltb n 10 then "000" else if ltb n 100 then "00" else if ltb n 1000 then "0" else "")
      (decimal n)

unfoldable pub is_space : ℕ → Bool
is_space c = c == 32 || (leb 9 c && leb c 13)

unfoldable pub is_digit : ℕ → Bool
is_digit c = leb 48 c && leb c 57

unfoldable pub skip_spaces : List ℕ → List ℕ
skip_spaces [] = []
skip_spaces (c ∷ cs) = if is_space c then skip_spaces cs else c ∷ cs

-- The digits up to the first byte that is none, and nothing if there are no digits at all.
unfoldable pub read_digits : Bool → ℕ → List ℕ → Option ℕ
read_digits seen n [] = if seen then some n else none
read_digits seen n (c ∷ cs) = elim (is_digit c) [
  | true ↦ read_digits true (10 * n + (c - 48)) cs
  | false ↦ if seen then some n else none
]

unfoldable pub to_signed : Bool → Option ℕ → Option ℤ
to_signed negative none = none
to_signed false (some n) = if ltb n (2 ^ 31) then some (pos n) else none
to_signed true (some zero) = some (pos 0)
to_signed true (some (suc n)) = if ltb n (2 ^ 31) then some (negsuc n) else none

unfoldable pub read_sign : List ℕ → Option ℤ
read_sign [] = none
read_sign (c ∷ cs) =
    if c == b'-'
    then to_signed true (read_digits false 0 cs)
    else if c == b'+'
    then to_signed false (read_digits false 0 cs)
    else to_signed false (read_digits false 0 (c ∷ cs))

unfoldable pub stoi : String → Option ℤ
unfolding is_space is_digit skip_spaces read_digits to_signed read_sign
stoi s = read_sign (skip_spaces (codes s))

stoi_negative : stoi "  -42x" ≡ some (negsuc 41)
unfolding stoi
stoi_negative = refl

stoi_empty : stoi "" ≡ none
unfolding stoi
stoi_empty = refl

padded4_short : padded4 37 ≡ "0037"
unfolding padded4
padded4_short = refl

pub stoi_zero : stoi "0" ≡ some (pos 0)
unfolding stoi
stoi_zero = refl

-- std::to_string of an int.
unfoldable pub to_string : ℤ → String
unfolding decimal
to_string (pos n) = decimal n
to_string (negsuc n) = append_text "-" (decimal (suc n))

unfoldable pub all_digits : List ℕ → Bool
unfolding is_digit
all_digits [] = true
all_digits (c ∷ cs) = is_digit c && all_digits cs

-- The texts before and after the first character of that kind, where there is one.
unfoldable pub split_at : String → String → Option (String × String)
split_at mark String.[] = none
split_at mark (String.◌∷◌ c rest) =
    let later = split_at mark rest in
    if str_eq (String.◌∷◌ c "") mark
    then some ("", rest)
    else elim later [ none ↦ none | some (before, after) ↦ some (String.◌∷◌ c before, after) ]
