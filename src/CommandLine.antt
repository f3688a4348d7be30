-- ===== src/CommandLine.antt =====
-- The command lines of the two programs, src/mav_client/mav_client_bin.cpp and
-- src/mav_server/mav_server_bin.cpp: the loop of main over its arguments, for any record of options,
-- and is_integer.
pub mod Integers
use mavcam.Prelude.{
  ℕ, Bool, true, false, not, Option, none, some, String, List, [], ◌∷◌, if◌then◌else◌,
}
use mavcam.Prelude.Int.{ℤ}
use mavcam.Prelude.Text.{codes, all_digits, stoi}

-- How the loop ends: main returns a code, goes on, or is left by an exception of std::stoi.
pub data Outcome (O : Type 0) : Type 0 where
  exits : ℕ → Outcome O
  runs : O → Outcome O
  throws : Outcome O

-- One round of the loop: it ends it, or has taken the argument, or the one after it too.
pub data Round (O : Type 0) : Type 0 where
  ends : Outcome O → Round O
  takes_one takes_two : O → Round O

unfoldable pub is_integer : String → Bool
unfolding all_digits
is_integer tested = all_digits (codes tested)

module _ {O : Type 0} where
  -- `argv[i + 1]`, where there is one.
  abbrev pub with_value : Option String → (String → Round O) → Round O
  with_value none use_value = Round.ends (Outcome.exits 1)
  with_value (some value) use_value = use_value value

  -- A value that is tested by is_integer and read by std::stoi.
  unfoldable pub integer_option : (ℤ → O) → String → Round O
  unfolding is_integer stoi
  integer_option assign value =
      if not (is_integer value) then Round.ends (Outcome.exits 1) else elim (stoi value) [
        | none ↦ Round.ends Outcome.throws
        | some n ↦ Round.takes_two (assign n)
      ]

  -- The loop, over the reader of one argument and the one after it.
  abbrev pub loop : (String → Option String → O → Round O) → List String → O → Outcome O
  loop read_arg [] o = Outcome.runs o
  loop read_arg (arg ∷ []) o = elim (read_arg arg none o) [
    | Round.ends outcome ↦ outcome
    | Round.takes_one o' ↦ Outcome.runs o'
    | Round.takes_two o' ↦ Outcome.runs o'
  ]
  loop read_arg (arg ∷ next ∷ rest) o = elim (read_arg arg (some next) o) [
    | Round.ends outcome ↦ outcome
    | Round.takes_one o' ↦ loop read_arg (next ∷ rest) o'
    | Round.takes_two o' ↦ loop read_arg rest o'
  ]
