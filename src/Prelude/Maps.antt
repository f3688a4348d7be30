-- ===== src/Prelude/Maps.antt =====
-- A string map as an association list: std::unordered_map<std::string, std::string>, and the
-- members of a Json object. `lookup` is `count` with `at`; `at` is `operator[]` on the value side,
-- which reads a missing key as the empty text.
use Prim.Native.String.{String}
use mathlib.Core.Path.{◌≡◌, refl}
use mathlib.Core.Bool.{Bool, true, false}
use mathlib.Core.Option.{Option, none, some}
use mathlib.Core.List.{List, [], ◌∷◌}
use native.Mathlib.Omega.{arith}
use text.Mathlib.TextEquality.{eq_iff}
use text.Mathlib.TextPositions.{eq_refl}
use mavcam.Prelude.Tests.{str_eq, if◌then◌else◌}

abbrev pub Dict : Type 0
Dict = List (String × String)

unfoldable pub lookup : String → Dict → Option String
lookup k [] = none
lookup k ((j, v) ∷ m) = if str_eq j k then some v else lookup k m

unfoldable pub insert : String → String → Dict → Dict
insert k v [] = (k, v) ∷ []
insert k v ((j, w) ∷ m) = if str_eq j k then (k, v) ∷ m else (j, w) ∷ insert k v m

abbrev pub or_empty : Option String → String
or_empty none = ""
or_empty (some v) = v

abbrev pub is_some {ℓ} : {A : Type ℓ} → Option A → Bool
is_some none = false
is_some (some v) = true

abbrev pub at : String → Dict → String
at k m = or_empty (lookup k m)

abbrev pub contains : String → Dict → Bool
contains k m = is_some (lookup k m)

pub lookup-insert :
    (key other value : String) (m : Dict)
    → lookup other (insert key value m) ≡ (if str_eq key other then some value else lookup other m)
unfolding insert lookup
lookup-insert key other value [] = refl
lookup-insert key other value ((first, kept) ∷ rest) = ground (
  arith,
  eq_iff first key,
  eq_iff key other,
  eq_iff first other,
  lookup-insert key other value rest,
)

pub lookup-insert_self : (k v : String) (m : Dict) → lookup k (insert k v m) ≡ some v
lookup-insert_self k v m = simp (lookup-insert, eq_refl)
