-- ===== src/Local/DeviceFiles/ReadBack.antt =====
-- What the readers of the device's files find again, and what they keep.
use Prim.Native.Char.{code}
use mathlib.Core.List.{append_assoc}
use text.Mathlib.TextLemmas.{nil-append, cons-append}
use mavcam.Prelude.{
  ◌≡◌, ◌∙◌, refl, ap, ℕ, Bool, true, false, ◌&&◌, Option, none, some, String, List, [], ◌∷◌, ◌++◌,
  ◌==◌, if◌then◌else◌, arith,
}
use mavcam.Prelude.Text.{append_text}
use mavcam.Local.DeviceFiles.{
  is_empty, after_prefix, without_return, first_value, property_value, product_brand_from_device,
  product_name_from_device,
}

same_number : (n : ℕ) → (n == n) ≡ true
same_number n = ground arith

after_prefix-append : (p s : String) → after_prefix p (append_text p s) ≡ some s
unfolding after_prefix
after_prefix-append String.[] s = ap some (nil-append s)
after_prefix-append (String.◌∷◌ c p) s =
    ap (after_prefix (String.◌∷◌ c p)) (cons-append c p s)
    ∙ ap (λ test. if test then after_prefix p (append_text p s) else none) (same_number (code c))
    ∙ after_prefix-append p s

append_text-full : (s t : String) → is_empty t ≡ false → is_empty (append_text s t) ≡ false
append_text-full String.[] t h = ap is_empty (nil-append t) ∙ h
append_text-full (String.◌∷◌ c s) t h = ap is_empty (cons-append c s t)

and_false : (b : Bool) → (b && false) ≡ false
and_false true = refl
and_false false = refl

without_return-append : (s : String) → without_return (append_text s "\r") ≡ s
unfolding without_return
without_return-append String.[] = ap without_return (nil-append "\r")
without_return-append (String.◌∷◌ c s) =
    ap without_return (cons-append c s "\r")
    ∙ ap
        (λ test.
          if code c == 13 && test then "" else String.◌∷◌ c (without_return (append_text s "\r")))
        (append_text-full s "\r" refl)
    ∙ ap (λ test. if test then "" else String.◌∷◌ c (without_return (append_text s "\r")))
        (and_false (code c == 13))
    ∙ ap (String.◌∷◌ c) (without_return-append s)

property_value-line :
    (key value : String)
    → is_empty value ≡ false
    → property_value key (append_text key (append_text value "\r")) ≡ some value
unfolding property_value
property_value-line key value full =
    ap
      (λ found. elim found as (λ _. Option String) [
        | none ↦ none
        | some text ↦ if is_empty (without_return text) then none else some (without_return text)
      ])
      (after_prefix-append key (append_text value "\r"))
    ∙ ap (λ v. if is_empty v then none else some v) (without_return-append value)
    ∙ ap (λ test. if test then none else some value) full

-- None of the lines has the key with a value.
unfoldable pub HasNoValue : String → List String → Type 0
unfolding property_value
HasNoValue key [] = Unit {0}
HasNoValue key (line ∷ rest) = (property_value key line ≡ none) × HasNoValue key rest

first_value-after :
    (key value : String) (before after : List String)
    → HasNoValue key before
    → is_empty value ≡ false
    → first_value (property_value key) (before ++ append_text key (append_text value "\r") ∷ after)
      ≡ some value
unfolding first_value HasNoValue
first_value-after key value [] after none_there full =
    ap
      (λ found. elim found as (λ _. Option String) [
        | none ↦ first_value (property_value key) after
        | some v ↦ some v
      ])
      (property_value-line key value full)
first_value-after key value (line ∷ before) after (e, more) full =
    ap
      (λ found. elim found as (λ _. Option String) [
        | none ↦
            first_value (property_value key)
              (before ++ append_text key (append_text value "\r") ∷ after)
        | some v ↦ some v
      ])
      e
    ∙ first_value-after key value before after more full

abbrev line_of : String → String → String
line_of key value = append_text key (append_text value "\r")

-- A file with a line for the brand and a line for the name, each the first of its kind that has a value
-- and ended by a carriage return, gives back both, without the carriage return and whatever else is in
-- it.
pub product_text_read_back :
    (brand name : String) (before middle after : List String)
    → is_empty brand ≡ false
    → is_empty name ≡ false
    → HasNoValue "PRODUCTBRAND=" before
    → HasNoValue "PRODUCTNAME=" (before ++ line_of "PRODUCTBRAND=" brand ∷ middle)
    → let file =
        (before ++ line_of "PRODUCTBRAND=" brand ∷ middle) ++ line_of "PRODUCTNAME=" name ∷ after in
      (product_brand_from_device (some file) ≡ brand)
      × (product_name_from_device (some file) ≡ name)
unfolding product_name_from_device product_brand_from_device
product_text_read_back brand name before middle after brand_full name_full no_brand no_name =
    let given_or_empty : Option String → String = λ found. elim found [ none ↦ "" | some v ↦ v ] in
    (
      ap (λ lines. given_or_empty (first_value (property_value "PRODUCTBRAND=") lines))
            (append_assoc before (line_of "PRODUCTBRAND=" brand ∷ middle)
              (line_of "PRODUCTNAME=" name ∷ after))
          ∙ ap given_or_empty (
              first_value-after "PRODUCTBRAND=" brand before
                (middle ++ line_of "PRODUCTNAME=" name ∷ after) no_brand brand_full),
      ap given_or_empty (
          first_value-after "PRODUCTNAME=" name (before ++ line_of "PRODUCTBRAND=" brand ∷ middle)
            after no_name name_full),
    )
