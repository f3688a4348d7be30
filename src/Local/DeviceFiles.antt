-- ===== src/Local/DeviceFiles.antt =====
-- The files and properties that describe the device: firmware_version_from_device and its companions of
-- src/mav_client/camera_local_client.cpp. A file is the list of its lines, `none` where it cannot be
-- opened. Each regular expression is a reader by hand: none of them can match in two ways.
pub mod Stream
mod ReadBack
mod InRange
mod Tests
use mavcam.Prelude.{
  ℕ, zero, Bool, true, false, not, ◌&&◌, Option, none, some, String, List, [], ◌∷◌, str_eq, ◌==◌,
  ltb, if◌then◌else◌, ◌^◌,
}
use Prim.Native.Char.{code}
use mavcam.Prelude.Int.{ℤ, pos, negsuc}
use mavcam.Prelude.Text.{codes, append_text, is_digit, is_space, read_digits, all_digits, to_signed}
use mavcam.Local.Information.{PreviewStream}

abbrev pub is_empty : String → Bool
is_empty String.[] = true
is_empty (String.◌∷◌ c rest) = false

-- What follows a prefix.
unfoldable pub after_prefix : String → String → Option String
after_prefix String.[] line = some line
after_prefix (String.◌∷◌ c rest) String.[] = none
after_prefix (String.◌∷◌ c rest) (String.◌∷◌ c' line) =
    let later = after_prefix rest line in if code c == code c' then later else none

-- Without the carriage return at the end.
unfoldable pub without_return : String → String
without_return String.[] = ""
without_return (String.◌∷◌ c rest) =
    let later = without_return rest in
    if code c == 13 && is_empty rest then "" else String.◌∷◌ c later

-- The digits that a text begins with, and the rest.
unfoldable pub span_digits : String → String × String
unfolding is_digit
span_digits String.[] = ("", "")
span_digits (String.◌∷◌ c rest) =
    let (digits, later) = span_digits rest in
    if is_digit (code c) then (String.◌∷◌ c digits, later) else ("", String.◌∷◌ c rest)

unfoldable pub skip_blanks : String → String
unfolding is_space
skip_blanks String.[] = ""
skip_blanks (String.◌∷◌ c rest) =
    let later = skip_blanks rest in if is_space (code c) then later else String.◌∷◌ c rest

-- `([0-9]+)`
abbrev pub number : String → Option (String × String)
number text =
    let (digits, rest) = span_digits text in if str_eq digits "" then none else some (digits, rest)

-- `v?`
abbrev without_v : String → String
without_v text = elim (after_prefix "v" text) [ none ↦ text | some rest ↦ rest ]

-- `\\r?` and the end
abbrev is_end : String → Bool
is_end rest = str_eq (without_return rest) ""

-- What follows the second number of a version: nothing, or a third one.
abbrev version_end : String → String → Option String
version_end version rest = if is_end rest then some version else elim (after_prefix "." rest) [
  | none ↦ none
  | some text ↦ elim (number text) [
    | none ↦ none
    | some (patch, left) ↦
        if is_end left then some (append_text version (append_text "." patch)) else none
  ]
]

unfoldable pub sdk_version : String → Option String
unfolding after_prefix without_return span_digits
sdk_version line = elim (after_prefix "SDK_VERSION=" line) [
  | none ↦ none
  | some text ↦ elim (number (without_v text)) [
    | none ↦ none
    | some (major, rest) ↦ elim (after_prefix "." rest) [
      | none ↦ none
      | some later ↦ elim (number later) [
        | none ↦ none
        | some (minor, left) ↦ version_end (append_text major (append_text "." minor)) left
      ]
    ]
  ]
]

-- The first line that has a value.
unfoldable pub first_value {ℓ} : {A : Type ℓ} → (String → Option A) → List String → Option A
first_value read [] = none
first_value read (line ∷ rest) = elim (read line) [
  | none ↦ first_value read rest
  | some value ↦ some value
]

abbrev pub value_or {ℓ} : {A : Type ℓ} → A → (String → Option A) → Option (List String) → A
value_or missing read none = missing
value_or missing read (some lines) = elim (first_value read lines) [
  | none ↦ missing
  | some value ↦ value
]

unfoldable pub firmware_version_from_device : Option (List String) → String
unfolding sdk_version first_value
firmware_version_from_device = value_or "0.0.0" sdk_version

-- The value of a line `key=value` that is not empty.
unfoldable pub property_value : String → String → Option String
unfolding after_prefix without_return
property_value prefix line = elim (after_prefix prefix line) [
  | none ↦ none
  | some text ↦ if is_empty (without_return text) then none else some (without_return text)
]

unfoldable pub product_brand_from_device : Option (List String) → String
unfolding property_value first_value
product_brand_from_device = value_or "" (property_value "PRODUCTBRAND=")

unfoldable pub product_name_from_device : Option (List String) → String
unfolding property_value first_value
product_name_from_device = value_or "" (property_value "PRODUCTNAME=")

-- std::from_chars up to the end of the text: no blanks, no plus, nothing that no int can hold.
unfoldable pub parse_digits : Bool → List ℕ → Option ℤ
unfolding read_digits all_digits to_signed
parse_digits negative cs =
    if all_digits cs then to_signed negative (read_digits false 0 cs) else none

unfoldable pub parse_int32 : String → Option ℤ
unfolding parse_digits
parse_int32 String.[] = none
parse_int32 (String.◌∷◌ c rest) =
    if code c == b'-'
    then parse_digits true (codes rest)
    else parse_digits false (codes (String.◌∷◌ c rest))

-- From the first '>' on.
unfoldable pub after_tag : String → Option String
after_tag String.[] = none
after_tag (String.◌∷◌ c rest) =
    let later = after_tag rest in if code c == b'>' then some rest else later

-- What follows the number of a definition's version.
abbrev closes_tag : String → Bool
closes_tag rest = elim (after_prefix "\"" rest) [
  | none ↦ false
  | some left ↦ elim (after_tag left) [
    | none ↦ false
    | some blanks ↦ str_eq (skip_blanks blanks) ""
  ]
]

unfoldable pub definition_version : String → Option ℤ
unfolding after_prefix span_digits skip_blanks after_tag parse_int32
definition_version line = elim (after_prefix "<definition" (skip_blanks line)) [
  | none ↦ none
  | some text ↦ elim (after_prefix "version=\"" (skip_blanks text)) [
    | none ↦ none
    | some later ↦ elim (number later) [
      | none ↦ none
      | some (digits, rest) ↦
          if not (str_eq (skip_blanks text) text) && closes_tag rest
          then parse_int32 digits
          else none
    ]
  ]
]

unfoldable pub definition_file_version_from_device : Option (List String) → ℤ
unfolding definition_version first_value
definition_file_version_from_device = value_or (pos 0) definition_version
