-- ===== src/Local/DeviceFiles/InRange.antt =====
-- The sizes and the bitrate that the readers of the device give are in range.
use Prim.Native.Char.{code}
use mavcam.Prelude.{
  ◌≡◌, ◌∙◌, refl, ap, ℕ, zero, suc, ◌<◌, ◌^◌, Bool, true, false, ◌&&◌, Option, none, some, String,
  List, ◌==◌, ltb, Bool-cases, inl, inr, if_cases, if◌then◌else◌, arith,
}
use mavcam.Prelude.Int.{ℤ, pos, negsuc}
use mavcam.Prelude.Text.{codes, to_signed, all_digits, read_digits}
use mavcam.Local.Information.{PreviewStream}
use mavcam.Local.DeviceFiles.{parse_digits, parse_int32}
use mavcam.Local.DeviceFiles.Stream.{
  stream_mode, without_blanks, with_mode, with_bitrate, read_mode, read_bitrate,
  read_preview_stream_from_device,
}

-- A number that was read fits an int.
unfoldable fits : Option ℤ → Bool
fits (some (pos n)) = ltb n (2 ^ 31)
fits _ = true

to_signed-fits : (negative : Bool) (r : Option ℕ) → fits (to_signed negative r) ≡ true
unfolding to_signed fits
to_signed-fits negative none = refl
to_signed-fits false (some n) = ground arith
to_signed-fits true (some zero) = refl
to_signed-fits true (some (suc n)) = ground arith

parse_digits-fits : (negative : Bool) (cs : List ℕ) → fits (parse_digits negative cs) ≡ true
unfolding parse_digits fits
parse_digits-fits negative cs = elim (Bool-cases (all_digits cs)) [
  | inl digits ↦
      ap (λ test. fits (if test then to_signed negative (read_digits false 0 cs) else none)) digits
      ∙ to_signed-fits negative (read_digits false 0 cs)
  | inr other ↦
      ap (λ test. fits (if test then to_signed negative (read_digits false 0 cs) else none)) other
]

parse_int32-fits : (text : String) → fits (parse_int32 text) ≡ true
unfolding parse_int32 fits
parse_int32-fits String.[] = refl
parse_int32-fits (String.◌∷◌ c rest) = elim (Bool-cases (code c == b'-')) [
  | inl minus ↦
      ap
        (λ test. fits (
          if test
          then parse_digits true (codes rest)
          else parse_digits false (codes (String.◌∷◌ c rest))))
        minus
      ∙ parse_digits-fits true (codes rest)
  | inr digit ↦
      ap
        (λ test. fits (
          if test
          then parse_digits true (codes rest)
          else parse_digits false (codes (String.◌∷◌ c rest))))
        digit
      ∙ parse_digits-fits false (codes (String.◌∷◌ c rest))
]

module _ {F : Type 0} (strtof : String → F) (above_zero : F → Bool) where
  -- The preview stream as it can be sent: its sizes and its bitrate are positive and fit an int, and its
  -- frame rate passes the test for a rate above zero.
  unfoldable pub IsStreamable : PreviewStream F → Type 0
  IsStreamable stream =
      ((0 < stream.width) × (stream.width < 2 ^ 31))
      × ((0 < stream.height) × (stream.height < 2 ^ 31))
      × ((0 < stream.bitrate) × (stream.bitrate < 2 ^ 31))
      × (above_zero stream.frame_rate ≡ true)

  with_mode-IsStreamable :
      (width height : Option ℤ) (rate : F) (stream : PreviewStream F)
      → fits width ≡ true
      → fits height ≡ true
      → IsStreamable stream
      → IsStreamable (with_mode strtof above_zero width height rate stream)
  unfolding with_mode IsStreamable fits
  with_mode-IsStreamable none height rate stream ew eh h = h
  with_mode-IsStreamable (some (negsuc w)) height rate stream ew eh h = h
  with_mode-IsStreamable (some (pos w)) none rate stream ew eh h = h
  with_mode-IsStreamable (some (pos w)) (some (negsuc k)) rate stream ew eh h = h
  with_mode-IsStreamable (some (pos w)) (some (pos k)) rate stream ew eh h =
      let (ws, hs, bs, rs) = h in
      if_cases IsStreamable (ltb 0 w && ltb 0 k && above_zero rate)
        (λ all. ((ground arith, ground arith), (ground arith, ground arith), bs, ground arith))
        (λ _. h)

  with_bitrate-IsStreamable :
      (bitrate : Option ℤ) (stream : PreviewStream F)
      → fits bitrate ≡ true
      → IsStreamable stream
      → IsStreamable (with_bitrate strtof above_zero bitrate stream)
  unfolding with_bitrate IsStreamable fits
  with_bitrate-IsStreamable none stream e h = h
  with_bitrate-IsStreamable (some (negsuc b)) stream e h = h
  with_bitrate-IsStreamable (some (pos b)) stream e h =
      let (ws, hs, bs, rs) = h in
      if_cases IsStreamable (ltb 0 b) (λ above. (ws, hs, (ground arith, ground arith), rs)) (λ _. h)

  read_mode-IsStreamable :
      (mode : Option String) (stream : PreviewStream F)
      → IsStreamable stream
      → IsStreamable (read_mode strtof above_zero mode stream)
  unfolding stream_mode
  read_mode-IsStreamable none stream h = h
  read_mode-IsStreamable (some text) stream h =
      elim (stream_mode text)
        as (λ found. IsStreamable (elim found as (λ _. PreviewStream F) [
          | none ↦ stream
          | some (width, height, rate) ↦
              with_mode strtof above_zero (parse_int32 width) (parse_int32 height) (strtof rate)
                stream
        ])) [
          | none ↦ h
          | some (width, height, rate) ↦
              with_mode-IsStreamable (parse_int32 width) (parse_int32 height) (strtof rate) stream
                (parse_int32-fits width) (parse_int32-fits height) h
        ]

  read_bitrate-IsStreamable :
      (bitrate : Option String) (stream : PreviewStream F)
      → IsStreamable stream
      → IsStreamable (read_bitrate strtof above_zero bitrate stream)
  read_bitrate-IsStreamable none stream h = h
  read_bitrate-IsStreamable (some text) stream h =
      with_bitrate-IsStreamable (parse_int32 (without_blanks text)) stream
        (parse_int32-fits (without_blanks text)) h

  -- Whatever the two properties say, the width, the height and the bitrate of the preview stream stay
  -- positive and below 2 ^ 31, and its frame rate stays one that passes the test for above zero, when
  -- they were so before. The frame rate has no upper bound.
  pub preview_stream_stays-IsStreamable :
      (mode bitrate : Option String) (stream : PreviewStream F)
      → IsStreamable stream
      → IsStreamable (read_preview_stream_from_device strtof above_zero mode bitrate stream)
  unfolding read_preview_stream_from_device
  preview_stream_stays-IsStreamable mode bitrate stream h =
      read_bitrate-IsStreamable bitrate (read_mode strtof above_zero mode stream)
        (read_mode-IsStreamable mode stream h)
