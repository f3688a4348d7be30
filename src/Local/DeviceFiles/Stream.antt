-- ===== src/Local/DeviceFiles/Stream.antt =====
-- The format of the preview stream: read_device_property and read_preview_stream_from_device of
-- src/mav_client/camera_local_client.cpp. Each regular expression is a reader by hand.
use mavcam.Prelude.{zero, Bool, ◌&&◌, Option, none, some, String, str_eq, ltb, if◌then◌else◌}
use Prim.Native.Char.{code}
use mavcam.Prelude.Int.{ℤ, pos}
use mavcam.Prelude.Text.{append_text, is_space}
use mavcam.Local.Information.{PreviewStream}
use mavcam.Local.DeviceFiles.{after_prefix, span_digits, skip_blanks, number, parse_int32}

-- regex_replace with "\\s" and the empty text.
unfoldable pub without_blanks : String → String
unfolding is_space
without_blanks String.[] = ""
without_blanks (String.◌∷◌ c rest) =
    let later = without_blanks rest in if is_space (code c) then later else String.◌∷◌ c later

-- What the command wrote and its status; `none` where it could not be started.
unfoldable pub read_device_property : Option (String × ℤ) → Option String
read_device_property none = none
read_device_property (some (output, pos zero)) = some output
read_device_property (some _) = none

-- `([0-9]+(?:\\.[0-9]+)?)\\s*` and the end
abbrev rate_of : String → Option String
rate_of text = elim (number text) [
  | none ↦ none
  | some (whole, rest) ↦ elim (after_prefix "." rest) [
    | none ↦ if str_eq (skip_blanks rest) "" then some whole else none
    | some later ↦ elim (number later) [
      | none ↦ none
      | some (part, left) ↦
          if str_eq (skip_blanks left) ""
          then some (append_text whole (append_text "." part))
          else none
    ]
  ]
]

-- The numbers of a stream's mode, "1920x1080@30.0", between blanks.
unfoldable pub stream_mode : String → Option (String × String × String)
unfolding after_prefix span_digits skip_blanks
stream_mode text = elim (number (skip_blanks text)) [
  | none ↦ none
  | some (width, at_x) ↦ elim (after_prefix "x" at_x) [
    | none ↦ none
    | some later ↦ elim (number later) [
      | none ↦ none
      | some (height, at_rate) ↦ elim (after_prefix "@" at_rate) [
        | none ↦ none
        | some text ↦ elim (rate_of text) [ none ↦ none | some rate ↦ some (width, height, rate) ]
      ]
    ]
  ]
]

module _ {F : Type 0} (strtof : String → F) (above_zero : F → Bool) where
  -- The stream keeps its size and its rate unless all three are positive.
  unfoldable pub with_mode : Option ℤ → Option ℤ → F → PreviewStream F → PreviewStream F
  with_mode (some (pos width)) (some (pos height)) rate stream =
      if ltb 0 width && ltb 0 height && above_zero rate
      then record stream { width = width; height = height; frame_rate = rate }
      else stream
  with_mode _ _ rate stream = stream

  unfoldable pub with_bitrate : Option ℤ → PreviewStream F → PreviewStream F
  with_bitrate (some (pos bitrate)) stream =
      if ltb 0 bitrate then record stream { bitrate = bitrate } else stream
  with_bitrate _ stream = stream

  abbrev pub read_mode : Option String → PreviewStream F → PreviewStream F
  read_mode none stream = stream
  read_mode (some text) stream = elim (stream_mode text) [
    | none ↦ stream
    | some (width, height, rate) ↦
        with_mode (parse_int32 width) (parse_int32 height) (strtof rate) stream
  ]

  abbrev pub read_bitrate : Option String → PreviewStream F → PreviewStream F
  read_bitrate none stream = stream
  read_bitrate (some text) stream = with_bitrate (parse_int32 (without_blanks text)) stream

  -- The two properties, persist.video.preview.mode and persist.video.preview.bitrate.
  unfoldable pub read_preview_stream_from_device :
      Option String → Option String → PreviewStream F → PreviewStream F
  unfolding stream_mode parse_int32 without_blanks with_mode with_bitrate
  read_preview_stream_from_device mode bitrate stream = read_bitrate bitrate (read_mode mode stream)
