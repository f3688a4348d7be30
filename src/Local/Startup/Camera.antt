-- ===== src/Local/Startup/Camera.antt =====
-- CameraLocalClient::init_mav_camera of src/mav_client/camera_local_client.cpp: the camera is loaded and
-- opened with what the store, the environment or the camera itself says. `none` is an exception of
-- std::stoi. The options that are constants are left out.
use mavcam.Prelude.{Bool, true, false, not, Option, none, some, String, str_eq, if◌then◌else◌}
use mavcam.Prelude.Text.{stoi}
use mavcam.Results.{is_mav_success}
use mavcam.Param.{get_value}
use mavcam.Local.Device.{
  Device, CaptureMode, PhotoResolutionMode, VideoResolutionMode, EncoderType, JpegQuality,
  PhotoFormat,
}
use mavcam.Local.State.{Local, call, store, set_entry}
use mavcam.Local.Startup.{Startup, CameraOptions, Load}

-- strncmp(text, digit, 1) == 0
unfoldable pub starts_with : String → String → Bool
starts_with digit String.[] = false
starts_with digit (String.◌∷◌ c rest) = str_eq (String.◌∷◌ c "") digit

-- What the environment says of the camera mode: photo unless it begins with "1".
unfoldable pub mode_from_env : Option String → CaptureMode
unfolding starts_with
mode_from_env none = CaptureMode.photo
mode_from_env (some text) =
    if starts_with "0" text
    then CaptureMode.photo
    else if starts_with "1" text
    then CaptureMode.video
    else CaptureMode.photo

-- The text of a camera mode: "0" for the photo mode alone.
abbrev pub text_of_mode : CaptureMode → String
text_of_mode CaptureMode.photo = "0"
text_of_mode _ = "1"

abbrev pub text_of_resolution : PhotoResolutionMode → String
text_of_resolution PhotoResolutionMode.full = "0"
text_of_resolution PhotoResolutionMode.quarter = "1"

abbrev pub text_of_video : VideoResolutionMode → String
text_of_video VideoResolutionMode.uhd60 = "0"
text_of_video VideoResolutionMode.uhd30 = "1"
text_of_video VideoResolutionMode.fhd60 = "2"
text_of_video VideoResolutionMode.fhd30 = "3"

abbrev pub text_of_encoder : EncoderType → String
text_of_encoder EncoderType.h265 = "1"
text_of_encoder _ = "0"

-- The camera mode that a stored text asks for; where there is none, the one given.
abbrev pub mode_stored : String → CaptureMode → CaptureMode
mode_stored stored given =
    if str_eq stored ""
    then given
    else if str_eq stored "0"
    then CaptureMode.photo
    else CaptureMode.video

module _ {W F : Type 0} (d : Device W F) (u : Startup W F) where
  unfoldable pub choose_mode : CameraOptions × Local W F → CameraOptions × Local W F
  unfolding get_value store mode_from_env
  choose_mode (o, s) =
      let stored = get_value "CAM_MODE" s.param in
      let given = mode_from_env u.env_camera_mode in
      let mode = mode_stored stored given in
      let kept = if str_eq stored "" then store d "CAM_MODE" (text_of_mode given) s else s in
      (record o { init_mode = mode }, set_entry "CAM_MODE" (text_of_mode mode) kept)

  abbrev with_photo_resolution :
      PhotoResolutionMode → String → CameraOptions × Local W F → CameraOptions × Local W F
  with_photo_resolution mode text (o, s) =
      (record o { photo_resolution_mode = mode }, set_entry "CAM_PHOTO_RES" text s)

  unfoldable pub choose_photo_resolution : CameraOptions × Local W F → CameraOptions × Local W F
  unfolding get_value store
  choose_photo_resolution (o, s) =
      let stored = get_value "CAM_PHOTO_RES" s.param in
      let (mode, s') = call u.get_photo_resolution_mode s in
      elim u.env_photo_resolution as (λ _. CameraOptions × Local W F) [
        | some given ↦
            if str_eq given "0"
            then with_photo_resolution PhotoResolutionMode.full "0" (o, s)
            else if str_eq given "1"
            then with_photo_resolution PhotoResolutionMode.quarter "1" (o, s)
            else (o, s)
        | none ↦
            if str_eq stored ""
            then (let text = text_of_resolution mode in
                let (o', chosen) = with_photo_resolution mode text (o, s') in
                (o', store d "CAM_PHOTO_RES" text chosen))
            else with_photo_resolution
                (if str_eq stored "0"
                  then PhotoResolutionMode.full
                  else PhotoResolutionMode.quarter)
                stored (o, s)
      ]

  -- A stored text that is none of the four leaves the option unset.
  unfoldable pub choose_video_resolution : CameraOptions × Local W F → CameraOptions × Local W F
  unfolding get_value store
  choose_video_resolution (o, s) =
      let stored = get_value "CAM_VIDRES" s.param in
      let (mode, s') = call u.get_video_resolution_mode s in
      let known =
        if str_eq stored "0"
        then VideoResolutionMode.uhd60
        else if str_eq stored "1"
        then VideoResolutionMode.uhd30
        else if str_eq stored "2"
        then VideoResolutionMode.fhd60
        else if str_eq stored "3"
        then VideoResolutionMode.fhd30
        else o.video_resolution_mode in
      if str_eq stored ""
      then (
        record o { video_resolution_mode = mode },
        store d "CAM_VIDRES" (text_of_video mode) (set_entry "CAM_VIDRES" (text_of_video mode) s'),
      )
      else (record o { video_resolution_mode = known }, set_entry "CAM_VIDRES" stored s)

  unfoldable pub choose_video_format : CameraOptions × Local W F → CameraOptions × Local W F
  unfolding get_value store
  choose_video_format (o, s) =
      let stored = get_value "CAM_VIDFMT" s.param in
      let (encoder, s') = call u.get_video_encoder_type s in
      let text = text_of_encoder encoder in
      if str_eq stored ""
      then (o, store d "CAM_VIDFMT" text (set_entry "CAM_VIDFMT" text s'))
      else (o, set_entry "CAM_VIDFMT" stored s)

  unfoldable pub choose_jpeg_quality : CameraOptions × Local W F → CameraOptions × Local W F
  unfolding get_value store
  choose_jpeg_quality (o, s) =
      let stored = get_value "CAM_PHOTO_QC" s.param in
      let quality =
        if str_eq stored "0"
        then JpegQuality.super_fine
        else if str_eq stored "1"
        then JpegQuality.fine
        else JpegQuality.normal in
      if str_eq stored ""
      then (
        record o { jpeg_quality = JpegQuality.super_fine },
        store d "CAM_PHOTO_QC" "0" (set_entry "CAM_PHOTO_QC" "0" s),
      )
      else (record o { jpeg_quality = quality }, set_entry "CAM_PHOTO_QC" stored s)

  unfoldable pub choose_photo_format : CameraOptions × Local W F → CameraOptions × Local W F
  unfolding get_value store
  choose_photo_format (o, s) =
      let stored = get_value "CAM_PHOTO_FMT" s.param in
      let format =
        if str_eq stored "0"
        then PhotoFormat.jpeg
        else if str_eq stored "1"
        then PhotoFormat.dng
        else o.photo_format in
      if str_eq stored ""
      then (
        record o { photo_format = PhotoFormat.jpeg },
        store d "CAM_PHOTO_FMT" "0" (set_entry "CAM_PHOTO_FMT" "0" s),
      )
      else (record o { photo_format = format }, set_entry "CAM_PHOTO_FMT" stored s)

  -- The interval is no setting of the client: it is in the store alone.
  unfoldable pub choose_interval : CameraOptions × Local W F → Option (CameraOptions × Local W F)
  unfolding get_value store stoi
  choose_interval (o, s) =
      let stored = get_value "CAM_TAKE_INTERVAL" s.param in
      let text = if str_eq stored "" then "1800" else stored in
      elim (stoi text) [
        | none ↦ none
        | some interval ↦ some (
          record o { photo_min_interval_in_millisecond = interval },
          if str_eq stored "" then store d "CAM_TAKE_INTERVAL" text s else s,
        )
      ]

  -- Everything between the loading and the opening.
  unfoldable pub choose_options : Local W F → Option (CameraOptions × Local W F)
  unfolding choose_mode choose_photo_resolution choose_video_resolution choose_video_format
      choose_jpeg_quality choose_photo_format choose_interval
  choose_options s = choose_interval (
      choose_photo_format (
        choose_jpeg_quality (
          choose_video_format (
            choose_video_resolution (choose_photo_resolution (choose_mode (u.unset_options, s)))))))

  abbrev camera_handle : Bool → Local W F → Local W F
  camera_handle there s = record s { handles = record s.handles { camera = there } }

  -- A camera whose prepare fails stays in `_mav_camera`, and its library is closed again.
  unfoldable pub init_mav_camera : Local W F → Option (Bool × Local W F)
  unfolding choose_options
  init_mav_camera s =
      let created = camera_handle true (record s { has_mav_camera = true }) in
      let (prepared, s') = call u.camera_prepare created in
      if s.has_mav_camera then some (true, s) else elim (u.camera_library s.world) [
        | Load.loaded ↦
            if not (is_mav_success prepared)
            then some (false, camera_handle false s')
            else elim (choose_options s') [
              | none ↦ none
              | some (o, chosen) ↦
                  let (opened, s'') = call (u.camera_open o) chosen in
                  some (is_mav_success opened, s'')
            ]
        | _ ↦ some (false, camera_handle false s)
      ]
