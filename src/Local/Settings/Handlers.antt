-- ===== src/Local/Settings/Handlers.antt =====
-- The handlers of one setting each, which CameraLocalClient::set_setting calls
-- (src/mav_client/camera_local_client.cpp). `none` is an exception that leaves set_setting: the text
-- is not a number, or the start of the tracking server ends the process.
use mavcam.Prelude.{
  Bool, true, false, not, ◌&&◌, ◌||◌, Option, none, some, String, str_eq, if◌then◌else◌,
}
use mavcam.Prelude.Int.{ℤ, pos, eqb, is_nonneg, is_le}
use mavcam.Prelude.Text.{stoi}
use mavcam.Results.{MavResult, is_mav_success}
use mavcam.Local.Device.{
  Device, CaptureMode, PhotoResolutionMode, VideoResolutionMode, EncoderType, JpegQuality,
  PhotoFormat, AeMode,
}
use mavcam.Local.State.{Local, SensorMode, call, set_entry}
use mavcam.Local.Settings.Keys.{Key}
use mavcam.Local.Settings.Ai.{set_ai_function}

module _ {W F : Type 0} (d : Device W F) where
  -- A call of the camera whose result is compared with Success.
  abbrev pub succeeds : (W → MavResult × W) → Local W F → Bool × Local W F
  succeeds f s = let (r, s') = call f s in (is_mav_success r, s')

  -- A handler that needs a number first.
  abbrev pub parsed {ℓ} :
      {A : Type ℓ} → Option A → (A → Bool × Local W F) → Option (Bool × Local W F)
  parsed v f = elim v [ none ↦ none | some n ↦ some (f n) ]

  unfoldable pub set_camera_mode : String → Local W F → Bool × Local W F
  set_camera_mode mode s =
      succeeds (d.rgb.set_mode (if str_eq mode "0" then CaptureMode.photo else CaptureMode.video)) s

  unfoldable pub set_camera_sensor_mode : String → Local W F → Bool × Local W F
  set_camera_sensor_mode mode s =
      let sensor =
        if str_eq mode "0"
        then SensorMode.normal
        else if str_eq mode "1"
        then SensorMode.ir
        else if str_eq mode "2"
        then SensorMode.dual
        else s.sensor_mode in
      (true, record s { sensor_mode = sensor })

  -- The number becomes the preview type unchecked.
  unfoldable pub set_camera_display_mode : String → Local W F → Option (Bool × Local W F)
  set_camera_display_mode mode s = parsed (stoi mode) λ n. (true, record s { preview_type = n })

  unfoldable pub set_photo_resolution : String → Local W F → Bool × Local W F
  set_photo_resolution value s =
      let mode =
        if str_eq value "0"
        then PhotoResolutionMode.full
        else if str_eq value "1"
        then PhotoResolutionMode.quarter
        else d.rgb.unset_photo_resolution s.world in
      succeeds (d.rgb.set_photo_resolution_mode mode) s

  unfoldable pub set_video_resolution : String → Local W F → Bool × Local W F
  set_video_resolution value s =
      let mode =
        if str_eq value "0"
        then VideoResolutionMode.uhd60
        else if str_eq value "1"
        then VideoResolutionMode.uhd30
        else if str_eq value "2"
        then VideoResolutionMode.fhd60
        else if str_eq value "3"
        then VideoResolutionMode.fhd30
        else d.rgb.unset_video_resolution s.world in
      succeeds (d.rgb.set_video_resolution_mode mode) s

  -- The thermal camera is told only after the colour camera has agreed.
  unfoldable pub set_video_format : String → Local W F → Bool × Local W F
  set_video_format value s =
      let type =
        if str_eq value "1" || str_eq value "2" then EncoderType.h265 else EncoderType.h264 in
      let (ok, s') =
        if s.has_mav_camera then succeeds (d.rgb.set_video_encoder_type type) s else (true, s) in
      if s.has_ir_camera && ok then call (d.ir.set_video_encoder_type type) s' else (ok, s')

  unfoldable pub set_photo_quality : String → Local W F → Bool × Local W F
  set_photo_quality value s =
      let quality =
        if str_eq value "0"
        then JpegQuality.super_fine
        else if str_eq value "1"
        then JpegQuality.fine
        else if str_eq value "2"
        then JpegQuality.normal
        else d.rgb.unset_jpeg_quality s.world in
      succeeds (d.rgb.set_jpeg_quality quality) s

  -- Raw photos force the full resolution in the settings.
  unfoldable pub set_photo_format : String → Local W F → Bool × Local W F
  set_photo_format value s =
      if str_eq value "0"
      then succeeds (d.rgb.set_photo_format PhotoFormat.jpeg) s
      else if str_eq value "1"
      then succeeds (d.rgb.set_photo_format PhotoFormat.dng) (set_entry "CAM_PHOTO_RES" "0" s)
      else succeeds (d.rgb.set_photo_format (d.rgb.unset_photo_format s.world)) s

  -- An unknown mode calls nothing and reads a result that was never set.
  unfoldable pub set_whitebalance_mode : String → Local W F → Bool × Local W F
  set_whitebalance_mode mode s =
      if str_eq mode "0"
      then succeeds (d.rgb.set_white_balance d.rgb.auto_whitebalance) s
      else if str_eq mode "1"
      then succeeds (d.rgb.set_white_balance (pos 5500)) s
      else if str_eq mode "2"
      then succeeds (d.rgb.set_white_balance (pos 6500)) s
      else if str_eq mode "3"
      then succeeds (d.rgb.set_white_balance (pos 7500)) s
      else if str_eq mode "4"
      then succeeds (d.rgb.set_white_balance (pos 2700)) s
      else if str_eq mode "5"
      then succeeds (d.rgb.set_white_balance (pos 4000)) s
      else (is_mav_success (d.rgb.unset_result s.world), s)

  unfoldable pub set_exposure_mode : String → Local W F → Bool × Local W F
  set_exposure_mode mode s =
      succeeds (d.rgb.set_ae_mode (if str_eq mode "0" then AeMode.auto else AeMode.manual)) s

  unfoldable pub set_exposure_value : String → Local W F → Option (Bool × Local W F)
  set_exposure_value value s =
      parsed (d.host.stof value) λ v. succeeds (d.rgb.set_exposure_value v) s

  unfoldable pub set_iso : String → Local W F → Option (Bool × Local W F)
  set_iso iso s = parsed (stoi iso) λ n. succeeds (d.rgb.set_iso n) s

  unfoldable pub set_shutter_speed : String → Local W F → Bool × Local W F
  set_shutter_speed speed s = succeeds (d.rgb.set_shutter_speed speed) s

  unfoldable pub set_metering_mode : String → Local W F → Option (Bool × Local W F)
  set_metering_mode value s = parsed (stoi value) λ n.
      if not (is_nonneg n) || not (is_le n 4)
      then (false, s)
      else succeeds (d.rgb.set_metering_mode n) s

  -- sharpness_values[sharpness]
  unfoldable pub sharpness_value : ℤ → ℤ
  sharpness_value n = if eqb n (pos 0) then pos 2 else if eqb n (pos 1) then pos 4 else pos 6

  unfoldable pub set_sharpness : String → Local W F → Option (Bool × Local W F)
  unfolding sharpness_value
  set_sharpness value s = parsed (stoi value) λ n.
      if not (is_nonneg n) || not (is_le n 2)
      then (false, s)
      else succeeds (d.rgb.set_sharpness (sharpness_value n)) s

  unfoldable pub set_ae_lock : String → Local W F → Option (Bool × Local W F)
  set_ae_lock value s =
      parsed (stoi value) λ n. succeeds (d.rgb.set_ae_lock (not (eqb n (pos 0)))) s

  -- The thermal camera, where there is one.
  abbrev pub with_ir : (W → Bool × W) → Local W F → Bool × Local W F
  with_ir f s = if s.has_ir_camera then call f s else (false, s)

  unfoldable pub set_ir_palette : String → Local W F → Option (Bool × Local W F)
  set_ir_palette mode s = parsed (stoi mode) λ n. with_ir (d.ir.set_color_mode n) s

  unfoldable pub set_ir_ffc_mode : String → Local W F → Option (Bool × Local W F)
  set_ir_ffc_mode mode s = parsed (stoi mode) λ n. with_ir (d.ir.set_ffc_mode n) s

  unfoldable pub set_ir_ffc : String → Local W F → Bool × Local W F
  set_ir_ffc _ s = with_ir (λ w. (true, d.ir.run_ffc w)) s

  -- The handler that the ladder of set_setting picks.
  unfoldable pub handle : Key → String → Local W F → Option (Bool × Local W F)
  unfolding set_camera_mode set_camera_sensor_mode set_camera_display_mode set_photo_resolution
      set_video_resolution set_video_format set_photo_quality set_photo_format set_whitebalance_mode
      set_exposure_mode set_exposure_value set_iso set_shutter_speed set_metering_mode set_sharpness
      set_ae_lock set_ir_palette set_ir_ffc_mode set_ir_ffc set_ai_function
  handle Key.mode v s = some (set_camera_mode v s)
  handle Key.sensor_mode v s = some (set_camera_sensor_mode v s)
  handle Key.display_mode v s = set_camera_display_mode v s
  handle Key.photo_resolution v s = some (set_photo_resolution v s)
  handle Key.video_resolution v s = some (set_video_resolution v s)
  handle Key.video_format v s = some (set_video_format v s)
  handle Key.photo_quality v s = some (set_photo_quality v s)
  handle Key.photo_format v s = some (set_photo_format v s)
  handle Key.white_balance v s = some (set_whitebalance_mode v s)
  handle Key.exposure_mode v s = some (set_exposure_mode v s)
  handle Key.exposure_value v s = set_exposure_value v s
  handle Key.iso v s = set_iso v s
  handle Key.shutter_speed v s = some (set_shutter_speed v s)
  handle Key.metering v s = set_metering_mode v s
  handle Key.sharpness v s = set_sharpness v s
  handle Key.ae_lock v s = set_ae_lock v s
  handle Key.ir_palette v s = set_ir_palette v s
  handle Key.ir_ffc_mode v s = set_ir_ffc_mode v s
  handle Key.ir_ffc v s = some (set_ir_ffc v s)
  handle Key.ai_function v s = set_ai_function d v s
