-- ===== src/Plugin.antt =====
-- The settings of the camera plugin: src/mav_server/plugins/camera/camera_impl.cpp. The camera
-- drivers are parameters; `none` is an exception of std::stoi or std::stof, or a call through a null
-- `_mav_camera`, which ends the process.
use mavcam.Prelude.{
  ◌≡◌, ℕ, ◌==◌, Bool, true, false, not, ◌&&◌, ◌||◌, Option, none, some, String, List, [], ◌∷◌, map,
  str_eq, if◌then◌else◌,
}
use mavcam.Prelude.Int.{ℤ, pos, eqb, is_nonneg, is_le}
use mavcam.Prelude.Text.{stoi}
use mavcam.Results.{MavResult, CameraResult, is_mav_success}
use mavcam.Camera.Types.{Mode, Status, Setting, SettingOption}
pub mod Operations
pub mod Calls
pub mod Prepare
pub mod ReadBack
pub mod Stored
pub mod Tests

pub data CaptureMode : Type 0 where
  photo video : CaptureMode

pub data PreviewOutput : Type 0 where
  rgb infrared side_by_side pip : PreviewOutput

-- mav_camera::Information, and mav_camera::StorageInformation with its two enumerations.
pub record LensInformation (F : Type 0) : Type 0 where
  pub focal_length_mm : F
  pub horizontal_sensor_size_mm : F
  pub vertical_sensor_size_mm : F
  pub horizontal_resolution_px : ℕ
  pub vertical_resolution_px : ℕ
  pub lens_id : ℕ

pub data CardStatus : Type 0 where
  not_available unformatted formatted not_supported : CardStatus

pub data CardType : Type 0 where
  unknown usb_stick sd microsd hd other : CardType

pub record CardInformation (F : Type 0) : Type 0 where
  pub available_storage_mib : F
  pub total_storage_mib : F
  pub storage_id : ℕ
  pub storage_status : CardStatus
  pub storage_type : CardType

-- The two drivers, the clock, the conversion of a number to float, std::stof, and what an unset mav_camera::Result holds.
pub record PluginDevice (W F : Type 0) : Type 0 where
  pub set_mode : CaptureMode → W → MavResult × W
  pub set_preview_stream_output_type : PreviewOutput → W → MavResult × W
  pub set_snapshot_resolution : ℕ × ℕ → W → MavResult × W
  pub set_white_balance : ℤ → W → MavResult × W
  pub get_white_balance : W → (MavResult × ℤ) × W
  pub set_exposure_value : F → W → MavResult × W
  pub set_iso : ℤ → W → MavResult × W
  pub set_shutter_speed : String → W → MavResult × W
  pub set_video_resolution : ℕ → ℕ → W → MavResult × W
  pub get_video_resolution : W → (MavResult × ℕ × ℕ) × W
  pub set_framerate : ℕ → W → MavResult × W
  pub get_framerate : W → (MavResult × ℕ) × W
  pub set_metering_mode : ℤ → W → MavResult × W
  pub reset_settings : W → MavResult × W
  pub set_color_mode : ℤ → W → Bool × W
  pub run_ffc : W → W
  pub take_photo : W → MavResult × W
  pub start_video : W → MavResult × W
  pub stop_video : W → MavResult × W
  pub format_storage : ℤ → W → MavResult × W
  pub set_timestamp : ℤ → W → MavResult × W
  pub set_zoom : F → W → MavResult × W
  pub get_information : W → (MavResult × LensInformation F) × W
  pub get_preview_resolution : W → (MavResult × ℕ × ℕ) × W
  pub steady_now : W → ℕ
  pub float_of : ℕ → F
  pub auto_whitebalance : ℤ
  pub unset_result : W → MavResult
  pub stof : String → Option F

-- The fields of CameraImpl that these functions use, with the sizes of a photo that the start-up has
-- put into kSnapshotWidth and its companions.
pub record Plugin (W F : Type 0) : Type 0 where
  pub has_camera : Bool
  pub has_ir_camera : Bool
  pub current_mode : Mode
  pub settings : List Setting
  pub status : Status F
  pub start_video_time : ℕ
  pub card : CardInformation F
  pub framerate : ℕ
  pub snapshot : ℕ × ℕ
  pub half_snapshot : ℕ × ℕ
  pub world : W

-- One round of the loops over `_settings` that assign an option.
abbrev pub with_option : String → SettingOption → Setting → Setting
with_option id option s = if str_eq s.setting_id id then record s { option = option } else s

-- The default of a setting in reset_settings: `none` where the ladder has no branch.
unfoldable pub reset_value : String → Option String
reset_value id =
    if str_eq id "CAM_DIS_MODE"
    then some "3"
    else if str_eq id "CAM_ISO"
    then some "125"
    else if str_eq id "CAM_SHUTTERSPD"
    then some "0.01"
    else if str_eq id "CAM_VIDFMT"
    then some "1"
    else if str_eq id "CAM_WBMODE"
        || str_eq id "CAM_EXPMODE"
        || str_eq id "CAM_EV"
        || str_eq id "CAM_METER"
        || str_eq id "CAM_MODE"
    then some "0"
    else none

abbrev pub reset_setting : Setting → Setting
reset_setting s = elim (reset_value s.setting_id) [
  | none ↦ s
  | some value ↦ record s {
    option = record { option_id = value; option_description = s.option.option_description };
  }
]

unfoldable pub find_option : String → List Setting → Option SettingOption
find_option id [] = none
find_option id (s ∷ rest) = if str_eq s.setting_id id then some s.option else find_option id rest

module _ {W F : Type 0} (d : PluginDevice W F) where
  -- `_mav_camera->f() == Success`, where nothing looks whether there is a camera.
  abbrev pub succeeds : (W → MavResult × W) → Plugin W F → Option (Bool × Plugin W F)
  succeeds f p =
      let (r, w) = f p.world in
      if p.has_camera then some (is_mav_success r, record p { world = w }) else none

  abbrev pub parsed {ℓ} :
      {A : Type ℓ} → Option A → (A → Option (Bool × Plugin W F)) → Option (Bool × Plugin W F)
  parsed v f = elim v [ none ↦ none | some n ↦ f n ]

  -- The branch for the camera mode, which keeps `_current_mode`.
  unfoldable pub set_camera_mode : String → Plugin W F → Option (Bool × Plugin W F)
  set_camera_mode mode p =
      let photo = str_eq mode "0" in
      elim (succeeds (d.set_mode (if photo then CaptureMode.photo else CaptureMode.video)) p) [
        | none ↦ none
        | some (ok, p') ↦ some (
          ok,
          if ok then record p' { current_mode = if photo then Mode.photo else Mode.video } else p',
        )
      ]

  unfoldable pub set_camera_display_mode : String → Plugin W F → Option (Bool × Plugin W F)
  set_camera_display_mode mode p =
      if str_eq mode "0"
      then succeeds (d.set_preview_stream_output_type PreviewOutput.rgb) p
      else if str_eq mode "1"
      then succeeds (d.set_preview_stream_output_type PreviewOutput.infrared) p
      else if str_eq mode "2"
      then succeeds (d.set_preview_stream_output_type PreviewOutput.side_by_side) p
      else if str_eq mode "3"
      then succeeds (d.set_preview_stream_output_type PreviewOutput.pip) p
      else some (is_mav_success (d.unset_result p.world), p)

  unfoldable pub set_photo_resolution : String → Plugin W F → Option (Bool × Plugin W F)
  set_photo_resolution value p =
      if str_eq value "0"
      then succeeds (d.set_snapshot_resolution p.snapshot) p
      else if str_eq value "1"
      then succeeds (d.set_snapshot_resolution p.half_snapshot) p
      else some (false, p)

  unfoldable pub set_whitebalance_mode : String → Plugin W F → Option (Bool × Plugin W F)
  set_whitebalance_mode mode p =
      if str_eq mode "0"
      then succeeds (d.set_white_balance d.auto_whitebalance) p
      else if str_eq mode "1"
      then succeeds (d.set_white_balance (pos 5500)) p
      else if str_eq mode "2"
      then succeeds (d.set_white_balance (pos 6500)) p
      else if str_eq mode "3"
      then succeeds (d.set_white_balance (pos 7500)) p
      else if str_eq mode "4"
      then succeeds (d.set_white_balance (pos 2700)) p
      else if str_eq mode "5"
      then succeeds (d.set_white_balance (pos 4000)) p
      else some (is_mav_success (d.unset_result p.world), p)

  -- The ladder of get_whitebalance_mode.
  unfoldable pub whitebalance_text : ℤ → String
  whitebalance_text value =
      if eqb value d.auto_whitebalance
      then "0"
      else if eqb value (pos 5500)
      then "1"
      else if eqb value (pos 6500)
      then "2"
      else if eqb value (pos 7500)
      then "3"
      else if eqb value (pos 2700)
      then "4"
      else if eqb value (pos 4000)
      then "5"
      else "0"

  unfoldable pub get_whitebalance_mode : W → String
  unfolding whitebalance_text
  get_whitebalance_mode w =
      let (result, value) = (d.get_white_balance w).0 in
      if is_mav_success result then whitebalance_text value else "0"

  -- Width, height and frame rate of a value; zeros for an unknown one.
  unfoldable pub video_size : String → ℕ × ℕ × ℕ
  video_size value =
      if str_eq value "0"
      then (3840, 2160, 60)
      else if str_eq value "1"
      then (3840, 2160, 30)
      else if str_eq value "2"
      then (1920, 1080, 60)
      else if str_eq value "3"
      then (1920, 1080, 30)
      else (0, 0, 0)

  -- The answer is that of the second call alone.
  unfoldable pub set_video_resolution : String → Plugin W F → Option (Bool × Plugin W F)
  unfolding video_size
  set_video_resolution value p =
      let (width, height, framerate) = video_size value in
      elim (succeeds (d.set_video_resolution width height) p) [
        | none ↦ none
        | some (_, sized) ↦ succeeds (d.set_framerate framerate) sized
      ]

  unfoldable pub video_text : ℕ → ℕ → ℕ → String
  video_text width height framerate =
      if width == 3840 && height == 2160 && framerate == 60
      then "0"
      else if width == 3840 && height == 2160 && framerate == 30
      then "1"
      else if width == 1920 && height == 1080 && framerate == 60
      then "2"
      else if width == 1920 && height == 1080 && framerate == 30
      then "3"
      else "0"

  unfoldable pub get_video_resolution : W → String
  unfolding video_text
  get_video_resolution w =
      let ((result, width, height), w') = d.get_video_resolution w in
      let (result', framerate) = (d.get_framerate w').0 in
      if not (is_mav_success result)
      then "0"
      else if not (is_mav_success result')
      then "0"
      else video_text width height framerate

  unfoldable pub set_metering_mode : String → Plugin W F → Option (Bool × Plugin W F)
  set_metering_mode value p = parsed (stoi value) λ n.
      if not (is_nonneg n) || not (is_le n 4)
      then some (false, p)
      else succeeds (d.set_metering_mode n) p
