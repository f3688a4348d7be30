-- ===== src/Plugin/Calls.antt =====
-- The calls of the camera plugin beside its settings: src/mav_server/plugins/camera/camera_impl.cpp.
-- The functions that end in _async hand the value of the query of that name to their callback at once;
-- capture_info_async keeps its callback and never calls it.
use mavcam.Prelude.{
  ◌-◌, ◌/◌, Bool, true, false, Option, none, some, String, List, [], ◌∷◌, if◌then◌else◌,
}
use mavcam.Prelude.Int.{ℤ, pos}
use mavcam.Results.{MavResult, CameraResult, is_mav_success, to_camera_result}
use mavcam.Camera.Types.{
  Mode, PhotosRange, CaptureInfo, VideoStreamInfo, VideoStreamStatus, VideoStreamSpectrum, Status,
  StorageStatus, StorageType, Setting, SettingOptions, Information, CameraCapFlag,
}
use mavcam.Plugin.{Plugin, PluginDevice, LensInformation, CardStatus, CardType, CardInformation}
use mavcam.Plugin.Operations.{set_setting}

-- `result == Camera::Result::Success` and `_current_mode == mode`
abbrev pub is_camera_success : CameraResult → Bool
is_camera_success CameraResult.success = true
is_camera_success _ = false

abbrev pub same_mode : Mode → Mode → Bool
same_mode Mode.unknown Mode.unknown = true
same_mode Mode.photo Mode.photo = true
same_mode Mode.video Mode.video = true
same_mode _ _ = false

-- The text of a mode in set_mode.
abbrev pub mode_text : Mode → String
mode_text Mode.photo = "0"
mode_text _ = "1"

-- build_setting
abbrev pub build_setting : String → String → Setting
build_setting id value = record {
  setting_id = id;
  setting_description = "";
  option = record { option_id = value; option_description = "" };
  is_range = false;
}

unfoldable pub start_photo_interval : {W F : Type 0} → F → Plugin W F → CameraResult × Plugin W F
start_photo_interval interval p = (CameraResult.protocol_unsupported, p)

unfoldable pub stop_photo_interval : {W F : Type 0} → Plugin W F → CameraResult × Plugin W F
stop_photo_interval p = (CameraResult.protocol_unsupported, p)

unfoldable pub start_video_streaming : {W F : Type 0} → ℤ → Plugin W F → CameraResult × Plugin W F
start_video_streaming stream p = (CameraResult.success, p)

unfoldable pub stop_video_streaming : {W F : Type 0} → ℤ → Plugin W F → CameraResult × Plugin W F
stop_video_streaming stream p = (CameraResult.success, p)

unfoldable pub select_camera : {W F : Type 0} → ℤ → Plugin W F → CameraResult × Plugin W F
select_camera camera p = (CameraResult.protocol_unsupported, p)

unfoldable pub list_photos :
    {W F D : Type 0} → PhotosRange → Plugin W F → CameraResult × List (CaptureInfo D F)
list_photos range p = (CameraResult.protocol_unsupported, [])

-- possible_setting_options; possible_setting_options_async never calls its callback.
unfoldable pub possible_setting_options : {W F : Type 0} → Plugin W F → List SettingOptions
possible_setting_options p = []

-- The two switches of status().
unfoldable pub status_of_card : CardStatus → StorageStatus
status_of_card CardStatus.formatted = StorageStatus.formatted
status_of_card CardStatus.unformatted = StorageStatus.unformatted
status_of_card CardStatus.not_available = StorageStatus.not_available
status_of_card CardStatus.not_supported = StorageStatus.not_supported

unfoldable pub type_of_card : CardType → StorageType
type_of_card CardType.hd = StorageType.hd
type_of_card CardType.microsd = StorageType.microsd
type_of_card CardType.other = StorageType.other
type_of_card CardType.sd = StorageType.sd
type_of_card CardType.unknown = StorageType.unknown
type_of_card CardType.usb_stick = StorageType.usb_stick

-- The callback of subscribe_storage_information, which prepare() installs.
unfoldable pub storage_information_reported :
    {W F : Type 0} → CardInformation F → Plugin W F → Plugin W F
storage_information_reported card p = record p { card = card }

module _ {W F : Type 0} (d : PluginDevice W F) where
  -- `_mav_camera->f()`, where nothing looks whether there is a camera: `none` is a call through a null
  -- pointer, which ends the process.
  abbrev pub called : (W → MavResult × W) → Plugin W F → Option (CameraResult × Plugin W F)
  called f p =
      let (r, w) = f p.world in
      if p.has_camera then some (to_camera_result r, record p { world = w }) else none

  unfoldable pub take_photo : Plugin W F → Option (CameraResult × Plugin W F)
  unfolding to_camera_result
  take_photo = called d.take_photo

  unfoldable pub start_video : Plugin W F → Option (CameraResult × Plugin W F)
  unfolding to_camera_result
  start_video p = elim (called d.start_video p) [
    | none ↦ none
    | some (result, p') ↦ some (
      result,
      if is_camera_success result
          then record p' {
            status = record p'.status { video_on = true };
            start_video_time = d.steady_now p'.world;
          }
          else p',
    )
  ]

  unfoldable pub stop_video : Plugin W F → Option (CameraResult × Plugin W F)
  unfolding to_camera_result
  stop_video p = elim (called d.stop_video p) [
    | none ↦ none
    | some (result, p') ↦ some (
      result,
      if is_camera_success result
          then record p' { status = record p'.status { video_on = false } }
          else p',
    )
  ]

  -- `none` is what it is in set_setting.
  unfoldable pub set_mode : Mode → Plugin W F → Option (CameraResult × Plugin W F)
  unfolding set_setting
  set_mode mode p =
      if same_mode p.current_mode mode
      then some (CameraResult.success, p)
      else set_setting d (build_setting "CAM_MODE" (mode_text mode)) p

  unfoldable pub format_storage : ℤ → Plugin W F → Option (CameraResult × Plugin W F)
  unfolding to_camera_result
  format_storage id = called (d.format_storage id)

  -- The camera's answer to these two is dropped.
  unfoldable pub set_timestamp : ℤ → Plugin W F → CameraResult × Plugin W F
  set_timestamp t p = (
    CameraResult.success,
    if p.has_camera then record p { world = (d.set_timestamp t p.world).1 } else p,
  )

  unfoldable pub set_zoom_range : F → Plugin W F → CameraResult × Plugin W F
  set_zoom_range range p = (
    CameraResult.success,
    if p.has_camera then record p { world = (d.set_zoom range p.world).1 } else p,
  )

  -- status() fills `_status` and answers it; a duration counts nanoseconds, and is shown in seconds.
  unfoldable pub status : Plugin W F → Status F × Plugin W F
  unfolding status_of_card type_of_card
  status p =
      let filled : Status F = record p.status {
        available_storage_mib = p.card.available_storage_mib;
        total_storage_mib = p.card.total_storage_mib;
        storage_id = p.card.storage_id;
        storage_status = status_of_card p.card.storage_status;
        storage_type = type_of_card p.card.storage_type;
        recording_time_s = d.float_of (
            if p.status.video_on
            then (d.steady_now p.world - p.start_video_time) / 1_000_000_000
            else 0);
      } in
      (filled, record p { status = filled })

  abbrev no_lens : LensInformation F
  no_lens = record {
    focal_length_mm = d.float_of 0;
    horizontal_sensor_size_mm = d.float_of 0;
    vertical_sensor_size_mm = d.float_of 0;
    horizontal_resolution_px = 0;
    vertical_resolution_px = 0;
    lens_id = 0;
  }

  abbrev information_for : Bool → LensInformation F → Information F
  information_for known lens = record {
    vendor_name = if known then "Aeroratech" else "Unknown";
    model_name = if known then "D64TR" else "Unknown";
    firmware_version = if known then "0.6.0" else "0.0.0";
    focal_length_mm = lens.focal_length_mm;
    horizontal_sensor_size_mm = lens.horizontal_sensor_size_mm;
    vertical_sensor_size_mm = lens.vertical_sensor_size_mm;
    horizontal_resolution_px = lens.horizontal_resolution_px;
    vertical_resolution_px = lens.vertical_resolution_px;
    lens_id = lens.lens_id;
    definition_file_version = if known then 10 else 0;
    definition_file_uri = if known then "mftp://definition/D64TR.xml" else "";
    camera_cap_flags =
        CameraCapFlag.capture_image ∷ CameraCapFlag.capture_video ∷ CameraCapFlag.has_modes
        ∷ CameraCapFlag.has_video_stream ∷ CameraCapFlag.has_basic_zoom ∷ [];
  }

  unfoldable pub information : Plugin W F → Information F × Plugin W F
  information p =
      let ((result, lens), w) = d.get_information p.world in
      if p.has_camera
      then (
        (if is_mav_success result
            then information_for true lens
            else information_for false no_lens),
        record p { world = w },
      )
      else (information_for false no_lens, p)

  unfoldable pub video_stream_info : Plugin W F → List (VideoStreamInfo F) × Plugin W F
  video_stream_info p =
      let ((_, width, height), w) = d.get_preview_resolution p.world in
      let stream : VideoStreamInfo F = record {
        stream_id = pos 1;
        settings = record {
          frame_rate_hz = d.float_of p.framerate;
          horizontal_resolution_pix = width;
          vertical_resolution_pix = height;
          bit_rate_b_s = 0;
          rotation_deg = 0;
          uri = "rtsp://192.168.251.1/live";
          horizontal_fov_deg = d.float_of 0;
        };
        status = VideoStreamStatus.in_progress;
        spectrum = VideoStreamSpectrum.visible_light;
      } in
      if p.has_camera then (stream ∷ [], record p { world = w }) else ([], p)
