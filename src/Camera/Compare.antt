-- ===== src/Camera/Compare.antt =====
-- The comparisons of src/mav_server/plugins/camera/camera.cpp: operator== of the camera's types. A
-- comparison is the conjunction of those of its fields, in the source's order; a float or a double that
-- is not a number equals any other such value there. The floats' own == and isnan are parameters.
use mavcam.Prelude.{ℕ, Bool, List, [], ◌∷◌}
use mavcam.Camera.Field.{FloatOps, Field, same, same_list, same_enum, by, all_of}
use mavcam.Camera.Types.{
  VideoStreamStatus, VideoStreamSpectrum, StorageStatus, StorageType, CameraCapFlag, Position,
  Quaternion, EulerAngle, CaptureInfo, VideoStreamSettings, VideoStreamInfo, Status, SettingOption,
  Setting, SettingOptions, Information,
}

abbrev pub stream_status_number : VideoStreamStatus → ℕ
stream_status_number VideoStreamStatus.not_running = 0
stream_status_number VideoStreamStatus.in_progress = 1

abbrev pub spectrum_number : VideoStreamSpectrum → ℕ
spectrum_number VideoStreamSpectrum.unknown = 0
spectrum_number VideoStreamSpectrum.visible_light = 1
spectrum_number VideoStreamSpectrum.infrared = 2

abbrev pub storage_status_number : StorageStatus → ℕ
storage_status_number StorageStatus.not_available = 0
storage_status_number StorageStatus.unformatted = 1
storage_status_number StorageStatus.formatted = 2
storage_status_number StorageStatus.not_supported = 3

abbrev pub storage_type_number : StorageType → ℕ
storage_type_number StorageType.unknown = 0
storage_type_number StorageType.usb_stick = 1
storage_type_number StorageType.sd = 2
storage_type_number StorageType.microsd = 3
storage_type_number StorageType.hd = 4
storage_type_number StorageType.other = 5

abbrev pub cap_flag_number : CameraCapFlag → ℕ
cap_flag_number CameraCapFlag.capture_video = 0
cap_flag_number CameraCapFlag.capture_image = 1
cap_flag_number CameraCapFlag.has_modes = 2
cap_flag_number CameraCapFlag.can_capture_image_in_video_mode = 3
cap_flag_number CameraCapFlag.can_capture_video_in_image_mode = 4
cap_flag_number CameraCapFlag.has_image_survey_mode = 5
cap_flag_number CameraCapFlag.has_basic_zoom = 6
cap_flag_number CameraCapFlag.has_basic_focus = 7
cap_flag_number CameraCapFlag.has_video_stream = 8
cap_flag_number CameraCapFlag.has_tracking_point = 9
cap_flag_number CameraCapFlag.has_tracking_rectangle = 10
cap_flag_number CameraCapFlag.has_tracking_geo_status = 11

module _ {F : Type 0} (float : FloatOps F) where
  abbrev pub option_fields : List (Field F SettingOption)
  option_fields = Field.text (λ r. r.option_id) ∷ Field.text (λ r. r.option_description) ∷ []

  unfoldable pub equal_option : SettingOption → SettingOption → Bool
  equal_option = all_of float option_fields

  abbrev pub setting_fields : List (Field F Setting)
  setting_fields =
      Field.text (λ r. r.setting_id)
      ∷ Field.text (λ r. r.setting_description)
      ∷ Field.part (by (λ r. r.option) equal_option)
      ∷ Field.flag (λ r. r.is_range)
      ∷ []

  unfoldable pub equal_setting : Setting → Setting → Bool
  unfolding equal_option
  equal_setting = all_of float setting_fields

  abbrev pub setting_options_fields : List (Field F SettingOptions)
  setting_options_fields =
      Field.text (λ r. r.setting_id)
      ∷ Field.text (λ r. r.setting_description)
      ∷ Field.part (by (λ r. r.options) (same_list equal_option))
      ∷ Field.flag (λ r. r.is_range)
      ∷ []

  unfoldable pub equal_setting_options : SettingOptions → SettingOptions → Bool
  unfolding equal_option
  equal_setting_options = all_of float setting_options_fields

  abbrev pub quaternion_fields : List (Field F (Quaternion F))
  quaternion_fields =
      Field.float (λ r. r.w)
      ∷ Field.float (λ r. r.x)
      ∷ Field.float (λ r. r.y)
      ∷ Field.float (λ r. r.z)
      ∷ []

  unfoldable pub equal_quaternion : Quaternion F → Quaternion F → Bool
  equal_quaternion = all_of float quaternion_fields

  abbrev pub euler_angle_fields : List (Field F (EulerAngle F))
  euler_angle_fields =
      Field.float (λ r. r.roll_deg)
      ∷ Field.float (λ r. r.pitch_deg)
      ∷ Field.float (λ r. r.yaw_deg)
      ∷ []

  unfoldable pub equal_euler_angle : EulerAngle F → EulerAngle F → Bool
  equal_euler_angle = all_of float euler_angle_fields

  abbrev pub video_stream_settings_fields : List (Field F (VideoStreamSettings F))
  video_stream_settings_fields =
      Field.float (λ r. r.frame_rate_hz)
      ∷ Field.number (λ r. r.horizontal_resolution_pix)
      ∷ Field.number (λ r. r.vertical_resolution_pix)
      ∷ Field.number (λ r. r.bit_rate_b_s)
      ∷ Field.number (λ r. r.rotation_deg)
      ∷ Field.text (λ r. r.uri)
      ∷ Field.float (λ r. r.horizontal_fov_deg)
      ∷ []

  unfoldable pub equal_video_stream_settings : VideoStreamSettings F → VideoStreamSettings F → Bool
  equal_video_stream_settings = all_of float video_stream_settings_fields

  abbrev pub video_stream_info_fields : List (Field F (VideoStreamInfo F))
  video_stream_info_fields =
      Field.integer (λ r. r.stream_id)
      ∷ Field.part (by (λ r. r.settings) equal_video_stream_settings)
      ∷ Field.number (λ r. stream_status_number r.status)
      ∷ Field.number (λ r. spectrum_number r.spectrum)
      ∷ []

  unfoldable pub equal_video_stream_info : VideoStreamInfo F → VideoStreamInfo F → Bool
  unfolding equal_video_stream_settings
  equal_video_stream_info = all_of float video_stream_info_fields

  abbrev pub status_fields : List (Field F (Status F))
  status_fields =
      Field.flag (λ r. r.video_on)
      ∷ Field.flag (λ r. r.photo_interval_on)
      ∷ Field.float (λ r. r.used_storage_mib)
      ∷ Field.float (λ r. r.available_storage_mib)
      ∷ Field.float (λ r. r.total_storage_mib)
      ∷ Field.float (λ r. r.recording_time_s)
      ∷ Field.text (λ r. r.media_folder_name)
      ∷ Field.number (λ r. storage_status_number r.storage_status)
      ∷ Field.number (λ r. r.storage_id)
      ∷ Field.number (λ r. storage_type_number r.storage_type)
      ∷ []

  unfoldable pub equal_status : Status F → Status F → Bool
  equal_status = all_of float status_fields

  abbrev pub information_fields : List (Field F (Information F))
  information_fields =
      Field.text (λ r. r.vendor_name)
      ∷ Field.text (λ r. r.model_name)
      ∷ Field.text (λ r. r.firmware_version)
      ∷ Field.float (λ r. r.focal_length_mm)
      ∷ Field.float (λ r. r.horizontal_sensor_size_mm)
      ∷ Field.float (λ r. r.vertical_sensor_size_mm)
      ∷ Field.number (λ r. r.horizontal_resolution_px)
      ∷ Field.number (λ r. r.vertical_resolution_px)
      ∷ Field.number (λ r. r.lens_id)
      ∷ Field.number (λ r. r.definition_file_version)
      ∷ Field.text (λ r. r.definition_file_uri)
      ∷ Field.part (by (λ r. r.camera_cap_flags) (same_list (same_enum cap_flag_number)))
      ∷ []

  unfoldable pub equal_information : Information F → Information F → Bool
  equal_information = all_of float information_fields

module _ {D F : Type 0} (double : FloatOps D) (float : FloatOps F) where
  abbrev pub position_fields : List (Field F (Position D F))
  position_fields =
      Field.part (by (λ r. r.latitude_deg) (same double))
      ∷ Field.part (by (λ r. r.longitude_deg) (same double))
      ∷ Field.float (λ r. r.absolute_altitude_m)
      ∷ Field.float (λ r. r.relative_altitude_m)
      ∷ []

  unfoldable pub equal_position : Position D F → Position D F → Bool
  equal_position = all_of float position_fields

  abbrev pub capture_info_fields : List (Field F (CaptureInfo D F))
  capture_info_fields =
      Field.part (by (λ r. r.position) equal_position)
      ∷ Field.part (by (λ r. r.attitude_quaternion) (equal_quaternion float))
      ∷ Field.part (by (λ r. r.attitude_euler_angle) (equal_euler_angle float))
      ∷ Field.number (λ r. r.time_utc_us)
      ∷ Field.flag (λ r. r.is_success)
      ∷ Field.integer (λ r. r.index)
      ∷ Field.text (λ r. r.file_url)
      ∷ []

  unfoldable pub equal_capture_info : CaptureInfo D F → CaptureInfo D F → Bool
  unfolding equal_quaternion equal_euler_angle equal_position
  equal_capture_info = all_of float capture_info_fields
