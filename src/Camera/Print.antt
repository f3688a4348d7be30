-- ===== src/Camera/Print.antt =====
-- What operator<< of src/mav_server/plugins/camera/camera.cpp writes for the camera's types. The text of
-- a float or a double, at fifteen digits, is a parameter.
mod Texts
use mavcam.Prelude.{ℕ, Bool, true, false, String, List, [], ◌∷◌, map}
use mavcam.Prelude.Int.{ℤ}
use mavcam.Prelude.Text.{append_text, decimal, to_string}
use mavcam.Camera.Types.{
  Mode, PhotosRange, VideoStreamStatus, VideoStreamSpectrum, StorageStatus, StorageType,
  CameraCapFlag, Position, Quaternion, EulerAngle, CaptureInfo, VideoStreamSettings,
  VideoStreamInfo, Status, SettingOption, Setting, SettingOptions, Information,
}

unfoldable pub mode_text : Mode → String
mode_text Mode.unknown = "Unknown"
mode_text Mode.photo = "Photo"
mode_text Mode.video = "Video"

unfoldable pub photos_range_text : PhotosRange → String
photos_range_text PhotosRange.all = "All"
photos_range_text PhotosRange.since_connection = "Since Connection"

unfoldable pub stream_status_text : VideoStreamStatus → String
stream_status_text VideoStreamStatus.not_running = "Not Running"
stream_status_text VideoStreamStatus.in_progress = "In Progress"

unfoldable pub spectrum_text : VideoStreamSpectrum → String
spectrum_text VideoStreamSpectrum.unknown = "Unknown"
spectrum_text VideoStreamSpectrum.visible_light = "Visible Light"
spectrum_text VideoStreamSpectrum.infrared = "Infrared"

unfoldable pub storage_status_text : StorageStatus → String
storage_status_text StorageStatus.not_available = "Not Available"
storage_status_text StorageStatus.unformatted = "Unformatted"
storage_status_text StorageStatus.formatted = "Formatted"
storage_status_text StorageStatus.not_supported = "Not Supported"

unfoldable pub storage_type_text : StorageType → String
storage_type_text StorageType.unknown = "Unknown"
storage_type_text StorageType.usb_stick = "Usb Stick"
storage_type_text StorageType.sd = "Sd"
storage_type_text StorageType.microsd = "Microsd"
storage_type_text StorageType.hd = "Hd"
storage_type_text StorageType.other = "Other"

unfoldable pub cap_flag_text : CameraCapFlag → String
cap_flag_text CameraCapFlag.capture_video = "Capture Video"
cap_flag_text CameraCapFlag.capture_image = "Capture Image"
cap_flag_text CameraCapFlag.has_modes = "Has Modes"
cap_flag_text CameraCapFlag.can_capture_image_in_video_mode = "Can Capture Image In Video Mode"
cap_flag_text CameraCapFlag.can_capture_video_in_image_mode = "Can Capture Video In Image Mode"
cap_flag_text CameraCapFlag.has_image_survey_mode = "Has Image Survey Mode"
cap_flag_text CameraCapFlag.has_basic_zoom = "Has Basic Zoom"
cap_flag_text CameraCapFlag.has_basic_focus = "Has Basic Focus"
cap_flag_text CameraCapFlag.has_video_stream = "Has Video Stream"
cap_flag_text CameraCapFlag.has_tracking_point = "Has Tracking Point"
cap_flag_text CameraCapFlag.has_tracking_rectangle = "Has Tracking Rectangle"
cap_flag_text CameraCapFlag.has_tracking_geo_status = "Has Tracking Geo Status"

-- `str << a << b`
abbrev pub joined : List String → String
joined [] = ""
joined (text ∷ texts) = append_text text (joined texts)

-- A Boolean is written as a number.
abbrev pub bool_text : Bool → String
bool_text true = "1"
bool_text false = "0"

-- `"    name: " << value << '\n'`
abbrev pub line : String → String → String
line name value = joined ("    " ∷ name ∷ ": " ∷ value ∷ "\n" ∷ [])

abbrev pub block : String → List String → String
block name lines = joined (name ∷ ":\n{\n" ∷ joined lines ∷ "}" ∷ [])

-- The items of a list: each is followed by a comma, the last one by the closing bracket.
unfoldable pub listed : List String → String
listed [] = ""
listed (item ∷ []) = append_text item "]\n"
listed (item ∷ next ∷ rest) = append_text item (append_text ", " (listed (next ∷ rest)))

abbrev pub list_line : String → List String → String
list_line name items = joined ("    " ∷ name ∷ ": [" ∷ listed items ∷ [])

unfoldable pub print_option : SettingOption → String
print_option r =
    block "option"
      (line "option_id" r.option_id ∷ line "option_description" r.option_description ∷ [])

unfoldable pub print_setting : Setting → String
unfolding print_option
print_setting r = block "setting" (
    line "setting_id" r.setting_id
    ∷ line "setting_description" r.setting_description
    ∷ line "option" (print_option r.option)
    ∷ line "is_range" (bool_text r.is_range)
    ∷ [])

unfoldable pub print_setting_options : SettingOptions → String
unfolding print_option listed
print_setting_options r = block "setting_options" (
    line "setting_id" r.setting_id
    ∷ line "setting_description" r.setting_description
    ∷ list_line "options" (map print_option r.options)
    ∷ line "is_range" (bool_text r.is_range)
    ∷ [])

module _ {F : Type 0} (float : F → String) where
  unfoldable pub print_quaternion : Quaternion F → String
  print_quaternion r = block "quaternion" (
      line "w" (float r.w)
      ∷ line "x" (float r.x)
      ∷ line "y" (float r.y)
      ∷ line "z" (float r.z)
      ∷ [])

  unfoldable pub print_euler_angle : EulerAngle F → String
  print_euler_angle r = block "euler_angle" (
      line "roll_deg" (float r.roll_deg)
      ∷ line "pitch_deg" (float r.pitch_deg)
      ∷ line "yaw_deg" (float r.yaw_deg)
      ∷ [])

  unfoldable pub print_video_stream_settings : VideoStreamSettings F → String
  unfolding decimal
  print_video_stream_settings r = block "video_stream_settings" (
      line "frame_rate_hz" (float r.frame_rate_hz)
      ∷ line "horizontal_resolution_pix" (decimal r.horizontal_resolution_pix)
      ∷ line "vertical_resolution_pix" (decimal r.vertical_resolution_pix)
      ∷ line "bit_rate_b_s" (decimal r.bit_rate_b_s)
      ∷ line "rotation_deg" (decimal r.rotation_deg)
      ∷ line "uri" r.uri
      ∷ line "horizontal_fov_deg" (float r.horizontal_fov_deg)
      ∷ [])

  unfoldable pub print_video_stream_info : VideoStreamInfo F → String
  unfolding to_string print_video_stream_settings stream_status_text spectrum_text
  print_video_stream_info r = block "video_stream_info" (
      line "stream_id" (to_string r.stream_id)
      ∷ line "settings" (print_video_stream_settings r.settings)
      ∷ line "status" (stream_status_text r.status)
      ∷ line "spectrum" (spectrum_text r.spectrum)
      ∷ [])

  unfoldable pub print_status : Status F → String
  unfolding decimal storage_status_text storage_type_text
  print_status r = block "status" (
      line "video_on" (bool_text r.video_on)
      ∷ line "photo_interval_on" (bool_text r.photo_interval_on)
      ∷ line "used_storage_mib" (float r.used_storage_mib)
      ∷ line "available_storage_mib" (float r.available_storage_mib)
      ∷ line "total_storage_mib" (float r.total_storage_mib)
      ∷ line "recording_time_s" (float r.recording_time_s)
      ∷ line "media_folder_name" r.media_folder_name
      ∷ line "storage_status" (storage_status_text r.storage_status)
      ∷ line "storage_id" (decimal r.storage_id)
      ∷ line "storage_type" (storage_type_text r.storage_type)
      ∷ [])

  unfoldable pub print_information : Information F → String
  unfolding decimal cap_flag_text listed
  print_information r = block "information" (
      line "vendor_name" r.vendor_name
      ∷ line "model_name" r.model_name
      ∷ line "firmware_version" r.firmware_version
      ∷ line "focal_length_mm" (float r.focal_length_mm)
      ∷ line "horizontal_sensor_size_mm" (float r.horizontal_sensor_size_mm)
      ∷ line "vertical_sensor_size_mm" (float r.vertical_sensor_size_mm)
      ∷ line "horizontal_resolution_px" (decimal r.horizontal_resolution_px)
      ∷ line "vertical_resolution_px" (decimal r.vertical_resolution_px)
      ∷ line "lens_id" (decimal r.lens_id)
      ∷ line "definition_file_version" (decimal r.definition_file_version)
      ∷ line "definition_file_uri" r.definition_file_uri
      ∷ list_line "camera_cap_flags" (map cap_flag_text r.camera_cap_flags)
      ∷ [])

module _ {D F : Type 0} (double : D → String) (float : F → String) where
  unfoldable pub print_position : Position D F → String
  print_position r = block "position" (
      line "latitude_deg" (double r.latitude_deg)
      ∷ line "longitude_deg" (double r.longitude_deg)
      ∷ line "absolute_altitude_m" (float r.absolute_altitude_m)
      ∷ line "relative_altitude_m" (float r.relative_altitude_m)
      ∷ [])

  unfoldable pub print_capture_info : CaptureInfo D F → String
  unfolding print_position print_quaternion print_euler_angle decimal to_string
  print_capture_info r = block "capture_info" (
      line "position" (print_position r.position)
      ∷ line "attitude_quaternion" (print_quaternion float r.attitude_quaternion)
      ∷ line "attitude_euler_angle" (print_euler_angle float r.attitude_euler_angle)
      ∷ line "time_utc_us" (decimal r.time_utc_us)
      ∷ line "is_success" (bool_text r.is_success)
      ∷ line "index" (to_string r.index)
      ∷ line "file_url" r.file_url
      ∷ [])
