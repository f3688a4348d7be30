-- ===== src/Rpc/Records.antt =====
-- The conversions of src/mav_server/plugins/camera/camera_service_impl.h between the structures of
-- the camera plugin and the messages of the wire, field by field.
use mavcam.Prelude.{map}
use mavcam.Camera.Types.{
  Position, Quaternion, EulerAngle, CaptureInfo, VideoStreamSettings, VideoStreamInfo, Status,
  SettingOption, Setting, SettingOptions, Information,
}
use mavcam.Rpc.Types.{
  RpcPosition, RpcQuaternion, RpcEulerAngle, RpcCaptureInfo, RpcVideoStreamSettings,
  RpcVideoStreamInfo, RpcStatus, RpcSettingOption, RpcSetting, RpcSettingOptions, RpcInformation,
}
use mavcam.Rpc.Enums.{
  to_rpc_video_stream_status, from_rpc_video_stream_status, to_rpc_video_stream_spectrum,
  from_rpc_video_stream_spectrum, to_rpc_storage_status, from_rpc_storage_status,
  to_rpc_storage_type, from_rpc_storage_type, to_rpc_camera_cap_flag, from_rpc_camera_cap_flag,
}

unfoldable pub to_rpc_position : {D F : Type 0} → Position D F → RpcPosition D F
to_rpc_position x = record {
  latitude_deg = x.latitude_deg;
  longitude_deg = x.longitude_deg;
  absolute_altitude_m = x.absolute_altitude_m;
  relative_altitude_m = x.relative_altitude_m;
}

unfoldable pub from_rpc_position : {D F : Type 0} → RpcPosition D F → Position D F
from_rpc_position x = record {
  latitude_deg = x.latitude_deg;
  longitude_deg = x.longitude_deg;
  absolute_altitude_m = x.absolute_altitude_m;
  relative_altitude_m = x.relative_altitude_m;
}

unfoldable pub to_rpc_quaternion : {F : Type 0} → Quaternion F → RpcQuaternion F
to_rpc_quaternion x = record { w = x.w; x = x.x; y = x.y; z = x.z }

unfoldable pub from_rpc_quaternion : {F : Type 0} → RpcQuaternion F → Quaternion F
from_rpc_quaternion x = record { w = x.w; x = x.x; y = x.y; z = x.z }

unfoldable pub to_rpc_euler_angle : {F : Type 0} → EulerAngle F → RpcEulerAngle F
to_rpc_euler_angle x = record {
  roll_deg = x.roll_deg;
  pitch_deg = x.pitch_deg;
  yaw_deg = x.yaw_deg;
}

unfoldable pub from_rpc_euler_angle : {F : Type 0} → RpcEulerAngle F → EulerAngle F
from_rpc_euler_angle x = record {
  roll_deg = x.roll_deg;
  pitch_deg = x.pitch_deg;
  yaw_deg = x.yaw_deg;
}

unfoldable pub to_rpc_capture_info : {D F : Type 0} → CaptureInfo D F → RpcCaptureInfo D F
unfolding to_rpc_position to_rpc_quaternion to_rpc_euler_angle
to_rpc_capture_info x = record {
  position = to_rpc_position x.position;
  attitude_quaternion = to_rpc_quaternion x.attitude_quaternion;
  attitude_euler_angle = to_rpc_euler_angle x.attitude_euler_angle;
  time_utc_us = x.time_utc_us;
  is_success = x.is_success;
  index = x.index;
  file_url = x.file_url;
}

unfoldable pub from_rpc_capture_info : {D F : Type 0} → RpcCaptureInfo D F → CaptureInfo D F
unfolding from_rpc_position from_rpc_quaternion from_rpc_euler_angle
from_rpc_capture_info x = record {
  position = from_rpc_position x.position;
  attitude_quaternion = from_rpc_quaternion x.attitude_quaternion;
  attitude_euler_angle = from_rpc_euler_angle x.attitude_euler_angle;
  time_utc_us = x.time_utc_us;
  is_success = x.is_success;
  index = x.index;
  file_url = x.file_url;
}

unfoldable pub to_rpc_video_stream_settings :
    {F : Type 0} → VideoStreamSettings F → RpcVideoStreamSettings F
to_rpc_video_stream_settings x = record {
  frame_rate_hz = x.frame_rate_hz;
  horizontal_resolution_pix = x.horizontal_resolution_pix;
  vertical_resolution_pix = x.vertical_resolution_pix;
  bit_rate_b_s = x.bit_rate_b_s;
  rotation_deg = x.rotation_deg;
  uri = x.uri;
  horizontal_fov_deg = x.horizontal_fov_deg;
}

unfoldable pub from_rpc_video_stream_settings :
    {F : Type 0} → RpcVideoStreamSettings F → VideoStreamSettings F
from_rpc_video_stream_settings x = record {
  frame_rate_hz = x.frame_rate_hz;
  horizontal_resolution_pix = x.horizontal_resolution_pix;
  vertical_resolution_pix = x.vertical_resolution_pix;
  bit_rate_b_s = x.bit_rate_b_s;
  rotation_deg = x.rotation_deg;
  uri = x.uri;
  horizontal_fov_deg = x.horizontal_fov_deg;
}

unfoldable pub to_rpc_video_stream_info : {F : Type 0} → VideoStreamInfo F → RpcVideoStreamInfo F
unfolding to_rpc_video_stream_settings to_rpc_video_stream_status to_rpc_video_stream_spectrum
to_rpc_video_stream_info x = record {
  stream_id = x.stream_id;
  settings = to_rpc_video_stream_settings x.settings;
  status = to_rpc_video_stream_status x.status;
  spectrum = to_rpc_video_stream_spectrum x.spectrum;
}

unfoldable pub from_rpc_video_stream_info : {F : Type 0} → RpcVideoStreamInfo F → VideoStreamInfo F
unfolding from_rpc_video_stream_settings from_rpc_video_stream_status from_rpc_video_stream_spectrum
from_rpc_video_stream_info x = record {
  stream_id = x.stream_id;
  settings = from_rpc_video_stream_settings x.settings;
  status = from_rpc_video_stream_status x.status;
  spectrum = from_rpc_video_stream_spectrum x.spectrum;
}

unfoldable pub to_rpc_status : {F : Type 0} → Status F → RpcStatus F
unfolding to_rpc_storage_status to_rpc_storage_type
to_rpc_status x = record {
  video_on = x.video_on;
  photo_interval_on = x.photo_interval_on;
  used_storage_mib = x.used_storage_mib;
  available_storage_mib = x.available_storage_mib;
  total_storage_mib = x.total_storage_mib;
  recording_time_s = x.recording_time_s;
  media_folder_name = x.media_folder_name;
  storage_status = to_rpc_storage_status x.storage_status;
  storage_id = x.storage_id;
  storage_type = to_rpc_storage_type x.storage_type;
}

unfoldable pub from_rpc_status : {F : Type 0} → RpcStatus F → Status F
unfolding from_rpc_storage_status from_rpc_storage_type
from_rpc_status x = record {
  video_on = x.video_on;
  photo_interval_on = x.photo_interval_on;
  used_storage_mib = x.used_storage_mib;
  available_storage_mib = x.available_storage_mib;
  total_storage_mib = x.total_storage_mib;
  recording_time_s = x.recording_time_s;
  media_folder_name = x.media_folder_name;
  storage_status = from_rpc_storage_status x.storage_status;
  storage_id = x.storage_id;
  storage_type = from_rpc_storage_type x.storage_type;
}

unfoldable pub to_rpc_setting_option : SettingOption → RpcSettingOption
to_rpc_setting_option x = record {
  option_id = x.option_id;
  option_description = x.option_description;
}

unfoldable pub from_rpc_setting_option : RpcSettingOption → SettingOption
from_rpc_setting_option x = record {
  option_id = x.option_id;
  option_description = x.option_description;
}

unfoldable pub to_rpc_setting : Setting → RpcSetting
unfolding to_rpc_setting_option
to_rpc_setting x = record {
  setting_id = x.setting_id;
  setting_description = x.setting_description;
  option = to_rpc_setting_option x.option;
  is_range = x.is_range;
}

unfoldable pub from_rpc_setting : RpcSetting → Setting
unfolding from_rpc_setting_option
from_rpc_setting x = record {
  setting_id = x.setting_id;
  setting_description = x.setting_description;
  option = from_rpc_setting_option x.option;
  is_range = x.is_range;
}

unfoldable pub to_rpc_setting_options : SettingOptions → RpcSettingOptions
unfolding to_rpc_setting_option
to_rpc_setting_options x = record {
  setting_id = x.setting_id;
  setting_description = x.setting_description;
  options = map to_rpc_setting_option x.options;
  is_range = x.is_range;
}

unfoldable pub from_rpc_setting_options : RpcSettingOptions → SettingOptions
unfolding from_rpc_setting_option
from_rpc_setting_options x = record {
  setting_id = x.setting_id;
  setting_description = x.setting_description;
  options = map from_rpc_setting_option x.options;
  is_range = x.is_range;
}

unfoldable pub to_rpc_information : {F : Type 0} → Information F → RpcInformation F
unfolding to_rpc_camera_cap_flag
to_rpc_information x = record {
  vendor_name = x.vendor_name;
  model_name = x.model_name;
  firmware_version = x.firmware_version;
  focal_length_mm = x.focal_length_mm;
  horizontal_sensor_size_mm = x.horizontal_sensor_size_mm;
  vertical_sensor_size_mm = x.vertical_sensor_size_mm;
  horizontal_resolution_px = x.horizontal_resolution_px;
  vertical_resolution_px = x.vertical_resolution_px;
  lens_id = x.lens_id;
  definition_file_version = x.definition_file_version;
  definition_file_uri = x.definition_file_uri;
  camera_cap_flags = map to_rpc_camera_cap_flag x.camera_cap_flags;
}

unfoldable pub from_rpc_information : {F : Type 0} → RpcInformation F → Information F
unfolding from_rpc_camera_cap_flag
from_rpc_information x = record {
  vendor_name = x.vendor_name;
  model_name = x.model_name;
  firmware_version = x.firmware_version;
  focal_length_mm = x.focal_length_mm;
  horizontal_sensor_size_mm = x.horizontal_sensor_size_mm;
  vertical_sensor_size_mm = x.vertical_sensor_size_mm;
  horizontal_resolution_px = x.horizontal_resolution_px;
  vertical_resolution_px = x.vertical_resolution_px;
  lens_id = x.lens_id;
  definition_file_version = x.definition_file_version;
  definition_file_uri = x.definition_file_uri;
  camera_cap_flags = map from_rpc_camera_cap_flag x.camera_cap_flags;
}
