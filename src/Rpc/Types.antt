-- ===== src/Rpc/Types.antt =====
-- The protobuf messages that src/mav_server/plugins/camera/camera_service_impl.h reads and writes.
-- An enumeration of the wire may carry a number that no enumerator has, which is `unrecognized`.
use mavcam.Prelude.{ℕ, Bool, String, List}
use mavcam.Prelude.Int.{ℤ}

pub data RpcMode : Type 0 where
  unknown photo video : RpcMode
  unrecognized : ℕ → RpcMode

pub data RpcPhotosRange : Type 0 where
  all since_connection : RpcPhotosRange
  unrecognized : ℕ → RpcPhotosRange

pub data RpcVideoStreamStatus : Type 0 where
  not_running in_progress : RpcVideoStreamStatus
  unrecognized : ℕ → RpcVideoStreamStatus

pub data RpcVideoStreamSpectrum : Type 0 where
  unknown visible_light infrared : RpcVideoStreamSpectrum
  unrecognized : ℕ → RpcVideoStreamSpectrum

pub data RpcStorageStatus : Type 0 where
  not_available unformatted formatted not_supported : RpcStorageStatus
  unrecognized : ℕ → RpcStorageStatus

pub data RpcStorageType : Type 0 where
  unknown usb_stick sd microsd hd other : RpcStorageType
  unrecognized : ℕ → RpcStorageType

pub data RpcCameraCapFlag : Type 0 where
  capture_video capture_image has_modes can_capture_image_in_video_mode : RpcCameraCapFlag
  can_capture_video_in_image_mode has_image_survey_mode has_basic_zoom : RpcCameraCapFlag
  has_basic_focus has_video_stream has_tracking_point : RpcCameraCapFlag
  has_tracking_rectangle has_tracking_geo_status : RpcCameraCapFlag
  unrecognized : ℕ → RpcCameraCapFlag

pub record RpcPosition (D F : Type 0) : Type 0 where
  pub latitude_deg : D
  pub longitude_deg : D
  pub absolute_altitude_m : F
  pub relative_altitude_m : F

pub record RpcQuaternion (F : Type 0) : Type 0 where
  pub w : F
  pub x : F
  pub y : F
  pub z : F

pub record RpcEulerAngle (F : Type 0) : Type 0 where
  pub roll_deg : F
  pub pitch_deg : F
  pub yaw_deg : F

pub record RpcCaptureInfo (D F : Type 0) : Type 0 where
  pub position : RpcPosition D F
  pub attitude_quaternion : RpcQuaternion F
  pub attitude_euler_angle : RpcEulerAngle F
  pub time_utc_us : ℕ
  pub is_success : Bool
  pub index : ℤ
  pub file_url : String

pub record RpcVideoStreamSettings (F : Type 0) : Type 0 where
  pub frame_rate_hz : F
  pub horizontal_resolution_pix : ℕ
  pub vertical_resolution_pix : ℕ
  pub bit_rate_b_s : ℕ
  pub rotation_deg : ℕ
  pub uri : String
  pub horizontal_fov_deg : F

pub record RpcVideoStreamInfo (F : Type 0) : Type 0 where
  pub stream_id : ℤ
  pub settings : RpcVideoStreamSettings F
  pub status : RpcVideoStreamStatus
  pub spectrum : RpcVideoStreamSpectrum

pub record RpcStatus (F : Type 0) : Type 0 where
  pub video_on : Bool
  pub photo_interval_on : Bool
  pub used_storage_mib : F
  pub available_storage_mib : F
  pub total_storage_mib : F
  pub recording_time_s : F
  pub media_folder_name : String
  pub storage_status : RpcStorageStatus
  pub storage_id : ℕ
  pub storage_type : RpcStorageType

pub record RpcSettingOption : Type 0 where
  pub option_id : String
  pub option_description : String

pub record RpcSetting : Type 0 where
  pub setting_id : String
  pub setting_description : String
  pub option : RpcSettingOption
  pub is_range : Bool

pub record RpcSettingOptions : Type 0 where
  pub setting_id : String
  pub setting_description : String
  pub options : List RpcSettingOption
  pub is_range : Bool

pub record RpcInformation (F : Type 0) : Type 0 where
  pub vendor_name : String
  pub model_name : String
  pub firmware_version : String
  pub focal_length_mm : F
  pub horizontal_sensor_size_mm : F
  pub vertical_sensor_size_mm : F
  pub horizontal_resolution_px : ℕ
  pub vertical_resolution_px : ℕ
  pub lens_id : ℕ
  pub definition_file_version : ℕ
  pub definition_file_uri : String
  pub camera_cap_flags : List RpcCameraCapFlag
