-- ===== src/Camera/Types.antt =====
-- The data types of src/mav_server/plugins/camera/camera.h. `F` stands for float and `D` for double,
-- of which the conversions only move values.
use mavcam.Prelude.{ℕ, Bool, String, List}
use mavcam.Prelude.Int.{ℤ}

pub data Mode : Type 0 where
  unknown photo video : Mode

pub data PhotosRange : Type 0 where
  all since_connection : PhotosRange

pub data VideoStreamStatus : Type 0 where
  not_running in_progress : VideoStreamStatus

pub data VideoStreamSpectrum : Type 0 where
  unknown visible_light infrared : VideoStreamSpectrum

pub data StorageStatus : Type 0 where
  not_available unformatted formatted not_supported : StorageStatus

pub data StorageType : Type 0 where
  unknown usb_stick sd microsd hd other : StorageType

pub data CameraCapFlag : Type 0 where
  capture_video capture_image has_modes can_capture_image_in_video_mode : CameraCapFlag
  can_capture_video_in_image_mode has_image_survey_mode has_basic_zoom : CameraCapFlag
  has_basic_focus has_video_stream has_tracking_point : CameraCapFlag
  has_tracking_rectangle has_tracking_geo_status : CameraCapFlag

pub record Position (D F : Type 0) : Type 0 where
  pub latitude_deg : D
  pub longitude_deg : D
  pub absolute_altitude_m : F
  pub relative_altitude_m : F

pub record Quaternion (F : Type 0) : Type 0 where
  pub w : F
  pub x : F
  pub y : F
  pub z : F

pub record EulerAngle (F : Type 0) : Type 0 where
  pub roll_deg : F
  pub pitch_deg : F
  pub yaw_deg : F

pub record CaptureInfo (D F : Type 0) : Type 0 where
  pub position : Position D F
  pub attitude_quaternion : Quaternion F
  pub attitude_euler_angle : EulerAngle F
  pub time_utc_us : ℕ
  pub is_success : Bool
  pub index : ℤ
  pub file_url : String

pub record VideoStreamSettings (F : Type 0) : Type 0 where
  pub frame_rate_hz : F
  pub horizontal_resolution_pix : ℕ
  pub vertical_resolution_pix : ℕ
  pub bit_rate_b_s : ℕ
  pub rotation_deg : ℕ
  pub uri : String
  pub horizontal_fov_deg : F

pub record VideoStreamInfo (F : Type 0) : Type 0 where
  pub stream_id : ℤ
  pub settings : VideoStreamSettings F
  pub status : VideoStreamStatus
  pub spectrum : VideoStreamSpectrum

pub record Status (F : Type 0) : Type 0 where
  pub video_on : Bool
  pub photo_interval_on : Bool
  pub used_storage_mib : F
  pub available_storage_mib : F
  pub total_storage_mib : F
  pub recording_time_s : F
  pub media_folder_name : String
  pub storage_status : StorageStatus
  pub storage_id : ℕ
  pub storage_type : StorageType

pub record SettingOption : Type 0 where
  pub option_id : String
  pub option_description : String

pub record Setting : Type 0 where
  pub setting_id : String
  pub setting_description : String
  pub option : SettingOption
  pub is_range : Bool

pub record SettingOptions : Type 0 where
  pub setting_id : String
  pub setting_description : String
  pub options : List SettingOption
  pub is_range : Bool

pub record Information (F : Type 0) : Type 0 where
  pub vendor_name : String
  pub model_name : String
  pub firmware_version : String
  pub focal_length_mm : F
  pub horizontal_sensor_size_mm : F
  pub vertical_sensor_size_mm : F
  pub horizontal_resolution_px : ℕ
  pub vertical_resolution_px : ℕ
  pub lens_id : ℕ
  pub definition_file_version : ℕ
  pub definition_file_uri : String
  pub camera_cap_flags : List CameraCapFlag
