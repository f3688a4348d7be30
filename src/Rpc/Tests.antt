-- ===== src/Rpc/Tests.antt =====
-- The conversions of the camera service at work, on numbers for floats.
use mavcam.Prelude.{◌≡◌, ℕ, true, false, [], ◌∷◌}
use mavcam.Prelude.Int.{pos}
use mavcam.Camera.Types.{
  Mode, PhotosRange, VideoStreamStatus, VideoStreamSpectrum, StorageStatus, StorageType,
  CameraCapFlag, CaptureInfo, VideoStreamInfo, Status, Setting, SettingOptions, Information,
}
use mavcam.Rpc.Enums.{to_rpc_mode, from_rpc_mode, to_rpc_photos_range, from_rpc_photos_range}
use mavcam.Rpc.Records.{
  to_rpc_status, from_rpc_status, to_rpc_video_stream_info, from_rpc_video_stream_info,
  to_rpc_capture_info, from_rpc_capture_info, to_rpc_information, from_rpc_information,
  to_rpc_setting, from_rpc_setting, to_rpc_setting_options, from_rpc_setting_options,
}
use mavcam.Rpc.RoundTrip.{messages_round_trip}

abbrev pub card_status : Status ℕ
card_status = record {
  video_on = true;
  photo_interval_on = false;
  used_storage_mib = 120;
  available_storage_mib = 900;
  total_storage_mib = 1020;
  recording_time_s = 7;
  media_folder_name = "DCIM";
  storage_status = StorageStatus.formatted;
  storage_id = 1;
  storage_type = StorageType.microsd;
}

abbrev pub main_stream : VideoStreamInfo ℕ
main_stream = record {
  stream_id = pos 1;
  settings = record {
    frame_rate_hz = 30;
    horizontal_resolution_pix = 1920;
    vertical_resolution_pix = 1080;
    bit_rate_b_s = 4000;
    rotation_deg = 0;
    uri = "rtsp://cam";
    horizontal_fov_deg = 80;
  };
  status = VideoStreamStatus.in_progress;
  spectrum = VideoStreamSpectrum.infrared;
}

abbrev one_capture : CaptureInfo ℕ ℕ
one_capture = record {
  position = record {
    latitude_deg = 47;
    longitude_deg = 8;
    absolute_altitude_m = 500;
    relative_altitude_m = 20;
  };
  attitude_quaternion = record { w = 1; x = 0; y = 0; z = 0 };
  attitude_euler_angle = record { roll_deg = 1; pitch_deg = 2; yaw_deg = 3 };
  time_utc_us = 12;
  is_success = true;
  index = pos 4;
  file_url = "a.jpg";
}

abbrev pub camera_information : Information ℕ
camera_information = record {
  vendor_name = "V";
  model_name = "M";
  firmware_version = "1.0";
  focal_length_mm = 24;
  horizontal_sensor_size_mm = 6;
  vertical_sensor_size_mm = 5;
  horizontal_resolution_px = 9248;
  vertical_resolution_px = 6944;
  lens_id = 0;
  definition_file_version = 2;
  definition_file_uri = "mftp://definition/M.xml";
  camera_cap_flags = CameraCapFlag.capture_video ∷ CameraCapFlag.has_modes ∷ [];
}

abbrev iso_setting : Setting
iso_setting = record {
  setting_id = "CAM_ISO";
  setting_description = "ISO";
  option = record { option_id = "125"; option_description = "ISO 125" };
  is_range = false;
}

abbrev iso_options : SettingOptions
iso_options = record {
  setting_id = "CAM_ISO";
  setting_description = "ISO";
  options =
      record { option_id = "125"; option_description = "ISO 125" }
      ∷ record { option_id = "200"; option_description = "ISO 200" }
      ∷ [];
  is_range = false;
}

messages_round_trip_example :
    (from_rpc_status (to_rpc_status card_status) ≡ card_status)
    × (from_rpc_video_stream_info (to_rpc_video_stream_info main_stream) ≡ main_stream)
    × (from_rpc_capture_info (to_rpc_capture_info one_capture) ≡ one_capture)
    × (from_rpc_information (to_rpc_information camera_information) ≡ camera_information)
    × (from_rpc_setting (to_rpc_setting iso_setting) ≡ iso_setting)
    × (from_rpc_setting_options (to_rpc_setting_options iso_options) ≡ iso_options)
    × (from_rpc_mode (to_rpc_mode Mode.video) ≡ Mode.video)
    × (from_rpc_photos_range (to_rpc_photos_range PhotosRange.since_connection)
        ≡ PhotosRange.since_connection)
messages_round_trip_example =
    messages_round_trip card_status main_stream one_capture camera_information iso_setting
      iso_options Mode.video PhotosRange.since_connection
