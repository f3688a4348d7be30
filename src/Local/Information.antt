-- ===== src/Local/Information.antt =====
-- What the local camera client tells of itself: fill_information, fill_video_stream_info,
-- start_video_streaming and stop_video_streaming of src/mav_client/camera_local_client.cpp. The texts of
-- the device's files and the preview stream's format are arguments.
use mavcam.Prelude.{ℕ, ◌++◌, ◌&&◌, String, List, [], ◌∷◌, if◌then◌else◌}
use mavcam.Prelude.Int.{ℤ, pos}
use mavcam.Prelude.Text.{append_text}
use mavcam.Results.{MavResult, ServerResult, is_mav_success}
use mavcam.Camera.Types.{
  Information, CameraCapFlag, VideoStreamInfo, VideoStreamStatus, VideoStreamSpectrum,
}
use mavcam.Plugin.{LensInformation}
use mavcam.Local.State.{Local}

-- What product_brand_from_device and its companions give, the version for a product's name.
pub record DeviceText : Type 0 where
  pub product_brand : String
  pub product_name : String
  pub firmware_version : String
  pub definition_file_version : String → ℕ

-- _preview_stream_frame_rate and its companions, with `_rtsp_ip`.
pub record PreviewStream (F : Type 0) : Type 0 where
  pub frame_rate : F
  pub width : ℕ
  pub height : ℕ
  pub bitrate : ℕ
  pub rtsp_ip : String

module _ {W F : Type 0} (float_zero : F)
    (get_information : W → (MavResult × LensInformation F) × W) where
  -- Where there is no camera or it fails, the information has no capability at all.
  unfoldable pub fill_information :
      DeviceText → Information F → Local W F → ServerResult × Information F × Local W F
  fill_information text given s =
      let ((result, lens), w) = get_information s.world in
      let s' = if s.has_mav_camera then record s { world = w } else s in
      if s.has_mav_camera && is_mav_success result
      then (
        ServerResult.success,
        record {
          vendor_name = text.product_brand;
          model_name = text.product_name;
          firmware_version = text.firmware_version;
          focal_length_mm = lens.focal_length_mm;
          horizontal_sensor_size_mm = lens.horizontal_sensor_size_mm;
          vertical_sensor_size_mm = lens.vertical_sensor_size_mm;
          horizontal_resolution_px = lens.horizontal_resolution_px;
          vertical_resolution_px = lens.vertical_resolution_px;
          lens_id = lens.lens_id;
          definition_file_version = text.definition_file_version text.product_name;
          definition_file_uri =
              append_text "mftp://definition/" (append_text text.product_name ".xml");
          camera_cap_flags =
              given.camera_cap_flags
              ++ CameraCapFlag.capture_image ∷ CameraCapFlag.capture_video ∷ CameraCapFlag.has_modes
                ∷ CameraCapFlag.has_video_stream ∷ CameraCapFlag.has_basic_zoom
                ∷ CameraCapFlag.has_tracking_point ∷ [];
        },
        s',
      )
      else (
        ServerResult.no_system,
        record {
          vendor_name = "Unknown";
          model_name = "Unknown";
          firmware_version = "0.0.0.0";
          focal_length_mm = float_zero;
          horizontal_sensor_size_mm = float_zero;
          vertical_sensor_size_mm = float_zero;
          horizontal_resolution_px = 0;
          vertical_resolution_px = 0;
          lens_id = 0;
          definition_file_version = 0;
          definition_file_uri = "";
          camera_cap_flags = given.camera_cap_flags;
        },
        s',
      )

-- fill_video_stream_info: the one stream, whatever the list had.
unfoldable pub fill_video_stream_info :
    {F : Type 0} → F → PreviewStream F → ServerResult × List (VideoStreamInfo F)
fill_video_stream_info float_zero preview = (
  ServerResult.success,
  record {
    stream_id = pos 1;
    settings = record {
      frame_rate_hz = preview.frame_rate;
      horizontal_resolution_pix = preview.width;
      vertical_resolution_pix = preview.height;
      bit_rate_b_s = preview.bitrate;
      rotation_deg = 0;
      uri = append_text "rtsp://" (append_text preview.rtsp_ip "/live");
      horizontal_fov_deg = float_zero;
    };
    status = VideoStreamStatus.in_progress;
    spectrum = VideoStreamSpectrum.visible_light;
  }
      ∷ [],
)

unfoldable pub start_video_streaming : {W F : Type 0} → ℤ → Local W F → ServerResult × Local W F
start_video_streaming stream s = (ServerResult.success, s)

unfoldable pub stop_video_streaming : {W F : Type 0} → ℤ → Local W F → ServerResult × Local W F
stop_video_streaming stream s = (ServerResult.success, s)
