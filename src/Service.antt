-- ===== src/Service.antt =====
-- The calls of the camera service: src/mav_server/plugins/camera/camera_service_impl.h, over any camera
-- plugin. A pointer that may be null is an Option, and the second part of an answer is the state of
-- the plugin. A handler that returns answers Status::OK. `none` in place of an answer is an exception
-- of the plugin, which leaves the handler, or the end of the process in the plugin.
pub mod Streams
pub mod Plugged
mod Tests
use mavcam.Prelude.{ℕ, Bool, true, false, Option, none, some, String, List, map, if◌then◌else◌}
use mavcam.Prelude.Int.{ℤ}
use mavcam.Results.{CameraResult, RpcResult, to_rpc_result}
use mavcam.Camera.Types.{
  Mode, PhotosRange, CaptureInfo, VideoStreamInfo, Status, Setting, SettingOptions, Information,
}
use mavcam.Rpc.Types.{RpcMode, RpcPhotosRange, RpcCaptureInfo, RpcSetting, RpcSettingOption}
use mavcam.Rpc.Enums.{from_rpc_mode, from_rpc_photos_range}
use mavcam.Rpc.Records.{to_rpc_capture_info, to_rpc_setting, from_rpc_setting}

-- What the service asks of a camera: mavcam::Camera of camera.h, whose functions forward to the
-- plugin. The functions that end in _async answer the value that they hand to their callback, or
-- `none` where they keep it.
pub record CameraApi (S D F : Type 0) : Type 0 where
  pub prepare : S → CameraResult × S
  pub take_photo : S → Option (CameraResult × S)
  pub start_photo_interval : F → S → CameraResult × S
  pub stop_photo_interval : S → CameraResult × S
  pub start_video : S → Option (CameraResult × S)
  pub stop_video : S → Option (CameraResult × S)
  pub start_video_streaming : ℤ → S → CameraResult × S
  pub stop_video_streaming : ℤ → S → CameraResult × S
  pub set_mode : Mode → S → Option (CameraResult × S)
  pub list_photos : PhotosRange → S → CameraResult × List (CaptureInfo D F)
  pub mode_async : S → Option Mode × S
  pub information_async : S → Option (Information F) × S
  pub video_stream_info_async : S → Option (List (VideoStreamInfo F)) × S
  pub capture_info_async : S → Option (CaptureInfo D F) × S
  pub status_async : S → Option (Status F) × S
  pub current_settings_async : S → Option (List Setting) × S
  pub possible_setting_options_async : S → Option (List SettingOptions) × S
  pub set_setting : Setting → S → Option (CameraResult × S)
  pub get_setting : Setting → S → CameraResult × Setting
  pub format_storage : ℤ → S → Option (CameraResult × S)
  pub select_camera : ℤ → S → CameraResult × S
  pub reset_settings : S → CameraResult × S
  pub set_timestamp : ℤ → S → CameraResult × S
  pub set_zoom_range : F → S → CameraResult × S

-- operator<< of a result, src/mav_server/plugins/camera/camera.cpp.
unfoldable pub result_text : CameraResult → String
result_text CameraResult.unknown = "Unknown"
result_text CameraResult.success = "Success"
result_text CameraResult.in_progress = "In Progress"
result_text CameraResult.busy = "Busy"
result_text CameraResult.denied = "Denied"
result_text CameraResult.error = "Error"
result_text CameraResult.timeout = "Timeout"
result_text CameraResult.wrong_argument = "Wrong Argument"
result_text CameraResult.no_system = "No System"
result_text CameraResult.protocol_unsupported = "Protocol Unsupported"

-- The message CameraResult, and a response without it as protobuf reads it.
pub record RpcReply : Type 0 where
  pub result : RpcResult
  pub result_str : String

abbrev pub empty_reply : RpcReply
empty_reply = record { result = RpcResult.unknown; result_str = "" }

abbrev pub empty_setting : RpcSetting
empty_setting = record {
  setting_id = "";
  setting_description = "";
  option = record { option_id = ""; option_description = "" };
  is_range = false;
}

-- fillResponseWithResult
unfoldable pub fill_response_with_result : CameraResult → RpcReply
unfolding to_rpc_result result_text
fill_response_with_result r = record { result = to_rpc_result r; result_str = result_text r }

module _ {S D F : Type 0} (api : CameraApi S D F) where
  -- A response is filled where there is one; a request that is null leaves it as it came.
  unfoldable pub answered : Bool → CameraResult × S → Option RpcReply × S
  unfolding fill_response_with_result
  answered response (result, s) =
      (if response then some (fill_response_with_result result) else none, s)

  -- A camera that throws, or ends the process, answers nothing.
  abbrev answered_or_none : Bool → Option (CameraResult × S) → Option (Option RpcReply × S)
  answered_or_none response none = none
  answered_or_none response (some r) = some (answered response r)

  unfoldable pub requested {ℓ} :
      {A : Type ℓ} → Bool → (A → S → CameraResult × S) → Option A → S → Option RpcReply × S
  unfolding answered
  requested response call none s = (none, s)
  requested response call (some a) s = answered response (call a s)

  unfoldable pub prepare_call : Bool → S → Option RpcReply × S
  unfolding answered
  prepare_call response s = answered response (api.prepare s)

  unfoldable pub take_photo_call : Bool → S → Option (Option RpcReply × S)
  unfolding answered
  take_photo_call response s = answered_or_none response (api.take_photo s)

  unfoldable pub start_photo_interval_call : Bool → Option F → S → Option RpcReply × S
  unfolding requested
  start_photo_interval_call response = requested response api.start_photo_interval

  unfoldable pub stop_photo_interval_call : Bool → S → Option RpcReply × S
  unfolding answered
  stop_photo_interval_call response s = answered response (api.stop_photo_interval s)

  unfoldable pub start_video_call : Bool → S → Option (Option RpcReply × S)
  unfolding answered
  start_video_call response s = answered_or_none response (api.start_video s)

  unfoldable pub stop_video_call : Bool → S → Option (Option RpcReply × S)
  unfolding answered
  stop_video_call response s = answered_or_none response (api.stop_video s)

  unfoldable pub start_video_streaming_call : Bool → Option ℤ → S → Option RpcReply × S
  unfolding requested
  start_video_streaming_call response = requested response api.start_video_streaming

  unfoldable pub stop_video_streaming_call : Bool → Option ℤ → S → Option RpcReply × S
  unfolding requested
  stop_video_streaming_call response = requested response api.stop_video_streaming

  unfoldable pub set_mode_call : Bool → Option RpcMode → S → Option (Option RpcReply × S)
  unfolding answered from_rpc_mode
  set_mode_call response none s = some (none, s)
  set_mode_call response (some mode) s =
      answered_or_none response (api.set_mode (from_rpc_mode mode) s)

  unfoldable pub list_photos_call :
      Bool → Option RpcPhotosRange → S → Option (RpcReply × List (RpcCaptureInfo D F))
  unfolding fill_response_with_result from_rpc_photos_range to_rpc_capture_info
  list_photos_call response none s = none
  list_photos_call response (some range) s =
      let (result, infos) = api.list_photos (from_rpc_photos_range range) s in
      if response
      then some (fill_response_with_result result, map to_rpc_capture_info infos)
      else none

  unfoldable pub set_setting_call : Bool → Option RpcSetting → S → Option (Option RpcReply × S)
  unfolding answered from_rpc_setting
  set_setting_call response none s = some (none, s)
  set_setting_call response (some setting) s = elim (api.set_setting (from_rpc_setting setting) s) [
    | none ↦ none
    | some r ↦ some (answered response r)
  ]

  unfoldable pub get_setting_call : Bool → Option RpcSetting → S → Option (RpcReply × RpcSetting)
  unfolding fill_response_with_result from_rpc_setting to_rpc_setting
  get_setting_call response none s = none
  get_setting_call response (some setting) s =
      let (result, found) = api.get_setting (from_rpc_setting setting) s in
      if response then some (fill_response_with_result result, to_rpc_setting found) else none

  unfoldable pub format_storage_call : Bool → Option ℤ → S → Option (Option RpcReply × S)
  unfolding answered
  format_storage_call response none s = some (none, s)
  format_storage_call response (some id) s = answered_or_none response (api.format_storage id s)

  unfoldable pub select_camera_call : Bool → Option ℤ → S → Option RpcReply × S
  unfolding requested
  select_camera_call response = requested response api.select_camera

  unfoldable pub reset_settings_call : Bool → S → Option RpcReply × S
  unfolding answered
  reset_settings_call response s = answered response (api.reset_settings s)

  unfoldable pub set_timestamp_call : Bool → Option ℤ → S → Option RpcReply × S
  unfolding requested
  set_timestamp_call response = requested response api.set_timestamp

  unfoldable pub set_zoom_range_call : Bool → Option F → S → Option RpcReply × S
  unfolding requested
  set_zoom_range_call response = requested response api.set_zoom_range
