-- ===== src/MavClient/Clients.antt =====
-- The two clients that MavClient::init chooses from, as camera clients: CameraLocalClient and
-- CameraRpcClient.
use mavcam.Prelude.{Option, none, some, String, List, []}
use mavcam.Results.{MavResult, ServerResult}
use mavcam.Camera.Types.{Mode, Information}
use mavcam.Plugin.{LensInformation}
use mavcam.Local.Device.{Device}
use mavcam.Local.State.{Local}
use mavcam.Local.Information.{DeviceText, PreviewStream}
use mavcam.Local.SdCard.{ServerStorage, CaptureStatus}
use mavcam.Local
use mavcam.Remote.{Remote, Stub}
use mavcam.Remote.Decode.{RemoteStorage, RemoteCapture}
use mavcam.Remote.Operations
use mavcam.MavClient.{ServerParam, CameraClient}

-- The camera information that the caller has filled nothing into.
abbrev pub blank_information : {F : Type 0} → F → Information F
blank_information zero_float = record {
  vendor_name = "";
  model_name = "";
  firmware_version = "";
  focal_length_mm = zero_float;
  horizontal_sensor_size_mm = zero_float;
  vertical_sensor_size_mm = zero_float;
  horizontal_resolution_px = 0;
  vertical_resolution_px = 0;
  lens_id = 0;
  definition_file_version = 0;
  definition_file_uri = "";
  camera_cap_flags = [];
}

module _ {W F : Type 0} (d : Device W F) (brand : String) (text : DeviceText)
    (preview : PreviewStream F) (get_information : W → (MavResult × LensInformation F) × W) where
  -- The callback runs in the task of reset_settings, when the reset is over.
  abbrev local_reset :
      (ServerResult → Local W F → Option (List (ServerParam F) × Local W F))
      → Local W F
      → Option (ServerResult × List (ServerParam F) × Local W F)
  local_reset callback s = elim (Local.Settings.Reset.reset_settings d s) [
    | none ↦ none
    | some (result, none, s') ↦ some (result, [], s')
    | some (result, some final, s') ↦ elim (callback final s') [
      | none ↦ none
      | some (ps, s'') ↦ some (result, ps, s'')
    ]
  ]

  abbrev local_information : Local W F → Information F × Local W F
  local_information s =
      let (_, info, s') =
        Local.Information.fill_information d.host.float_zero get_information text
          (blank_information d.host.float_zero) s in
      (info, s')

  abbrev local_settings : Local W F → (Mode × F) × Local W F
  local_settings s =
      let (known, s') = Local.Settings.Operations.fill_settings s in
      ((known.mode, known.zoom_level), s')

  abbrev pub local_client : CameraClient (Local W F) F (CaptureStatus F) (ServerStorage F)
  local_client = record {
    take_photo = λ index s. some (Local.Capture.take_photo d brand s);
    start_video = λ s. some (Local.Capture.start_video d brand s);
    stop_video = λ s. some (Local.Capture.stop_video d s);
    start_video_streaming = λ stream s. some (Local.Information.start_video_streaming stream s);
    stop_video_streaming = λ stream s. some (Local.Information.stop_video_streaming stream s);
    set_mode = Local.Settings.Operations.set_mode d;
    format_storage = λ id s. some (Local.SdCard.format_storage d s);
    reset_settings = local_reset;
    set_timestamp = λ t s. some (Local.Settings.Operations.set_timestamp d t s);
    set_zoom_range = λ range s. some (Local.Settings.Operations.set_zoom_range d range s);
    enable_tracking_point = Local.Settings.Ai.enable_tracking_point d;
    disable_tracking = Local.Settings.Ai.disable_tracking d;
    fill_information = local_information;
    fill_video_stream_info =
        λ s. ((Local.Information.fill_video_stream_info d.host.float_zero preview).1, s);
    fill_storage_information = Local.SdCard.fill_storage_information;
    fill_capture_status = Local.SdCard.fill_capture_status d;
    fill_settings = local_settings;
    retrieve_current_settings =
        λ s. some (Local.Settings.Operations.retrieve_current_settings s, s);
    set_setting = Local.Settings.Operations.set_setting d;
  }

module _ {W F : Type 0} (stub : Stub W F) (zero_float : F) where
  abbrev pub remote_client : CameraClient (Remote W F) F (RemoteCapture F) (RemoteStorage F)
  remote_client = record {
    take_photo = λ index. Operations.take_photo stub;
    start_video = Operations.start_video stub;
    stop_video = Operations.stop_video stub;
    start_video_streaming = Operations.start_video_streaming stub;
    stop_video_streaming = Operations.stop_video_streaming stub;
    set_mode = Operations.set_mode stub;
    format_storage = Operations.format_storage stub;
    reset_settings = Operations.reset_settings stub;
    set_timestamp = Operations.set_timestamp stub;
    set_zoom_range = Operations.set_zoom_range stub;
    enable_tracking_point = Operations.enable_tracking_point stub;
    disable_tracking = Operations.disable_tracking stub;
    fill_information = Operations.fetch_information stub;
    fill_video_stream_info = Operations.fetch_video_stream_infos stub;
    fill_storage_information = Operations.known_storage;
    fill_capture_status = Operations.known_capture;
    fill_settings = λ s. ((Operations.known_mode s, zero_float), s);
    retrieve_current_settings = Operations.retrieve_current_settings stub;
    set_setting = Operations.set_setting stub;
  }
