-- ===== src/Remote/Tests.antt =====
-- The RPC client at work, before a service whose plugin has a camera that keeps what it is given.
use mavcam.Prelude.{◌≡◌, refl, ℕ, true, false, ◌||◌, none, some, [], ◌∷◌, map, if◌then◌else◌}
use mavcam.Results.{MavResult, CameraResult, ServerResult, to_server_result, is_mav_success}
use mavcam.Camera.Types.{Mode, StorageStatus, StorageType, Information}
use mavcam.Rpc.Records.{
  to_rpc_information, to_rpc_video_stream_info, to_rpc_status, from_rpc_information,
  from_rpc_video_stream_info, from_rpc_status,
}
use mavcam.Rpc.Tests.{card_status, main_stream, camera_information}
use mavcam.Plugin.{Plugin, find_option}
use mavcam.Plugin.Calls.{same_mode}
use mavcam.Plugin.Tests.{Memory, small, plugin}
use mavcam.Service.Streams.{Service}
use mavcam.Remote.{Remote, Stub}
use mavcam.Remote.Decode.{
  RemoteCapture, fill_information, fill_video_stream_infos, fill_storage_information,
  fill_capture_status, storage_of, capture_of, client_decoders_agree,
}
use mavcam.Remote.Operations.{take_photo, set_mode}
use mavcam.Remote.EndToEnd.{
  stub, with_plugin_world, shown_mode, capture_mode, remote_photo_reaches_driver,
  remote_mode_trusts_answer,
}

abbrev fresh_information : Information ℕ
fresh_information = record camera_information { camera_cap_flags = [] }

abbrev no_capture : RemoteCapture ℕ
no_capture = record {
  recording_time_s = 0;
  available_capacity_mib = 0;
  video_status = false;
  image_count = 0;
}

client_decoders_agree_example :
    let i = to_rpc_information camera_information in
    let vs = to_rpc_video_stream_info main_stream ∷ [] in
    let st = to_rpc_status card_status in
    (fill_information i fresh_information ≡ from_rpc_information i)
    × (fill_video_stream_infos vs [] ≡ map from_rpc_video_stream_info vs)
    × (fill_storage_information st ≡ storage_of (from_rpc_status st))
    × (fill_capture_status st no_capture ≡ capture_of (from_rpc_status st) no_capture)
client_decoders_agree_example =
    client_decoders_agree (to_rpc_information camera_information) fresh_information
      (to_rpc_video_stream_info main_stream ∷ []) (to_rpc_status card_status) no_capture refl

abbrev pub service : Service (Plugin Memory ℕ)
service = record { plugin = plugin; stopped = false; stream_stop_promises = []; next_promise = 0 }

abbrev pub client : Remote (Service (Plugin Memory ℕ)) ℕ
client = record {
  is_capture_in_progress = false;
  image_count = 4;
  start_video_time = 0;
  init_information = false;
  information = fresh_information;
  init_video_stream_info = false;
  video_stream_infos = [];
  storage_information = record {
    used_storage_mib = 0;
    available_storage_mib = 0;
    total_storage_mib = 0;
    storage_status = StorageStatus.not_available;
    storage_id = 0;
    storage_type = StorageType.unknown;
  };
  capture_status = record {
    recording_time_s = 0;
    available_capacity_mib = 0;
    video_status = false;
    image_count = 0;
  };
  current_mode = Mode.unknown;
  should_exit = false;
  has_thread = true;
  locked = false;
  world = service;
}

abbrev ready_plugin : Plugin Memory ℕ → CameraResult × Plugin Memory ℕ
ready_plugin p = (CameraResult.success, p)

abbrev now : Service (Plugin Memory ℕ) → ℕ
now v = 0

abbrev pub line : Stub (Service (Plugin Memory ℕ)) ℕ
line = stub small ready_plugin now

remote_photo_reaches_driver_example :
    take_photo line client
    ≡ some (
      to_server_result MavResult.success,
      record (with_plugin_world client plugin.world) {
        is_capture_in_progress = false;
        image_count = 5;
      },
    )
remote_photo_reaches_driver_example =
    remote_photo_reaches_driver small ready_plugin now client refl refl

no_unnamed_setting : find_option "" plugin.settings ≡ none
unfolding find_option
no_unnamed_setting = refl

remote_mode_trusts_answer_example :
    let accepted = is_mav_success (small.set_mode (capture_mode Mode.video) plugin.world).0 in
    shown_mode (set_mode line Mode.video client)
    ≡ some (
      ServerResult.success,
      Mode.video,
      if same_mode Mode.photo Mode.video || accepted then Mode.video else Mode.photo,
    )
remote_mode_trusts_answer_example =
    remote_mode_trusts_answer small ready_plugin now Mode.video client refl refl refl
