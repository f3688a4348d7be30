-- ===== src/Remote/EndToEnd.antt =====
-- The RPC client before a camera service with its camera plugin. gRPC carries a call as it is; a
-- handler that throws gives the client a status that is not OK, and leaves the plugin as it was.
use mavcam.Prelude.{
  ◌≡◌, refl, ap, ℕ, ◌+◌, ◌%◌, ◌^◌, Bool, true, false, not, ◌&&◌, ◌||◌, Option, none, some, String,
  List, [], ◌∷◌, map, Dict, arith, if◌then◌else◌,
}
use mavcam.Results.{
  CameraResult, ServerResult, client_result, to_server_result, to_camera_result, to_rpc_result,
  is_mav_success,
}
use mavcam.Camera.Types.{Mode, Setting}
use mavcam.Plugin.{Plugin, PluginDevice, find_option, CaptureMode}
use mavcam.Service.{
  CameraApi, RpcReply, answered, requested, fill_response_with_result, empty_setting, result_text,
}
use mavcam.Service
use mavcam.Service.Streams
use mavcam.Service.Streams.{Service, Stream}
use mavcam.Service.Plugged.{plugin_api}
use mavcam.Plugin.Calls
use mavcam.Plugin.Operations
use mavcam.Rpc.Records.{from_rpc_setting, to_rpc_setting, to_rpc_setting_option}
use mavcam.Rpc.Enums.{from_rpc_mode}
use mavcam.Remote.Decode.{client_rpc_mode}
use mavcam.Plugin.{set_camera_mode}
use mavcam.Plugin.Operations.{handle_setting}
use mavcam.Remote.{Remote, Stub, guarded}
use mavcam.Remote.Operations.{
  reply_result, plain, take_photo, start_video, stop_video, set_mode, get_setting,
  retrieve_current_settings, build_settings, mode_after,
}

-- The first message of a stream. The plugin answers the four streams that the client reads at once.
abbrev first_message {ℓ} : {M : Type ℓ} → Stream M → Option M
first_message (Stream.sent m) = some m
first_message (Stream.throws m) = some m
first_message _ = none

abbrev received {ℓ} : {S : Type 0} {M : Type ℓ} → Stream M × Service S → Option M × Service S
received (stream, v) = (first_message stream, v)

module _ {S : Type 0} where
  abbrev served : (S → Option RpcReply × S) → Service S → Option RpcReply × Service S
  served f v = let (reply, s) = f v.plugin in (reply, record v { plugin = s })

  abbrev served_or_thrown :
      (S → Option (Option RpcReply × S)) → Service S → Option RpcReply × Service S
  served_or_thrown f v = elim (f v.plugin) [
    | none ↦ (none, v)
    | some (reply, s) ↦ (reply, record v { plugin = s })
  ]

module _ {S D F : Type 0} (api : CameraApi S D F) where
  abbrev pub stub_of : (Service S → ℕ) → Stub (Service S) F
  stub_of steady_now = record {
    prepare = served (Service.prepare_call api true);
    take_photo = served_or_thrown (Service.take_photo_call api true);
    start_video = served_or_thrown (Service.start_video_call api true);
    stop_video = served_or_thrown (Service.stop_video_call api true);
    start_video_streaming =
        λ stream. served (Service.start_video_streaming_call api true (some stream));
    stop_video_streaming =
        λ stream. served (Service.stop_video_streaming_call api true (some stream));
    set_mode = λ mode. served_or_thrown (Service.set_mode_call api true (some mode));
    format_storage = λ id. served_or_thrown (Service.format_storage_call api true (some id));
    reset_settings = served (Service.reset_settings_call api true);
    set_timestamp = λ t. served (Service.set_timestamp_call api true (some t));
    set_zoom_range = λ range. served (Service.set_zoom_range_call api true (some range));
    set_setting = λ setting. served_or_thrown (Service.set_setting_call api true (some setting));
    get_setting = λ setting v. (Service.get_setting_call api true (some setting) v.plugin, v);
    read_information = λ v. received (Streams.subscribe_information api v);
    read_video_stream_infos = λ v. received (Streams.subscribe_video_stream_info api v);
    read_current_settings = λ v. received (Streams.subscribe_current_settings api v);
    read_status = λ v. received (Streams.subscribe_status api v);
    steady_now = steady_now;
  }

abbrev pub id_and_option : Setting → String × String
id_and_option s = (s.setting_id, s.option.option_id)

pairs_cross :
    (settings : List Setting)
    → map build_settings (map to_rpc_setting settings) ≡ map id_and_option settings
unfolding to_rpc_setting to_rpc_setting_option
pairs_cross [] = refl
pairs_cross (s ∷ rest) = ap (λ more. id_and_option s ∷ more) (pairs_cross rest)

abbrev pub capture_mode : Mode → CaptureMode
capture_mode Mode.photo = CaptureMode.photo
capture_mode _ = CaptureMode.video

module _ {W F : Type 0} where
  abbrev pub with_plugin_world :
      Remote (Service (Plugin W F)) F → W → Remote (Service (Plugin W F)) F
  with_plugin_world s w = record s {
    world = record s.world { plugin = record s.world.plugin { world = w } };
  }

  -- The answer of a call, whether the plugin reports a recording, and whether the mutex is held.
  abbrev pub shown :
      Option (ServerResult × Remote (Service (Plugin W F)) F) → Option (ServerResult × Bool × Bool)
  shown none = none
  shown (some (r, s)) = some (r, s.world.plugin.status.video_on, s.locked)

  -- The answer of a call, the mode that the client knows and the mode of the plugin.
  abbrev pub shown_mode :
      Option (ServerResult × Remote (Service (Plugin W F)) F) → Option (ServerResult × Mode × Mode)
  shown_mode none = none
  shown_mode (some (r, s)) = some (r, s.current_mode, s.world.plugin.current_mode)

  abbrev pub shown_settings : Option (Dict × Remote (Service (Plugin W F)) F) → Option (Dict × Mode)
  shown_settings none = none
  shown_settings (some (settings, s)) = some (settings, s.current_mode)

module _ {W F : Type 0} (d : PluginDevice W F) (prepare : Plugin W F → CameraResult × Plugin W F)
    (steady_now : Service (Plugin W F) → ℕ) where
  abbrev pub stub : Stub (Service (Plugin W F)) F
  stub = stub_of {D = F} (plugin_api d prepare) steady_now

  -- Where the plugin has a camera, a remote take_photo reaches the camera driver once: the answer is the driver's result, the world
  -- is the driver's, the image count goes up by one, modulo 2 ^ 32, exactly on Success, and the capture
  -- is over afterwards.
  pub remote_photo_reaches_driver :
      (s : Remote (Service (Plugin W F)) F)
      → s.locked ≡ false
      → s.world.plugin.has_camera ≡ true
      → let (r, w) = d.take_photo s.world.plugin.world in
        take_photo stub s
        ≡ some (
          to_server_result r,
          record (with_plugin_world s w) {
            is_capture_in_progress = false;
            image_count = if is_mav_success r then (s.image_count + 1) % 2 ^ 32 else s.image_count;
          },
        )
  unfolding take_photo guarded reply_result Service.take_photo_call answered
      fill_response_with_result Calls.take_photo client_result to_server_result to_camera_result
      to_rpc_result
  remote_photo_reaches_driver s free camera = ground arith

  -- Where the plugin has a camera, a remote start and stop of the recording answer what the camera driver answers, and the plugin
  -- reports a recording from then on exactly if the start succeeded, and none exactly if the stop did.
  pub remote_recording_reaches_driver :
      (s : Remote (Service (Plugin W F)) F)
      → s.locked ≡ false
      → s.world.plugin.has_camera ≡ true
      → let r = (d.start_video s.world.plugin.world).0 in
        let r' = (d.stop_video s.world.plugin.world).0 in
        let video_on = s.world.plugin.status.video_on in
        (shown (start_video stub s)
          ≡ some (to_server_result r, is_mav_success r || video_on, false))
        × (shown (stop_video stub s)
            ≡ some (to_server_result r', not (is_mav_success r') && video_on, false))
  unfolding start_video stop_video plain guarded reply_result Service.start_video_call
      Service.stop_video_call answered fill_response_with_result Calls.start_video Calls.stop_video
      client_result to_server_result to_camera_result to_rpc_result
  remote_recording_reaches_driver s free camera = (ground arith, ground arith)

  -- A remote get_setting asks for the empty name, so where no setting has it the client answers
  -- Success with an empty setting, whatever setting was asked for.
  pub remote_get_setting_is_empty :
      (setting : Setting) (s : Remote (Service (Plugin W F)) F)
      → s.locked ≡ false
      → find_option "" s.world.plugin.settings ≡ none
      → get_setting stub setting s
        ≡ some ((ServerResult.success, from_rpc_setting empty_setting), s)
  unfolding get_setting guarded Service.get_setting_call Operations.get_setting from_rpc_setting
      to_rpc_setting
  remote_get_setting_is_empty setting s free unnamed = ground arith

  -- Where the plugin has a camera, a remote set_mode to photo or video always answers Success, and the client then knows that mode.
  -- The plugin is in it only if it was before or the camera driver accepts it: where the driver
  -- refuses, the client shows a mode that the camera is not in.
  pub remote_mode_trusts_answer :
      (mode : Mode) (s : Remote (Service (Plugin W F)) F)
      → s.locked ≡ false
      → s.world.plugin.has_camera ≡ true
      → Calls.same_mode mode Mode.unknown ≡ false
      → let old = s.world.plugin.current_mode in
        let accepted = is_mav_success (d.set_mode (capture_mode mode) s.world.plugin.world).0 in
        shown_mode (set_mode stub mode s)
        ≡ some
            (ServerResult.success, mode, if Calls.same_mode old mode || accepted then mode else old)
  unfolding set_mode guarded client_rpc_mode Service.set_mode_call answered from_rpc_mode
      Calls.set_mode fill_response_with_result Operations.set_setting handle_setting set_camera_mode
      reply_result client_result to_rpc_result
  remote_mode_trusts_answer Mode.unknown s free camera known = ground arith
  remote_mode_trusts_answer Mode.photo s free camera known = ground arith
  remote_mode_trusts_answer Mode.video s free camera known = ground arith

  -- What a remote retrieve_current_settings gives is the list of the plugin's settings, each with its
  -- current option and in the plugin's order; the mode that the client knows follows CAM_MODE in it.
  pub remote_settings_are_the_plugins :
      (s : Remote (Service (Plugin W F)) F)
      → s.locked ≡ false
      → s.world.stopped ≡ false
      → shown_settings (retrieve_current_settings stub s)
        ≡ some (
          map id_and_option s.world.plugin.settings,
          mode_after (map to_rpc_setting s.world.plugin.settings) s.current_mode,
        )
  unfolding retrieve_current_settings guarded Streams.subscribe_current_settings Streams.subscribe
      Streams.register_stream_stop_promise
  remote_settings_are_the_plugins s free runs = ground (arith, pairs_cross s.world.plugin.settings)
