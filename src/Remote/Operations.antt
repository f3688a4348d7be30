-- ===== src/Remote/Operations.antt =====
-- The operations and queries of CameraRpcClient (src/mav_client/camera_rpc_client.cpp). `none` is a
-- call that never returns.
use mavcam.Prelude.{
  ◌+◌, ◌%◌, ◌^◌, Bool, true, false, not, ◌&&◌, Option, none, some, String, List, [], ◌∷◌, map, Dict,
  str_eq, if◌then◌else◌,
}
use mavcam.Prelude.Int.{ℤ}
use mavcam.Results.{RpcResult, ServerResult, client_result, is_server_success}
use mavcam.Camera.Types.{Mode, Setting, Information, VideoStreamInfo}
use mavcam.Rpc.Types.{RpcSetting}
use mavcam.Rpc.Records.{from_rpc_setting}
use mavcam.Service.{RpcReply, empty_setting}
use mavcam.Remote.{Remote, Stub, guarded, call}
use mavcam.Remote.Decode.{
  RemoteStorage, RemoteCapture, client_rpc_mode, fill_information, fill_video_stream_infos,
  fill_storage_information, fill_capture_status,
}

-- The answer to a call: NoSystem where the status is not OK.
unfoldable pub reply_result : Option RpcReply → ServerResult
unfolding client_result
reply_result none = ServerResult.no_system
reply_result (some reply) = client_result reply.result

abbrev pub returned {ℓ} : {A : Type ℓ} → Option A → Bool
returned none = false
returned (some _) = true

-- createRPCSetting(id, "", value, "")
unfoldable pub create_rpc_setting : String → String → RpcSetting
create_rpc_setting id value = record {
  setting_id = id;
  setting_description = "";
  option = record { option_id = value; option_description = "" };
  is_range = false;
}

-- The mode that the text of CAM_MODE means.
abbrev pub mode_of_text : String → Mode
mode_of_text text = if str_eq text "0" then Mode.photo else Mode.video

-- One round of the loop of retrieve_current_settings, and the list that it builds.
unfoldable pub mode_after : List RpcSetting → Mode → Mode
mode_after [] mode = mode
mode_after (s ∷ rest) mode =
    mode_after rest
      (if str_eq s.setting_id "CAM_MODE" then mode_of_text s.option.option_id else mode)

abbrev pub build_settings : RpcSetting → String × String
build_settings s = (s.setting_id, s.option.option_id)

is_rpc_success : RpcResult → Bool
is_rpc_success RpcResult.success = true
is_rpc_success _ = false

prepared : Option RpcReply → Bool
prepared none = false
prepared (some reply) = is_rpc_success reply.result

module _ {W F : Type 0} (stub : Stub W F) where
  -- A call whose answer is all that counts.
  unfoldable pub plain : (W → Option RpcReply × W) → Remote W F → Option (ServerResult × Remote W F)
  unfolding guarded reply_result
  plain f = guarded λ s. let (reply, s') = call f s in (reply_result reply, s')

  unfoldable pub init : Remote W F → Bool × Remote W F
  unfolding is_rpc_success prepared
  init s =
      let (reply, s') = call stub.prepare s in
      if prepared reply
      then (
        true,
        record s' {
          init_information = false;
          image_count = 0;
          should_exit = false;
          has_thread = true;
        },
      )
      else (false, s')

  unfoldable pub take_photo : Remote W F → Option (ServerResult × Remote W F)
  unfolding guarded reply_result
  take_photo = guarded λ s.
      let (reply, s') = call stub.take_photo (record s { is_capture_in_progress = true }) in
      (
        reply_result reply,
        record s' {
          is_capture_in_progress = false;
          image_count =
              if is_server_success (reply_result reply)
              then (s'.image_count + 1) % 2 ^ 32
              else s'.image_count;
        },
      )

  unfoldable pub start_video : Remote W F → Option (ServerResult × Remote W F)
  unfolding guarded reply_result
  start_video = guarded λ s.
      let (reply, s') =
        call stub.start_video (record s { start_video_time = stub.steady_now s.world }) in
      (reply_result reply, s')

  unfoldable pub stop_video : Remote W F → Option (ServerResult × Remote W F)
  unfolding plain
  stop_video = plain stub.stop_video

  unfoldable pub start_video_streaming : ℤ → Remote W F → Option (ServerResult × Remote W F)
  unfolding plain
  start_video_streaming stream = plain (stub.start_video_streaming stream)

  unfoldable pub stop_video_streaming : ℤ → Remote W F → Option (ServerResult × Remote W F)
  unfolding plain
  stop_video_streaming stream = plain (stub.stop_video_streaming stream)

  -- The mode is kept whenever the service has answered, whatever its answer.
  unfoldable pub set_mode : Mode → Remote W F → Option (ServerResult × Remote W F)
  unfolding guarded reply_result client_rpc_mode
  set_mode mode = guarded λ s.
      let (reply, s') = call (stub.set_mode (client_rpc_mode mode)) s in
      (reply_result reply, if returned reply then record s' { current_mode = mode } else s')

  unfoldable pub format_storage : ℤ → Remote W F → Option (ServerResult × Remote W F)
  unfolding guarded reply_result
  format_storage id = guarded λ s.
      let (reply, s') = call (stub.format_storage id) s in
      (
        reply_result reply,
        if is_server_success (reply_result reply) then record s' { image_count = 0 } else s',
      )

  -- The callback is called while the mutex is held; it may never return either. The answer has what
  -- the callback gives, and nothing where it is not called.
  unfoldable pub reset_settings :
      {A : Type 0}
      → (ServerResult → Remote W F → Option (List A × Remote W F))
      → Remote W F
      → Option (ServerResult × List A × Remote W F)
  unfolding reply_result
  reset_settings callback s =
      let (reply, s') = call stub.reset_settings (record s { locked = true }) in
      if s.locked
      then none
      else if not (returned reply)
      then some (ServerResult.no_system, [], record s' { locked = false })
      else elim (callback (reply_result reply) s') [
        | none ↦ none
        | some (given, s'') ↦ some (reply_result reply, given, record s'' { locked = false })
      ]

  unfoldable pub set_timestamp : ℤ → Remote W F → Option (ServerResult × Remote W F)
  unfolding plain
  set_timestamp t = plain (stub.set_timestamp t)

  unfoldable pub set_zoom_range : F → Remote W F → Option (ServerResult × Remote W F)
  unfolding plain
  set_zoom_range range = plain (stub.set_zoom_range range)

  -- The tracking calls do nothing here.
  unfoldable pub enable_tracking_point : F → F → Remote W F → Bool × Remote W F
  enable_tracking_point x y s = (false, s)

  unfoldable pub disable_tracking : Remote W F → Bool × Remote W F
  disable_tracking s = (false, s)

  -- The information is asked for once, and counts as known even if nothing was read.
  unfoldable pub fetch_information : Remote W F → Information F × Remote W F
  unfolding fill_information
  fetch_information s =
      let (response, s') = call stub.read_information s in
      let read : Information F = elim response [
        | none ↦ s'.information
        | some message ↦ fill_information message s'.information
      ] in
      if s.init_information
      then (s.information, s)
      else (read, record s' { information = read; init_information = true })

  unfoldable pub fetch_video_stream_infos : Remote W F → List (VideoStreamInfo F) × Remote W F
  unfolding fill_video_stream_infos
  fetch_video_stream_infos s =
      let (response, s') = call stub.read_video_stream_infos s in
      let read : List (VideoStreamInfo F) = elim response [
        | none ↦ s'.video_stream_infos
        | some message ↦ fill_video_stream_infos message s'.video_stream_infos
      ] in
      if s.init_video_stream_info
      then (s.video_stream_infos, s)
      else (read, record s' { video_stream_infos = read; init_video_stream_info = true })

  unfoldable pub retrieve_current_settings : Remote W F → Option (Dict × Remote W F)
  unfolding guarded mode_after
  retrieve_current_settings = guarded λ s.
      let (response, s') = call stub.read_current_settings s in
      elim response as (λ _. Dict × Remote W F) [
        | none ↦ ([], s')
        | some message ↦ (
          map build_settings message,
          record s' { current_mode = mode_after message s'.current_mode },
        )
      ]

  -- The mode follows the setting whenever the service has answered.
  unfoldable pub set_setting : String → String → Remote W F → Option (ServerResult × Remote W F)
  unfolding guarded reply_result create_rpc_setting
  set_setting id value = guarded λ s.
      let (reply, s') = call (stub.set_setting (create_rpc_setting id value)) s in
      (
        reply_result reply,
        if returned reply && str_eq id "CAM_MODE"
            then record s' { current_mode = mode_of_text value }
            else s',
      )

  -- The request is left empty: the name of the setting is not sent.
  unfoldable pub get_setting : Setting → Remote W F → Option ((ServerResult × Setting) × Remote W F)
  unfolding guarded from_rpc_setting
  get_setting setting = guarded λ s.
      let (response, s') = call (stub.get_setting empty_setting) s in
      elim response as (λ _. (ServerResult × Setting) × Remote W F) [
        | none ↦ ((ServerResult.no_system, setting), s')
        | some (_, found) ↦ ((ServerResult.success, from_rpc_setting found), s')
      ]

  -- One round of work_thread.
  unfoldable pub poll_status : Remote W F → Remote W F
  unfolding fill_storage_information fill_capture_status
  poll_status s =
      let (response, s') = call stub.read_status s in
      elim response as (λ _. Remote W F) [
        | none ↦ s'
        | some message ↦ record s' {
          storage_information = fill_storage_information message;
          capture_status = record (fill_capture_status message s'.capture_status) {
            image_count = s'.image_count;
          };
        }
      ]

-- fill_storage_information, fill_capture_status and fill_settings of the client, which give what is
-- known; the zoom level is always 0.
unfoldable pub known_storage : {W F : Type 0} → Remote W F → RemoteStorage F
known_storage s = s.storage_information

unfoldable pub known_capture : {W F : Type 0} → Remote W F → RemoteCapture F
known_capture s = s.capture_status

unfoldable pub known_mode : {W F : Type 0} → Remote W F → Mode
known_mode s = s.current_mode

-- stop()
unfoldable pub stop : {W F : Type 0} → Remote W F → Remote W F
stop s = record s { should_exit = true; has_thread = false }
