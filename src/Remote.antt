-- ===== src/Remote.antt =====
-- The RPC client of the camera, CameraRpcClient of src/mav_client/camera_rpc_client.cpp and
-- camera_rpc_client.h.
pub mod Decode
pub mod Operations
pub mod EndToEnd
pub mod Tests
use mavcam.Prelude.{ℕ, Bool, true, false, Option, none, some, List, if◌then◌else◌}
use mavcam.Prelude.Int.{ℤ}
use mavcam.Camera.Types.{Mode, Information, VideoStreamInfo}
use mavcam.Rpc.Types.{RpcMode, RpcInformation, RpcVideoStreamInfo, RpcStatus, RpcSetting}
use mavcam.Service.{RpcReply}
use mavcam.Remote.Decode.{RemoteStorage, RemoteCapture}

-- The stub that gRPC makes. A call gives the response, or `none` where the status is not OK; a reader
-- gives what its first Read does.
pub record Stub (W F : Type 0) : Type 0 where
  pub prepare : W → Option RpcReply × W
  pub take_photo : W → Option RpcReply × W
  pub start_video : W → Option RpcReply × W
  pub stop_video : W → Option RpcReply × W
  pub start_video_streaming : ℤ → W → Option RpcReply × W
  pub stop_video_streaming : ℤ → W → Option RpcReply × W
  pub set_mode : RpcMode → W → Option RpcReply × W
  pub format_storage : ℤ → W → Option RpcReply × W
  pub reset_settings : W → Option RpcReply × W
  pub set_timestamp : ℤ → W → Option RpcReply × W
  pub set_zoom_range : F → W → Option RpcReply × W
  pub set_setting : RpcSetting → W → Option RpcReply × W
  pub get_setting : RpcSetting → W → Option (RpcReply × RpcSetting) × W
  pub read_information : W → Option (RpcInformation F) × W
  pub read_video_stream_infos : W → Option (List (RpcVideoStreamInfo F)) × W
  pub read_current_settings : W → Option (List RpcSetting) × W
  pub read_status : W → Option (RpcStatus F) × W
  pub steady_now : W → ℕ

-- `locked` is `_mutex`, and `has_thread` says that `_work_thread` is not null.
pub record Remote (W F : Type 0) : Type 0 where
  pub is_capture_in_progress : Bool
  pub image_count : ℕ
  pub start_video_time : ℕ
  pub init_information : Bool
  pub information : Information F
  pub init_video_stream_info : Bool
  pub video_stream_infos : List (VideoStreamInfo F)
  pub storage_information : RemoteStorage F
  pub capture_status : RemoteCapture F
  pub current_mode : Mode
  pub should_exit : Bool
  pub has_thread : Bool
  pub locked : Bool
  pub world : W

module _ {W F : Type 0} where
  -- A body under std::lock_guard. `none`: the mutex is held by this thread, which never gets on.
  unfoldable pub guarded {ℓ} :
      {A : Type ℓ} → (Remote W F → A × Remote W F) → Remote W F → Option (A × Remote W F)
  guarded body s =
      let (a, s') = body (record s { locked = true }) in
      if s.locked then none else some (a, record s' { locked = false })

  abbrev pub call {ℓ} : {A : Type ℓ} → (W → A × W) → Remote W F → A × Remote W F
  call f s = let (a, w) = f s.world in (a, record s { world = w })
