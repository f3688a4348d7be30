-- ===== src/MavClient.antt =====
-- The MAVLink client, MavClient of src/mav_client/mav_client.cpp, over any camera client. The servers of
-- MAVSDK are a list of what the client sends them, in order. `none` is a call that throws or never
-- returns.
pub mod Handlers
pub mod Options
pub mod Params
pub mod Feedbacks
pub mod Clients
pub mod Runloop
mod Tests
use mavcam.Prelude.{
  ℕ, Bool, true, false, Option, none, some, String, List, [], ◌∷◌, ◌++◌, Dict, str_eq, ◌||◌,
  if◌then◌else◌,
}
use mavcam.Prelude.Int.{ℤ}
use mavcam.Prelude.Text.{stoi, to_string}
use mavcam.Results.{ServerResult, is_server_success}
use mavcam.Camera.Types.{Mode, Information, VideoStreamInfo}

-- A parameter that the parameter server is given.
pub data ServerParam (F : Type 0) : Type 0 where
  float_param : String → F → ServerParam F
  int_param : String → ℤ → ServerParam F

-- CameraClient of src/mav_client/camera_client.h, on a state `S`; `C` and `I` are the reports on the
-- capture and the storage. reset_settings also answers the parameters that its callback provides.
pub record CameraClient (S F C I : Type 0) : Type 0 where
  pub take_photo : ℤ → S → Option (ServerResult × S)
  pub start_video : S → Option (ServerResult × S)
  pub stop_video : S → Option (ServerResult × S)
  pub start_video_streaming : ℤ → S → Option (ServerResult × S)
  pub stop_video_streaming : ℤ → S → Option (ServerResult × S)
  pub set_mode : Mode → S → Option (ServerResult × S)
  pub format_storage : ℤ → S → Option (ServerResult × S)
  pub reset_settings :
      (ServerResult → S → Option (List (ServerParam F) × S))
      → S
      → Option (ServerResult × List (ServerParam F) × S)
  pub set_timestamp : ℤ → S → Option (ServerResult × S)
  pub set_zoom_range : F → S → Option (ServerResult × S)
  pub enable_tracking_point : F → F → S → Bool × S
  pub disable_tracking : S → Bool × S
  pub fill_information : S → Information F × S
  pub fill_video_stream_info : S → List (VideoStreamInfo F) × S
  pub fill_storage_information : S → I
  pub fill_capture_status : S → C
  pub fill_settings : S → (Mode × F) × S
  pub retrieve_current_settings : S → Option (Dict × S)
  pub set_setting : String → String → S → Option (ServerResult × S)

-- CameraFeedback and CommandAnswer, the enumerators that are sent.
pub data Feedback : Type 0 where
  ok failed : Feedback

pub data Answer : Type 0 where
  accepted denied : Answer

-- What the client sends: each respond_X and set_X of the servers with what it carries. A photo carries
-- the time in milliseconds, whether it was taken, and the index of the request.
pub data Sent (F C I : Type 0) : Type 0 where
  zoom_range start_video stop_video : Feedback → Sent F C I
  start_video_streaming stop_video_streaming set_mode : Feedback → Sent F C I
  format_storage reset_settings : Feedback → Sent F C I
  take_photo : Feedback → ℕ → Bool → ℤ → Sent F C I
  storage_information : I → Sent F C I
  capture_status : C → Sent F C I
  settings : Mode → F → Sent F C I
  information : Information F → Sent F C I
  video_stream_info : List (VideoStreamInfo F) → Sent F C I
  tracking_point tracking_rectangle tracking_off : Answer → Sent F C I
  param : ServerParam F → Sent F C I
