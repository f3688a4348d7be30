-- ===== src/Local/Session.antt =====
-- A session of the local client: what MavClient, the storage manager and the tracker ask of
-- CameraLocalClient (src/mav_client/camera_local_client.cpp), in any order, after its start.
pub mod Kept
pub mod Handlers
pub mod Settings
pub mod Life
use mavcam.Prelude.{◌≡◌, ◌≢◌, ◌⊎◌, ℕ, Bool, true, false, some, String}
use mavcam.Prelude.Int.{ℤ}
use mavcam.Results.{ServerResult}
use mavcam.Camera.Types.{Mode}
use mavcam.Tracking.Frame.{TrackingFrame}
use mavcam.Tracking.Server.{listened, accepted, disconnected}
use mavcam.Local.Device.{Device}
use mavcam.Local.State.{Local, Handles, RenderMode, StorageInformation}
use mavcam.Local.Capture.{take_photo, start_video, stop_video}
use mavcam.Local.SdCard.{storage_reported, format_storage}
use mavcam.Local.Settings.Keys.{Key, name}
use mavcam.Local.Settings.Render.{render_mode_for}
use mavcam.Local.Settings.InStep.{IsInStep}
use mavcam.Local.Settings.Handlers.{handle}
use mavcam.Local.Settings.Operations.{
  set_setting, set_mode, set_timestamp, set_zoom_range, fill_settings,
}
use mavcam.Local.Settings.Reset.{reset_settings}
use mavcam.Local.Settings.Ai.{enable_tracking_point, disable_tracking, tracking_callback}

-- The rounds of the tracking server's thread, in the client that owns it.
module _ {W F : Type 0} (d : Device W F) where
  abbrev pub connected : ℕ → Local W F → Local W F
  connected fd s =
      let (t, w) = accepted d.host.net fd (s.tracking_server, s.world) in
      record s { tracking_server = t; world = w }

  abbrev pub left : ℕ → Local W F → Local W F
  left fd s =
      let (t, w) = disconnected d.host.net fd (s.tracking_server, s.world) in
      record s { tracking_server = t; world = w }

-- One thing that happens to a client. Left out are the two that put the render mode out of step, a
-- photo format that the camera refuses and a reset that it refuses, and the one that ends the tracking
-- server's thread by itself, a socket that cannot be set up.
pub data Step {W F : Type 0} (d : Device W F) (brand : String)
    : Local W F → Local W F → Type 0 where
  takes_photo : (s : Local W F) → Step d brand s (take_photo d brand s).1
  starts_video : (s : Local W F) → Step d brand s (start_video d brand s).1
  stops_video : (s : Local W F) → Step d brand s (stop_video d s).1
  formats_storage : (s : Local W F) → Step d brand s (format_storage d s).1
  hears_storage :
      (info : StorageInformation F) (s : Local W F) → Step d brand s (storage_reported d info s)
  sets_timestamp : (t : ℤ) (s : Local W F) → Step d brand s (set_timestamp d t s).1
  sets_zoom : (range : F) (s : Local W F) → Step d brand s (set_zoom_range d range s).1
  fills_settings : (s : Local W F) → Step d brand s (fill_settings s).1
  tracks_point : (x y : F) (s : Local W F) → Step d brand s (enable_tracking_point d x y s).1
  stops_tracking : (s : Local W F) → Step d brand s (disable_tracking d s).1
  sees_frame : (frame : TrackingFrame) (s : Local W F) → Step d brand s (tracking_callback frame s)
  server_listens :
      (fd : ℕ) (s : Local W F)
      → Step d brand s (record s { tracking_server = listened (some fd) s.tracking_server })
  tracker_connects : (fd : ℕ) (s : Local W F) → Step d brand s (connected d fd s)
  tracker_leaves : (fd : ℕ) (s : Local W F) → Step d brand s (left d fd s)
  sets_mode :
      (mode : Mode) (result : ServerResult) (s t : Local W F)
      → set_mode d mode s ≡ some (result, t)
      → Step d brand s t
  sets_setting :
      (k : Key) (value : String) (result : ServerResult) (s t : Local W F)
      → (k ≢ Key.photo_format) ⊎ ((t' : Local W F) → handle d k value s ≢ some (false, t'))
      → set_setting d (name k) value s ≡ some (result, t)
      → Step d brand s t
  resets :
      (result : ServerResult) (s t : Local W F)
      → reset_settings d s ≡ some (result, some ServerResult.success, t)
      → Step d brand s t

pub data Session {W F : Type 0} (d : Device W F) (brand : String) (s : Local W F)
    : Local W F → Type 0 where
  begun : Session d brand s s
  then_step : {t u : Local W F} → Session d brand s t → Step d brand t u → Session d brand s u

module _ {W F : Type 0} where
  -- The instances of the drivers and the libraries that they stand in.
  abbrev pub anchors : Local W F → Bool × Bool × Bool × Bool × Handles
  anchors s =
      (s.has_mav_camera, s.has_ir_camera, s.has_render_bridge, s.has_storage_manager, s.handles)

  -- The thread of the tracking server is to be joined exactly while the server runs.
  abbrev pub IsJoined : Local W F → Type 0
  IsJoined s = s.tracking_server.joinable ≡ s.tracking_server.running

  -- From s to t, the drivers are kept, and the tracking server's thread can still be joined.
  pub record Holds (s t : Local W F) : Type 0 where
    pub anchored : anchors t ≡ anchors s
    pub joined : IsJoined s → IsJoined t

  -- So is whether the render mode is in step.
  pub record Keeps (s t : Local W F) : Type 0 where
    pub asked : render_mode_for t.settings ≡ render_mode_for s.settings
    pub shown : t.render_mode ≡ s.render_mode
    pub holds : Holds s t

  -- A client that is up: each instance stands in a loaded library, the tracking server can be destroyed,
  -- and the render mode is the one that the settings ask for.
  pub record IsAlive (s : Local W F) : Type 0 where
    pub camera : s.has_mav_camera ≡ true
    pub camera_loaded : s.handles.camera ≡ true
    pub render : s.has_render_bridge ≡ true
    pub render_loaded : s.handles.render ≡ true
    pub storage : s.has_storage_manager ≡ true
    pub storage_loaded : s.handles.storage ≡ true
    pub ir_loaded : s.handles.ir ≡ s.has_ir_camera
    pub joined : IsJoined s
    pub in_step : IsInStep s
