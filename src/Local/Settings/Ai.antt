-- ===== src/Local/Settings/Ai.antt =====
-- The AI function: CameraLocalClient::set_ai_function, enable_tracking_point, disable_tracking and
-- tracking_callback of src/mav_client/camera_local_client.cpp. No mutex is held across set_ai_function: the
-- server's thread acts between its steps.
pub mod Meanwhile
pub mod Frames
use mavcam.Prelude.{
  ℕ, ◌-◌, Bool, true, false, not, Option, none, some, String, List, [], ◌∷◌, at, str_eq, leb,
  if◌then◌else◌,
}
use mavcam.Prelude.Int.{ℤ, pos, eqb}
use mavcam.Prelude.Text.{append_text}
use mavcam.Tracking.Frame.{TrackingFrame, empty_frame}
use mavcam.Tracking.Server.{TrackingServer, ThreadAct}
use mavcam.Tracking.Server
use mavcam.Local.Device.{Device}
use mavcam.Local.State.{Local, touch, call, set_entry}

-- kTrackingAddress, kTrackingPort and the sizes of the tracking source.
abbrev pub tracking_address : String
tracking_address = "127.0.0.1"

abbrev pub tracking_port : ℤ
tracking_port = pos 14600

abbrev pub source_width : ℕ
source_width = 1920

abbrev pub detection_service : String
detection_service = "object_detection.service"

abbrev pub tracking_service : String
tracking_service = "object_tracking.service"

-- What the client has of the tracker: the server, and the frame that the callback has kept.
pub record Tracker (W : Type 0) : Type 0 where
  pub server : TrackingServer
  pub frame : TrackingFrame
  pub has_frame : Bool
  pub world : W

module _ {W : Type 0} (net : Server.Net W) where
  unfoldable pub act : ThreadAct → Tracker W → Tracker W
  unfolding Server.listened Server.accepted Server.disconnected
  act (ThreadAct.sets_up fd) t = record t { server = Server.listened fd t.server }
  act (ThreadAct.connects fd) t =
      let (server, w) = Server.accepted net fd (t.server, t.world) in
      record t { server = server; world = w }
  act (ThreadAct.leaves fd) t =
      let (server, w) = Server.disconnected net fd (t.server, t.world) in
      record t { server = server; world = w }
  act (ThreadAct.reports frame) t = record t {
    server = record t.server { latest_frame = frame };
    frame = frame;
    has_frame = true;
  }

  -- The thread acts as long as it runs.
  unfoldable pub acts : List ThreadAct → Tracker W → Tracker W
  unfolding act
  acts [] t = t
  acts (a ∷ rest) t = acts rest (if t.server.running then act a t else t)

module _ {W F : Type 0} (d : Device W F) where
  -- The thread of the tracking server while the client waits: for a shell command, or in stop() for the
  -- thread itself. No mutex keeps it off.
  unfoldable pub meanwhile : Local W F → Local W F
  unfolding acts
  meanwhile s =
      let (list, w) = d.host.thread_acts s.world in
      let t : Tracker W = acts d.host.net list (record {
        server = s.tracking_server;
        frame = s.tracking_frame;
        has_frame = s.has_tracking_frame;
        world = w;
      }) in
      record s {
        tracking_server = t.server;
        tracking_frame = t.frame;
        has_tracking_frame = t.has_frame;
        world = t.world;
      }

  -- `_tracking_server.stop()`
  unfoldable pub stop_server : Local W F → Local W F
  unfolding meanwhile Server.stop
  stop_server s =
      let s' = meanwhile s in record s' { tracking_server = Server.stop s'.tracking_server }

  -- `stop_service`: a failure is only logged.
  unfoldable pub stop_service : String → Local W F → Local W F
  unfolding meanwhile
  stop_service service s =
      meanwhile (call (d.host.system (append_text "systemctl stop " service)) s).1

  unfoldable pub start_service : String → Local W F → Bool × Local W F
  unfolding meanwhile
  start_service service s =
      let (ret, s') = call (d.host.system (append_text "systemctl start " service)) s in
      (eqb ret (pos 0), meanwhile s')

  unfoldable pub clear_tracking_frame : Local W F → Local W F
  clear_tracking_frame s = record s { tracking_frame = empty_frame; has_tracking_frame = false }

  -- The branch of mode "0".
  unfoldable pub ai_off : Local W F → Local W F
  unfolding stop_service stop_server
  ai_off s =
      let stopped = stop_server (
        stop_service tracking_service
          (stop_service detection_service (set_entry "CAM_AI_FUNC" "0" s))) in
      record stopped {
        world =
            if stopped.has_render_bridge then d.host.clear_boxes stopped.world else stopped.world;
      }

  -- After the tracking server is up: the service, then detection in mode "2".
  unfoldable pub ai_serve : String → String → Local W F → Bool × Local W F
  unfolding start_service stop_server Server.enable_detection
  ai_serve mode service s =
      let (started, s') = start_service service s in
      let (_, t, w) = Server.enable_detection d.host.net (s'.tracking_server, s'.world) in
      if not started then (false, set_entry "CAM_AI_FUNC" "0" (stop_server s')) else (
        true,
        set_entry "CAM_AI_FUNC" mode
            (if str_eq mode "2" then record s' { tracking_server = t; world = w } else s'),
      )

  -- The branch of modes "1" and "2": `none` is std::terminate in TrackingServer::start.
  unfoldable pub ai_on : String → String → String → Local W F → Option (Bool × Local W F)
  unfolding ai_serve stop_service Server.start
  ai_on mode to_start to_stop s =
      let s' = stop_service to_stop s in
      if s'.tracking_server.running
      then some (ai_serve mode to_start s')
      else elim (Server.start tracking_address tracking_port s'.tracking_server) [
        | none ↦ none
        | some (ok, t) ↦
            let bound = record s' { tracking_server = t } in
            some (
              if ok
              then ai_serve mode to_start bound
              else (false, set_entry "CAM_AI_FUNC" "0" bound))
      ]

  unfoldable pub set_ai_function : String → Local W F → Option (Bool × Local W F)
  unfolding clear_tracking_frame ai_off ai_on
  set_ai_function mode s =
      if str_eq mode "0"
      then some (true, ai_off (clear_tracking_frame s))
      else if str_eq mode "1"
      then ai_on mode detection_service tracking_service (clear_tracking_frame s)
      else if str_eq mode "2"
      then ai_on mode tracking_service detection_service (clear_tracking_frame s)
      else some (false, s)

  -- std::max(0.0f, std::min(p, 1.0f))
  unfoldable pub clamp_unit : F → F
  clamp_unit p =
      let low = if d.host.float_lt d.host.float_one p then d.host.float_one else p in
      if d.host.float_lt d.host.float_zero low then low else d.host.float_zero

  -- One coordinate, scaled to a side of the source and kept inside it.
  unfoldable pub tracking_coordinate : F → ℕ → ℕ
  unfolding clamp_unit
  tracking_coordinate p side =
      let v = d.host.float_to_uint16 (d.host.float_mul (clamp_unit p) side) in
      if leb side v then side - 1 else v

  -- The height of the source in the current camera mode.
  abbrev pub source_height : Local W F → ℕ
  source_height s = if str_eq (at "CAM_MODE" s.settings) "0" then 1440 else 1080

  abbrev pub with_tracking : Bool × TrackingServer × W → Local W F → Bool × Local W F
  with_tracking (ok, t, w) s = (ok, record s { tracking_server = t; world = w })

  unfoldable pub enable_tracking_point : F → F → Local W F → Bool × Local W F
  unfolding tracking_coordinate Server.enable_tracking_point
  enable_tracking_point x y s =
      let touched = record s { settings = touch "CAM_MODE" s.settings } in
      with_tracking
        (Server.enable_tracking_point d.host.net (tracking_coordinate x source_width)
          (tracking_coordinate y (source_height s)) (s.tracking_server, s.world))
        touched

  unfoldable pub disable_tracking : Local W F → Bool × Local W F
  unfolding Server.disable_tracking
  disable_tracking s =
      with_tracking (Server.disable_tracking d.host.net (s.tracking_server, s.world)) s

-- tracking_callback, which the constructor installs in the tracking server.
unfoldable pub tracking_callback : {W F : Type 0} → TrackingFrame → Local W F → Local W F
tracking_callback frame s = record s { tracking_frame = frame; has_tracking_frame = true }
