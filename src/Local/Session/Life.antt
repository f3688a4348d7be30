-- ===== src/Local/Session/Life.antt =====
-- What holds of the local client throughout a session, and at its end.
use mavcam.Prelude.{◌≡◌, ◌∙◌, sym, inl, inr, true, false, some, String, Option-cases, arith}
use mavcam.Tracking.Server.{stop, destroy}
use mavcam.Local.Device.{Device}
use mavcam.Local.State.{Local}
use mavcam.Local.Settings.InStep.{IsInStep}
use mavcam.Local.Settings.Ai.{set_ai_function}
use mavcam.Local.Settings.Ai.Meanwhile.{SetsUp, ai_off-TurnedOff, ai_off-joined}
use mavcam.Local.Startup.{Startup}
use mavcam.Local.Startup.Init.{init}
use mavcam.Local.Startup.Shutdown.{
  free_ir_camera, free_render_bridge, free_storage_manager, deinit, delete_client,
  create_local_client,
}
use mavcam.Local.Startup.Lifecycle.{IsFresh, IsDown, init-IsUp, init-settled}
use mavcam.Local.Startup.InStep.{init_settings-IsInStep}
use mavcam.Local.Session.{Step, Session, IsAlive}
use mavcam.Local.Session.Kept.{
  connected-Keeps, left-Keeps, listened-Keeps, take_photo-Keeps, start_video-Keeps,
  stop_video-Keeps, format_storage-Keeps, storage_reported-Keeps, set_timestamp-Keeps,
  set_zoom_range-Keeps, enable_tracking_point-Keeps, disable_tracking-Keeps, fill_settings-Keeps,
  tracking_callback-Keeps,
}
use mavcam.Local.Session.Settings.{
  Holds-IsAlive, Keeps-IsAlive, reset_settings-IsInStep, set_setting-IsAlive, set_mode-IsAlive,
}

module _ {W F : Type 0} (d : Device W F) (up : SetsUp d) (brand : String) where
  Step-IsAlive : {s t : Local W F} → Step d brand s t → IsAlive s → IsAlive t
  Step-IsAlive (Step.takes_photo s) alive = Keeps-IsAlive s _ (take_photo-Keeps d brand s) alive
  Step-IsAlive (Step.starts_video s) alive = Keeps-IsAlive s _ (start_video-Keeps d brand s) alive
  Step-IsAlive (Step.stops_video s) alive = Keeps-IsAlive s _ (stop_video-Keeps d s) alive
  Step-IsAlive (Step.formats_storage s) alive = Keeps-IsAlive s _ (format_storage-Keeps d s) alive
  Step-IsAlive (Step.hears_storage info s) alive =
      Keeps-IsAlive s _ (storage_reported-Keeps d info s) alive
  Step-IsAlive (Step.sets_timestamp t s) alive = Keeps-IsAlive s _ (set_timestamp-Keeps d t s) alive
  Step-IsAlive (Step.sets_zoom range s) alive =
      Keeps-IsAlive s _ (set_zoom_range-Keeps d range s) alive
  Step-IsAlive (Step.fills_settings s) alive = Keeps-IsAlive s _ (fill_settings-Keeps s) alive
  Step-IsAlive (Step.tracks_point x y s) alive =
      Keeps-IsAlive s _ (enable_tracking_point-Keeps d x y s) alive
  Step-IsAlive (Step.stops_tracking s) alive = Keeps-IsAlive s _ (disable_tracking-Keeps d s) alive
  Step-IsAlive (Step.sees_frame frame s) alive =
      Keeps-IsAlive s _ (tracking_callback-Keeps frame s) alive
  Step-IsAlive (Step.server_listens fd s) alive = Keeps-IsAlive s _ (listened-Keeps fd s) alive
  Step-IsAlive (Step.tracker_connects fd s) alive = Keeps-IsAlive s _ (connected-Keeps d fd s) alive
  Step-IsAlive (Step.tracker_leaves fd s) alive = Keeps-IsAlive s _ (left-Keeps d fd s) alive
  Step-IsAlive (Step.sets_mode mode result s t h) alive =
      set_mode-IsAlive d up mode result s t h alive
  Step-IsAlive (Step.sets_setting k value result s t agreed h) alive =
      set_setting-IsAlive d up k value result s t agreed h alive
  Step-IsAlive (Step.resets result s t h) alive =
      let (holds, step) = reset_settings-IsInStep d up result s t h in
      Holds-IsAlive s t holds step alive

  Session-IsAlive : {s t : Local W F} → Session d brand s t → IsAlive s → IsAlive t
  Session-IsAlive Session.begun alive = alive
  Session-IsAlive (Session.then_step session step) alive =
      Step-IsAlive step (Session-IsAlive session alive)

module _ {W F : Type 0} (d : Device W F) (u : Startup W F) where
  init-IsAlive : (s t : Local W F) → IsFresh s → init d u s ≡ some (true, t) → IsAlive t
  init-IsAlive s t fresh h =
      let up = init-IsUp d u s t fresh h in
      let (m, settled) = init-settled d u s t h in
      record {
        camera = up.camera;
        camera_loaded = up.camera_loaded;
        render = up.render;
        render_loaded = up.render_loaded;
        storage = up.storage;
        storage_loaded = up.storage_loaded;
        ir_loaded = up.ir_loaded;
        joined = up.joined ∙ sym up.idle;
        in_step = init_settings-IsInStep d u m t settled;
      }

  delete_client_of_IsAlive :
      (s : Local W F)
      → SetsUp d
      → IsAlive s
      → (t : Local W F) × (delete_client d u s ≡ some t) × IsDown t
  unfolding delete_client deinit free_ir_camera free_render_bridge free_storage_manager destroy
      set_ai_function stop
  delete_client_of_IsAlive s up alive =
      let off = ai_off-TurnedOff d s in
      let joined = ai_off-joined d s up alive.joined in
      elim (Option-cases (delete_client d u s)) [
        | inl e ↦ absurd (ground arith)
        | inr (t, e) ↦ (t, e, ground arith)
      ]

  -- After a client was created from nothing, and through any session of photos, videos, formattings,
  -- storage reports, modes, settings, resets, tracking commands, frames and the tracker's
  -- connections, in any order, but for a refused photo format, a refused reset and a tracking server
  -- whose socket cannot be set up: the render mode is the one that the settings ask for, and the
  -- client can be deleted. Its destructor then returns, with the tracking server down and all given
  -- back but the camera of the RGB sensor.
  pub client_lasts :
      (brand : String) (s t v : Local W F)
      → SetsUp d
      → IsFresh s
      → create_local_client d u s ≡ some (true, t)
      → Session d brand t v
      → IsInStep v × ((gone : Local W F) × (delete_client d u v ≡ some gone) × IsDown gone)
  unfolding create_local_client
  client_lasts brand s t v up fresh h session = elim (Option-cases (init d u s)) [
    | inl e ↦ absurd (ground arith)
    | inr ((false, s'), e) ↦ absurd (ground arith)
    | inr ((true, s'), e) ↦
        let e' : init d u s ≡ some (true, t) = ground arith in
        let alive = Session-IsAlive d up brand session (init-IsAlive s t fresh e') in
        (alive.in_step, delete_client_of_IsAlive v up alive)
  ]
