-- ===== src/Local/Session/Kept.antt =====
-- The operations of the local client that touch neither the drivers nor what the render mode depends on.
use mavcam.Prelude.{◌∙◌, refl, some, ℕ, not, String, if_rule, arith}
use mavcam.Prelude.Int.{ℤ}
use mavcam.Results.{ServerResult}
use mavcam.Tracking.Frame.{TrackingFrame}
use mavcam.Tracking.Server
use mavcam.Tracking.Server.{send_control_command, listened, accepted, disconnected}
use mavcam.Local.Device.{Device}
use mavcam.Local.State.{Local, SensorMode, StorageInformation, call}
use mavcam.Local.Capture.{
  take_photo, start_video, stop_video, next_photo, next_video, shoot, record_video, end_video,
}
use mavcam.Local.Capture.Guards.{with_storage_rule}
use mavcam.Local.SdCard.{storage_reported, check_sdcard_status, card_lost, format_storage}
use mavcam.Local.Settings.Operations.{set_timestamp, set_zoom_range, fill_settings}
use mavcam.Local.Settings.Ai.{enable_tracking_point, disable_tracking, tracking_callback}
use mavcam.Local.Settings.InStep.{render_mode_for-touch}
use mavcam.Local.Session.{connected, left, Keeps}

module _ {W F : Type 0} where
  pub Keeps-same : (s : Local W F) → Keeps s s
  Keeps-same s = record {
    asked = refl;
    shown = refl;
    holds = record { anchored = refl; joined = λ j. j };
  }

  pub Keeps-trans : (s t u : Local W F) → Keeps s t → Keeps t u → Keeps s u
  Keeps-trans s t u a b = record {
    asked = b.asked ∙ a.asked;
    shown = b.shown ∙ a.shown;
    holds = record {
      anchored = b.holds.anchored ∙ a.holds.anchored;
      joined = λ j. b.holds.joined (a.holds.joined j);
    };
  }

module _ {W F : Type 0} (d : Device W F) (brand : String) where
  shoot-Keeps :
      (mode : SensorMode) (directory : String) (index : ℕ) (s : Local W F)
      → Keeps s (shoot d brand mode directory index s).1
  unfolding shoot
  shoot-Keeps SensorMode.normal directory index s =
      let touched = render_mode_for-touch "CAM_PHOTO_FMT" s.settings in ground arith
  shoot-Keeps SensorMode.ir directory index s = ground arith
  shoot-Keeps SensorMode.dual directory index s =
      let touched = render_mode_for-touch "CAM_PHOTO_FMT" s.settings in ground arith

  pub take_photo-Keeps : (s : Local W F) → Keeps s (take_photo d brand s).1
  unfolding take_photo next_photo
  take_photo-Keeps s =
      with_storage_rule d (λ _. Keeps s) (next_photo d brand) s (Keeps-same s) (Keeps-same s)
        (λ w. ground arith)
        λ directory w.
          let (index, s') = call d.host.get_file_index (record s { world = w }) in
          let kept = shoot-Keeps s.sensor_mode directory index s' in ground arith

  record_video-Keeps :
      (mode : SensorMode) (directory : String) (index : ℕ) (s : Local W F)
      → Keeps s (record_video d brand mode directory index s).1
  unfolding record_video
  record_video-Keeps SensorMode.normal directory index s = ground arith
  record_video-Keeps SensorMode.ir directory index s = ground arith
  record_video-Keeps SensorMode.dual directory index s = ground arith

  pub start_video-Keeps : (s : Local W F) → Keeps s (start_video d brand s).1
  unfolding start_video next_video
  start_video-Keeps s =
      with_storage_rule d (λ _. Keeps s) (next_video d brand) s (Keeps-same s) (Keeps-same s)
        (λ w. ground arith)
        λ directory w.
          let (index, s') = call d.host.get_file_index (record s { world = w }) in
          let kept = record_video-Keeps s.sensor_mode directory index s' in ground arith

module _ {W F : Type 0} (d : Device W F) where
  end_video-Keeps : (mode : SensorMode) (s : Local W F) → Keeps s (end_video d mode s).1
  unfolding end_video
  end_video-Keeps SensorMode.normal s = ground arith
  end_video-Keeps SensorMode.ir s = ground arith
  end_video-Keeps SensorMode.dual s = ground arith

  pub stop_video-Keeps : (s : Local W F) → Keeps s (stop_video d s).1
  unfolding stop_video
  stop_video-Keeps s =
      let ended = end_video-Keeps s.sensor_mode s in
      if_rule (λ (r : ServerResult × Local W F). Keeps s r.1) (not s.has_mav_camera) (Keeps-same s)
        (if_rule (λ (r : ServerResult × Local W F). Keeps s r.1) (not s.is_recording_video)
          (Keeps-same s) ended)

  pub format_storage-Keeps : (s : Local W F) → Keeps s (format_storage d s).1
  unfolding format_storage
  format_storage-Keeps s = ground arith

  pub storage_reported-Keeps :
      (info : StorageInformation F) (s : Local W F) → Keeps s (storage_reported d info s)
  unfolding storage_reported check_sdcard_status card_lost
  storage_reported-Keeps info s =
      let stopped = stop_video-Keeps (record s { storage = info }) in ground arith

  pub set_timestamp-Keeps : (t : ℤ) (s : Local W F) → Keeps s (set_timestamp d t s).1
  unfolding set_timestamp
  set_timestamp-Keeps t s = ground arith

  pub set_zoom_range-Keeps : (range : F) (s : Local W F) → Keeps s (set_zoom_range d range s).1
  unfolding set_zoom_range
  set_zoom_range-Keeps range s = ground arith

  pub enable_tracking_point-Keeps :
      (x y : F) (s : Local W F) → Keeps s (enable_tracking_point d x y s).1
  unfolding enable_tracking_point Server.enable_tracking_point send_control_command
  enable_tracking_point-Keeps x y s =
      let touched = render_mode_for-touch "CAM_MODE" s.settings in ground arith

  pub disable_tracking-Keeps : (s : Local W F) → Keeps s (disable_tracking d s).1
  unfolding disable_tracking Server.disable_tracking send_control_command
  disable_tracking-Keeps s = ground arith

  pub connected-Keeps : (fd : ℕ) (s : Local W F) → Keeps s (connected d fd s)
  unfolding accepted
  connected-Keeps fd s = ground arith

  pub left-Keeps : (fd : ℕ) (s : Local W F) → Keeps s (left d fd s)
  unfolding disconnected
  left-Keeps fd s = ground arith

module _ {W F : Type 0} where
  pub fill_settings-Keeps : (s : Local W F) → Keeps s (fill_settings s).1
  unfolding fill_settings
  fill_settings-Keeps s = let touched = render_mode_for-touch "CAM_MODE" s.settings in ground arith

  pub tracking_callback-Keeps :
      (frame : TrackingFrame) (s : Local W F) → Keeps s (tracking_callback frame s)
  unfolding tracking_callback
  tracking_callback-Keeps frame s = ground arith

  pub listened-Keeps :
      (fd : ℕ) (s : Local W F)
      → Keeps s (record s { tracking_server = listened (some fd) s.tracking_server })
  unfolding listened
  listened-Keeps fd s = ground arith
