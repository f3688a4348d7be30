-- ===== src/Local/Session/Handlers.antt =====
-- set_setting of the local client and its handlers: what they leave as it was.
use mavcam.Prelude.{
  sym, ap, not, ◌∙◌, ◌≡◌, ◌≢◌, refl, Bool, false, Option, none, some, String, if_rule, str_eq,
  if◌then◌else◌, arith,
}
use mavcam.Prelude.Int.{ℤ}
use mavcam.Tracking.Server.{TrackingServer, start, enable_detection, send_control_command}
use mavcam.Local.Device.{Device}
use mavcam.Local.State.{Local, set_entry}
use mavcam.Local.Settings.Ai.{
  tracking_address, tracking_port, detection_service, tracking_service, set_ai_function, ai_on,
  ai_off, ai_serve, clear_tracking_frame, stop_service, start_service, stop_server, meanwhile,
}
use mavcam.Prelude.Text.{append_text}
use mavcam.Local.Settings.Render.{render_mode_for}
use mavcam.Local.Settings.Ai.Meanwhile.{
  SetsUp, meanwhile-life, stop_server-joined, stop_server-down, ai_off-TurnedOff, ai_off-joined,
}
use mavcam.Local.Settings.Keys.{Key}
use mavcam.Local.Settings.InStep.{render_mode_for-insert}
use mavcam.Local.Settings.Handlers.{
  handle, set_camera_mode, set_camera_sensor_mode, set_camera_display_mode, set_photo_resolution,
  set_video_resolution, set_video_format, set_photo_quality, set_photo_format,
  set_whitebalance_mode, set_exposure_mode, set_exposure_value, set_iso, set_shutter_speed,
  set_metering_mode, set_sharpness, set_ae_lock, set_ir_palette, set_ir_ffc_mode, set_ir_ffc,
}
use mavcam.Local.Session.{Holds, Keeps}
use mavcam.Local.Session.Kept.{Keeps-same, Keeps-trans}

module _ {W F : Type 0} where
  abbrev pub AnswersKeep : Local W F → Option (Bool × Local W F) → Type 0
  AnswersKeep s none = Unit {0}
  AnswersKeep s (some (_, t)) = Keeps s t

  answered-Holds :
      (s t : Local W F) (ok : Bool) (r : Bool × Local W F)
      → Holds s r.1
      → some r ≡ some (ok, t)
      → Holds s t
  answered-Holds s t ok r holds h = ground arith

  AnswersKeep-after :
      (s t : Local W F) (o : Option (Bool × Local W F))
      → Keeps s t
      → AnswersKeep t o
      → AnswersKeep s o
  AnswersKeep-after s t none first later = tt
  AnswersKeep-after s t (some (_, u)) first later = Keeps-trans s t u first later

module _ {W F : Type 0} (d : Device W F) where
  whitebalance-Holds : (mode : String) (s : Local W F) → Holds s (set_whitebalance_mode d mode s).1
  unfolding set_whitebalance_mode
  whitebalance-Holds mode s = if_rule P (str_eq mode "0") (moved refl) (
      if_rule P (str_eq mode "1") (moved refl) (
        if_rule P (str_eq mode "2") (moved refl) (
          if_rule P (str_eq mode "3") (moved refl) (
            if_rule P (str_eq mode "4") (moved refl)
              (if_rule P (str_eq mode "5") (moved refl) (moved refl))))))
    where
      P : Bool × Local W F → Type 0
      P r = Holds s r.1

      moved : {w : W} → w ≡ w → Holds s (record s { world = w })
      moved same = record { anchored = refl; joined = λ j. j }

  video_format-Holds : (value : String) (s : Local W F) → Holds s (set_video_format d value s).1
  unfolding set_video_format
  video_format-Holds value s = ground arith

  photo_format-Holds : (value : String) (s : Local W F) → Holds s (set_photo_format d value s).1
  unfolding set_photo_format
  photo_format-Holds value s = ground arith

  pub handle-Holds :
      (k : Key) (value : String) (s t : Local W F) (ok : Bool)
      → k ≢ Key.ai_function
      → handle d k value s ≡ some (ok, t)
      → Holds s t
  unfolding handle set_camera_mode set_camera_sensor_mode set_camera_display_mode
      set_photo_resolution set_video_resolution set_video_format set_photo_quality set_photo_format
      set_whitebalance_mode set_exposure_mode set_exposure_value set_iso set_shutter_speed
      set_metering_mode set_sharpness set_ae_lock set_ir_palette set_ir_ffc_mode set_ir_ffc
  handle-Holds Key.ai_function value s t ok n h = absurd (n refl)
  handle-Holds Key.mode value s t ok n h = ground arith
  handle-Holds Key.sensor_mode value s t ok n h = ground arith
  handle-Holds Key.display_mode value s t ok n h = ground arith
  handle-Holds Key.photo_resolution value s t ok n h = ground arith
  handle-Holds Key.video_resolution value s t ok n h = ground arith
  handle-Holds Key.video_format value s t ok n h =
      answered-Holds s t ok _ (video_format-Holds value s) h
  handle-Holds Key.photo_quality value s t ok n h = ground arith
  handle-Holds Key.photo_format value s t ok n h =
      answered-Holds s t ok _ (photo_format-Holds value s) h
  handle-Holds Key.white_balance value s t ok n h =
      answered-Holds s t ok _ (whitebalance-Holds value s) h
  handle-Holds Key.exposure_mode value s t ok n h = ground arith
  handle-Holds Key.exposure_value value s t ok n h = ground arith
  handle-Holds Key.iso value s t ok n h = ground arith
  handle-Holds Key.shutter_speed value s t ok n h = ground arith
  handle-Holds Key.metering value s t ok n h = ground arith
  handle-Holds Key.sharpness value s t ok n h = ground arith
  handle-Holds Key.ae_lock value s t ok n h = ground arith
  handle-Holds Key.ir_palette value s t ok n h = ground arith
  handle-Holds Key.ir_ffc_mode value s t ok n h = ground arith
  handle-Holds Key.ir_ffc value s t ok n h = ground arith

  -- In a client whose tracking server can set its socket up.
  meanwhile-Keeps : (s : Local W F) → SetsUp d → Keeps s (meanwhile d s)
  unfolding meanwhile
  meanwhile-Keeps s up =
      let (running, joinable) = meanwhile-life d s up in
      record {
        asked = refl;
        shown = refl;
        holds = record { anchored = refl; joined = λ j. joinable ∙ j ∙ sym running };
      }

  set_entry-Keeps : (value : String) (s : Local W F) → Keeps s (set_entry "CAM_AI_FUNC" value s)
  set_entry-Keeps value s = record {
    asked = render_mode_for-insert "CAM_AI_FUNC" value s.settings refl refl refl;
    shown = refl;
    holds = record { anchored = refl; joined = λ j. j };
  }

  called-Keeps : (w : W) (s : Local W F) → Keeps s (record s { world = w })
  called-Keeps w s = record {
    asked = refl;
    shown = refl;
    holds = record { anchored = refl; joined = λ j. j };
  }

  stop_service-Keeps :
      (service : String) (s : Local W F) → SetsUp d → Keeps s (stop_service d service s)
  unfolding stop_service
  stop_service-Keeps service s up =
      let w = (d.host.system (append_text "systemctl stop " service) s.world).1 in
      let told = record s { world = w } in
      Keeps-trans s told (stop_service d service s) (called-Keeps w s) (meanwhile-Keeps told up)

  start_service-Keeps :
      (service : String) (s : Local W F) → SetsUp d → Keeps s (start_service d service s).1
  unfolding start_service
  start_service-Keeps service s up =
      let w = (d.host.system (append_text "systemctl start " service) s.world).1 in
      let told = record s { world = w } in
      Keeps-trans s told (start_service d service s).1 (called-Keeps w s) (meanwhile-Keeps told up)

  stop_server-Keeps : (s : Local W F) → SetsUp d → Keeps s (stop_server d s)
  unfolding stop_server meanwhile
  stop_server-Keeps s up = record {
    asked = refl;
    shown = refl;
    holds = record {
      anchored = refl;
      joined = λ j. stop_server-joined d s up j ∙ sym (stop_server-down d s);
    };
  }

  ai_off-Keeps : (s : Local W F) → SetsUp d → Keeps s (ai_off d (clear_tracking_frame d s))
  ai_off-Keeps s up =
      let off = ai_off-TurnedOff d s in
      record {
        asked =
            ap render_mode_for off.settings
            ∙ render_mode_for-insert "CAM_AI_FUNC" "0" s.settings refl refl refl;
        shown = off.render_mode;
        holds = record {
          anchored = ground (arith, off);
          joined = λ j. ai_off-joined d s up j ∙ sym off.down;
        };
      }

  detecting-Keeps :
      (mode : String) (s : Local W F)
      → let (_, t, w) = enable_detection d.host.net (s.tracking_server, s.world) in
        Keeps s (if str_eq mode "2" then record s { tracking_server = t; world = w } else s)
  unfolding enable_detection send_control_command
  detecting-Keeps mode s =
      if_rule (Keeps s) (str_eq mode "2")
        (record { asked = refl; shown = refl; holds = record { anchored = refl; joined = λ j. j } })
        (Keeps-same s)

  ai_serve-Keeps :
      (mode service : String) (s : Local W F) → SetsUp d → Keeps s (ai_serve d mode service s).1
  unfolding ai_serve
  ai_serve-Keeps mode service s up =
      let s' = (start_service d service s).1 in
      let begun = start_service-Keeps service s up in
      let (_, t, w) = enable_detection d.host.net (s'.tracking_server, s'.world) in
      let served = if str_eq mode "2" then record s' { tracking_server = t; world = w } else s' in
      let stopped = stop_server d s' in
      if_rule (λ (r : Bool × Local W F). Keeps s r.1) (not (start_service d service s).0)
        (Keeps-trans s s' (set_entry "CAM_AI_FUNC" "0" stopped) begun (
          Keeps-trans s' stopped (set_entry "CAM_AI_FUNC" "0" stopped) (stop_server-Keeps s' up)
            (set_entry-Keeps "0" stopped)))
        (Keeps-trans s s' (set_entry "CAM_AI_FUNC" mode served) begun (
          Keeps-trans s' served (set_entry "CAM_AI_FUNC" mode served) (detecting-Keeps mode s')
            (set_entry-Keeps mode served)))

  -- The tracking server that start leaves can be joined if the one before could.
  bound-Keeps :
      (address : String) (port : ℤ) (s : Local W F) (ok : Bool) (u : TrackingServer)
      → start address port s.tracking_server ≡ some (ok, u)
      → Keeps s (record s { tracking_server = u })
  unfolding start
  bound-Keeps address port s ok u h = record {
    asked = refl;
    shown = refl;
    holds = record { anchored = refl; joined = λ j. ground arith };
  }

  ai_on-Keeps :
      (mode to_start to_stop : String) (s : Local W F)
      → SetsUp d
      → AnswersKeep s (ai_on d mode to_start to_stop s)
  unfolding ai_on
  ai_on-Keeps mode to_start to_stop s up =
      let s' = stop_service d to_stop s in
      let stopped = stop_service-Keeps to_stop s up in
      if_rule (AnswersKeep s) s'.tracking_server.running
        (Keeps-trans s s' (ai_serve d mode to_start s').1 stopped
          (ai_serve-Keeps mode to_start s' up))
        (started s' stopped _ refl)
    where
      started :
          (s' : Local W F)
          → Keeps s s'
          → (o : Option (Bool × TrackingServer))
          → start tracking_address tracking_port s'.tracking_server ≡ o
          → AnswersKeep s (elim o as (λ _. Option (Bool × Local W F)) [
            | none ↦ none
            | some (ok, t) ↦
                let bound = record s' { tracking_server = t } in
                some (
                  if ok
                  then ai_serve d mode to_start bound
                  else (false, set_entry "CAM_AI_FUNC" "0" bound))
          ])
      started s' stopped none h = tt
      started s' stopped (some (ok, u)) h =
          let bound = record s' { tracking_server = u } in
          let kept =
            Keeps-trans s s' bound stopped (bound-Keeps tracking_address tracking_port s' ok u h) in
          if_rule (λ (r : Bool × Local W F). Keeps s r.1) ok
            (Keeps-trans s bound (ai_serve d mode to_start bound).1 kept
              (ai_serve-Keeps mode to_start bound up))
            (Keeps-trans s bound (set_entry "CAM_AI_FUNC" "0" bound) kept
              (set_entry-Keeps "0" bound))

  pub set_ai_function-Keeps :
      (mode : String) (s : Local W F) → SetsUp d → AnswersKeep s (set_ai_function d mode s)
  unfolding set_ai_function clear_tracking_frame
  set_ai_function-Keeps mode s up = if_rule P (str_eq mode "0") (ai_off-Keeps s up) (
      if_rule P (str_eq mode "1")
        (AnswersKeep-after s cleared _ clears
          (ai_on-Keeps mode detection_service tracking_service cleared up))
        (if_rule P (str_eq mode "2")
          (AnswersKeep-after s cleared _ clears
            (ai_on-Keeps mode tracking_service detection_service cleared up))
          (Keeps-same s)))
    where
      P : Option (Bool × Local W F) → Type 0
      P = AnswersKeep s

      cleared : Local W F
      cleared = clear_tracking_frame d s

      clears : Keeps s cleared
      clears = record {
        asked = refl;
        shown = refl;
        holds = record { anchored = refl; joined = λ j. j };
      }
