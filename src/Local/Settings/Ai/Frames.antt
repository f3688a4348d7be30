-- ===== src/Local/Settings/Ai/Frames.antt =====
-- Which frames of the tracker are left after set_ai_function.
use mavcam.Prelude.{
  ◌≡◌, ◌∙◌, subst, Bool, true, false, not, ◌||◌, Option, none, some, String, List, ◌∷◌, str_eq,
  if◌then◌else◌, if_rule, if_cases, arith,
}
use mavcam.Prelude.Text.{append_text}
use mavcam.Tracking.Frame.{TrackingFrame}
use mavcam.Tracking.Server.{TrackingServer, ThreadAct, start, enable_detection}
use mavcam.Local.Device.{Device}
use mavcam.Local.State.{Local, set_entry}
use mavcam.Local.Settings.Ai.{
  tracking_address, tracking_port, detection_service, tracking_service, meanwhile, stop_server,
  stop_service, start_service, clear_tracking_frame, ai_serve, ai_on, set_ai_function,
}
use mavcam.Local.Settings.Ai.Meanwhile.{
  Silent, Keeps, SendsOnly, meanwhile-Keeps, meanwhile-reported, meanwhile-silent,
  stop_service-silent, ai_off-silent,
}

module _ {W F : Type 0} (P : TrackingFrame → Bool → Type 0) where
  -- What is true of the frame after an answer, if there is one.
  abbrev HasFrame : Option (Bool × Local W F) → Type 0
  HasFrame none = Unit {0}
  HasFrame (some (_, t)) = P t.tracking_frame t.has_tracking_frame

module _ {W F : Type 0} (d : Device W F) (P : TrackingFrame → Bool → Type 0)
    (keeps : (s : Local W F)
      → P s.tracking_frame s.has_tracking_frame
      → P (meanwhile d s).tracking_frame (meanwhile d s).has_tracking_frame) where
  -- What the thread keeps of the frame while the client waits, ai_serve and ai_on keep.
  ai_serve-frames :
      (mode service : String) (s : Local W F)
      → P s.tracking_frame s.has_tracking_frame
      → (let (_, t) = ai_serve d mode service s in P t.tracking_frame t.has_tracking_frame)
  unfolding ai_serve start_service stop_server
  ai_serve-frames mode service s h =
      let w = (d.host.system (append_text "systemctl start " service) s.world).1 in
      let s' = meanwhile d (record s { world = w }) in
      let begun = keeps (record s { world = w }) h in
      let (_, t, w') = enable_detection d.host.net (s'.tracking_server, s'.world) in
      if_rule (λ (r : Bool × Local W F). P r.1.tracking_frame r.1.has_tracking_frame)
        (not (start_service d service s).0) (keeps s' begun)
        (if_rule (λ (r : Local W F). P r.tracking_frame r.has_tracking_frame) (str_eq mode "2")
          begun begun)

  bound_rule :
      (mode to_start : String) (s : Local W F) (o : Option (Bool × TrackingServer))
      → P s.tracking_frame s.has_tracking_frame
      → HasFrame P (elim o as (λ _. Option (Bool × Local W F)) [
        | none ↦ none
        | some (ok, t) ↦
            let bound = record s { tracking_server = t } in
            some (
              if ok
              then ai_serve d mode to_start bound
              else (false, set_entry "CAM_AI_FUNC" "0" bound))
      ])
  bound_rule mode to_start s none h = tt
  bound_rule mode to_start s (some (ok, t)) h =
      if_rule (λ (r : Bool × Local W F). P r.1.tracking_frame r.1.has_tracking_frame) ok
        (ai_serve-frames mode to_start (record s { tracking_server = t }) h) h

  ai_on-frames :
      (mode to_start to_stop : String) (s : Local W F)
      → P (stop_service d to_stop s).tracking_frame (stop_service d to_stop s).has_tracking_frame
      → HasFrame P (ai_on d mode to_start to_stop s)
  unfolding ai_on
  ai_on-frames mode to_start to_stop s h =
      let s' = stop_service d to_stop s in
      if_rule (HasFrame P) s'.tracking_server.running (ai_serve-frames mode to_start s' h)
        (bound_rule mode to_start s' (start tracking_address tracking_port s'.tracking_server) h)

module _ {W F : Type 0} (d : Device W F) where
  -- Where no frame comes while it waits, set_ai_function leaves none.
  pub set_ai_function-silent :
      (mode : String) (s t : Local W F) (ok : Bool)
      → Silent d
      → (str_eq mode "0" || str_eq mode "1" || str_eq mode "2") ≡ true
      → set_ai_function d mode s ≡ some (ok, t)
      → t.has_tracking_frame ≡ false
  unfolding set_ai_function clear_tracking_frame
  set_ai_function-silent mode s t ok quiet known h = subst (HasFrame (λ f has. has ≡ false)) h (
      if_cases (HasFrame (λ f has. has ≡ false)) (str_eq mode "0") (λ _. ai_off-silent d s quiet)
        λ a.
          if_cases (HasFrame (λ f has. has ≡ false)) (str_eq mode "1")
            (λ _. on mode detection_service tracking_service)
            λ b.
              if_cases (HasFrame (λ f has. has ≡ false)) (str_eq mode "2")
                (λ _. on mode tracking_service detection_service) λ c. absurd (ground arith))
    where
      cleared : Local W F
      cleared = clear_tracking_frame d s

      keeps :
          (s : Local W F)
          → s.has_tracking_frame ≡ false
          → (meanwhile d s).has_tracking_frame ≡ false
      keeps s h = meanwhile-silent d s quiet ∙ h

      on :
          (mode to_start to_stop : String)
          → HasFrame (λ f has. has ≡ false) (ai_on d mode to_start to_stop cleared)
      on mode to_start to_stop =
          ai_on-frames d (λ f has. has ≡ false) keeps mode to_start to_stop cleared
            (stop_service-silent d to_stop cleared quiet)

  -- A frame that the running server gets while the detection service is told to stop is still the one kept
  -- when the tracking mode is entered, where no other comes, although the frame was cleared first.
  pub late_frame_stays :
      (frame : TrackingFrame) (rest : List ThreadAct) (s t : Local W F) (ok : Bool)
      → SendsOnly d frame
      → s.tracking_server.running ≡ true
      → let (_, w) = d.host.system "systemctl stop object_detection.service" s.world in
        (d.host.thread_acts w).0 ≡ ThreadAct.reports frame ∷ rest
        → set_ai_function d "2" s ≡ some (ok, t)
        → Keeps frame t.tracking_frame t.has_tracking_frame
  unfolding set_ai_function clear_tracking_frame stop_service
  late_frame_stays frame rest s t ok only runs comes h =
      let cleared = clear_tracking_frame d s in
      let w = (d.host.system "systemctl stop object_detection.service" s.world).1 in
      subst (HasFrame (Keeps frame)) h (
        ai_on-frames d (Keeps frame) (meanwhile-Keeps d frame only) "2" tracking_service
          detection_service cleared
          (meanwhile-reported d (record cleared { world = w }) frame rest only runs comes))
