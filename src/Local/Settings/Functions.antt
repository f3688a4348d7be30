-- ===== src/Local/Settings/Functions.antt =====
-- What the AI function leaves behind: set_ai_function of src/mav_client/camera_local_client.cpp.
use mavcam.Prelude.{
  ◌≡◌, ◌∙◌, refl, sym, ap, inl, inr, if_rule, Bool, true, false, not, ◌&&◌, ◌||◌, Option, some,
  String, Dict, insert, at, or_empty, lookup-insert_self, str_eq, eq_iff, if◌then◌else◌, if_cases,
  Bool-cases, arith,
}
use mavcam.Tracking.Server.{TrackingServer, start, enable_detection, send_control_command}
use mavcam.Local.Device.{Device}
use mavcam.Local.State.{Local}
use mavcam.Local.Settings.Ai.{
  tracking_address, tracking_port, detection_service, tracking_service, stop_service, start_service,
  clear_tracking_frame, ai_off, ai_serve, ai_on, set_ai_function, stop_server,
}
use mavcam.Prelude.Text.{append_text}
use mavcam.Local.Settings.Ai.Meanwhile.{
  SetsUp, meanwhile-life, stop_service-life, stop_server-joined, stop_server-down, ai_off-TurnedOff,
  ai_off-joined,
}

-- The function that the settings name and the tracking server agree with the answer.
abbrev pub Ends : {W F : Type 0} → String → Bool × Local W F → Type 0
Ends mode (ok, s) =
    (at "CAM_AI_FUNC" s.settings ≡ (if ok then mode else "0"))
    × (s.tracking_server.running ≡ (ok && not (str_eq mode "0")))
    × (s.tracking_server.joinable ≡ s.tracking_server.running)

at-insert_self : (key value : String) (m : Dict) → at key (insert key value m) ≡ value
at-insert_self key value m = ap or_empty (lookup-insert_self key value m)

module _ {W F : Type 0} (d : Device W F) (up : SetsUp d) where
  start_service-life :
      (service : String) (s : Local W F)
      → ((start_service d service s).1.tracking_server.running ≡ s.tracking_server.running)
        × ((start_service d service s).1.tracking_server.joinable ≡ s.tracking_server.joinable)
  unfolding start_service
  start_service-life service s =
      let w = (d.host.system (append_text "systemctl start " service) s.world).1 in
      meanwhile-life d (record s { world = w }) up

  ai_off-Ends :
      (s : Local W F)
      → s.tracking_server.joinable ≡ s.tracking_server.running
      → Ends "0" (true, ai_off d (clear_tracking_frame d s))
  ai_off-Ends s j =
      let off = ai_off-TurnedOff d s in
      (
        ap (at "CAM_AI_FUNC") off.settings ∙ at-insert_self "CAM_AI_FUNC" "0" s.settings,
        off.down,
        ai_off-joined d s up j ∙ sym off.down,
      )

  detecting-runs :
      (mode : String) (s : Local W F)
      → s.tracking_server.running ≡ true
      → s.tracking_server.joinable ≡ true
      → let (_, t, w) = enable_detection d.host.net (s.tracking_server, s.world) in
        let served = if str_eq mode "2" then record s { tracking_server = t; world = w } else s in
        (served.tracking_server.running ≡ true) × (served.tracking_server.joinable ≡ true)
  unfolding enable_detection send_control_command
  detecting-runs mode s r j = if_rule P (str_eq mode "2") (r, j) (r, j)
    where
      P : Local W F → Type 0
      P t = (t.tracking_server.running ≡ true) × (t.tracking_server.joinable ≡ true)

  ai_serve-Ends :
      (mode service : String) (s : Local W F)
      → str_eq mode "0" ≡ false
      → s.tracking_server.running ≡ true
      → s.tracking_server.joinable ≡ true
      → Ends mode (ai_serve d mode service s)
  unfolding ai_serve
  ai_serve-Ends mode service s m r j =
      let s' = (start_service d service s).1 in
      let (running, joinable) = start_service-life service s in
      let (runs, joins) = detecting-runs mode s' (running ∙ r) (joinable ∙ j) in
      let stopped = stop_server d s' in
      let down = stop_server-down d s' in
      if_rule (Ends mode) (not (start_service d service s).0)
        (
          at-insert_self "CAM_AI_FUNC" "0" stopped.settings,
          down,
          stop_server-joined d s' up (joinable ∙ j ∙ sym r ∙ sym running) ∙ sym down,
        )
        (at-insert_self "CAM_AI_FUNC" mode _, runs ∙ ground arith, joins ∙ sym runs)

  ai_on-Ends :
      (mode to_start to_stop : String) (s : Local W F)
      → str_eq mode "0" ≡ false
      → s.tracking_server.joinable ≡ s.tracking_server.running
      → (r : Bool × Local W F) × (ai_on d mode to_start to_stop s ≡ some r) × Ends mode r
  unfolding ai_on start
  ai_on-Ends mode to_start to_stop s m j = elim (Bool-cases s'.tracking_server.running) [
    | inl up ↦ (
      ai_serve d mode to_start s',
      ground arith,
      ai_serve-Ends mode to_start s' m up (joined ∙ up),
    )
    | inr down ↦ (
      ai_serve d mode to_start started,
      ground (arith, joined),
      ai_serve-Ends mode to_start started m refl refl,
    )
  ]
    where
      s' : Local W F
      s' = stop_service d to_stop s

      joined : s'.tracking_server.joinable ≡ s'.tracking_server.running
      joined =
          let (running, joinable) = stop_service-life d to_stop s up in joinable ∙ j ∙ sym running

      bound : TrackingServer
      bound = record s'.tracking_server {
        address = tracking_address;
        port = tracking_port;
        running = true;
        joinable = true;
      }

      started : Local W F
      started = record s' { tracking_server = bound }

  pub ai_function_result :
      (mode : String) (s : Local W F)
      → (str_eq mode "0" || str_eq mode "1" || str_eq mode "2") ≡ true
      → s.tracking_server.joinable ≡ s.tracking_server.running
      → (r : Bool × Local W F) × (set_ai_function d mode s ≡ some r) × Ends mode r
  unfolding set_ai_function clear_tracking_frame
  ai_function_result mode s known j =
      if_cases P (str_eq mode "0")
        (λ e. ((true, ai_off d cleared), refl, rw (same e) (ai_off-Ends s j)))
        λ off.
          if_cases P (str_eq mode "1")
            (λ _. ai_on-Ends mode detection_service tracking_service cleared off j)
            λ e.
              if_cases P (str_eq mode "2")
                (λ _. ai_on-Ends mode tracking_service detection_service cleared off j)
                λ e'. absurd (ground arith)
    where
      cleared : Local W F
      cleared = clear_tracking_frame d s

      P : Option (Bool × Local W F) → Type 0
      P o = (r : Bool × Local W F) × (o ≡ some r) × Ends mode r

      same : str_eq mode "0" ≡ true → mode ≡ "0"
      same e = ground (arith, eq_iff mode "0")
