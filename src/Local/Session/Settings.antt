-- ===== src/Local/Session/Settings.antt =====
-- The settings, the mode and the reset of the local client, in a session.
use mavcam.Prelude.{
  ◌≡◌, ◌≢◌, ◌⊎◌, ◌∙◌, refl, sym, ap, subst, inl, inr, Bool, true, false, Option, none, some, String,
  contains, Bool-cases, Option-cases, if◌then◌else◌, if_rule, arith,
}
use mavcam.Results.{ServerResult}
use mavcam.Camera.Types.{Mode}
use mavcam.Local.Device.{Device}
use mavcam.Local.State.{Local, call, store, set_entry}
use mavcam.Local.Settings.Keys.{Key, name, key_of-name, refreshes}
use mavcam.Local.Settings.Render.{init_render_mode}
use mavcam.Local.Settings.InStep.{
  IsInStep, init_render_mode-IsInStep, accept-IsInStep, set_setting-IsInStep,
}
use mavcam.Local.Settings.Written.{set_setting-handled}
use mavcam.Local.Settings.Handlers.{handle, set_camera_display_mode}
use mavcam.Local.Settings.Operations.{remember, accept, apply_setting, set_setting, set_mode}
use mavcam.Local.Settings.Reset.{put, put_all, assign_defaults, run_reset, reset_settings}
use mavcam.Local.Settings.Ai.{set_ai_function}
use mavcam.Local.Settings.Ai.Meanwhile.{SetsUp}
use mavcam.Local.Session.{Holds, Keeps, IsAlive}
use mavcam.Local.Session.Handlers.{AnswersKeep, handle-Holds, set_ai_function-Keeps}

module _ {W F : Type 0} where
  pub Holds-IsAlive : (s t : Local W F) → Holds s t → IsInStep t → IsAlive s → IsAlive t
  Holds-IsAlive s t holds step alive =
      let joined = holds.joined alive.joined in
      let anchored = holds.anchored in
      record {
        camera = ground arith;
        camera_loaded = ground arith;
        render = ground arith;
        render_loaded = ground arith;
        storage = ground arith;
        storage_loaded = ground arith;
        ir_loaded = ground arith;
        joined = joined;
        in_step = step;
      }

  Keeps-IsInStep : (s t : Local W F) → Keeps s t → IsInStep s → IsInStep t
  Keeps-IsInStep s t kept step = kept.shown ∙ step ∙ sym kept.asked

  pub Keeps-IsAlive : (s t : Local W F) → Keeps s t → IsAlive s → IsAlive t
  Keeps-IsAlive s t kept alive =
      Holds-IsAlive s t kept.holds (Keeps-IsInStep s t kept alive.in_step) alive

module _ {W F : Type 0} (d : Device W F) (up : SetsUp d) where
  remember-Holds : (k : Key) (id value : String) (s : Local W F) → Holds s (remember d k id value s)
  unfolding remember store
  remember-Holds Key.ai_function id value s = record { anchored = refl; joined = λ j. j }
  remember-Holds _ id value s = record { anchored = refl; joined = λ j. j }

  accept-Holds :
      (k : Key) (id value : String) (s t : Local W F) → Holds s t → Holds s (accept d k id value t)
  unfolding accept remember store init_render_mode
  accept-Holds k id value s t holds =
      let stored = remember-Holds k id value (set_entry id value t) in
      let kept : Holds s (remember d k id value (set_entry id value t)) = record {
        anchored = stored.anchored ∙ holds.anchored;
        joined = λ j. stored.joined (holds.joined j);
      } in
      if_rule (Holds s) (refreshes k) (record { anchored = kept.anchored; joined = kept.joined })
        kept

  set_camera_display_mode-Keeps :
      (value : String) (s t : Local W F) (ok : Bool)
      → set_camera_display_mode d value s ≡ some (ok, t)
      → Keeps s t
  unfolding set_camera_display_mode
  set_camera_display_mode-Keeps value s t ok h = ground arith

  assign_defaults-Holds : (s : Local W F) → Holds s (assign_defaults d s)
  unfolding assign_defaults put_all put store
  assign_defaults-Holds s = record { anchored = refl; joined = λ j. j }

  handle-then_Holds :
      (k : Key) (value : String) (s t : Local W F) (ok : Bool)
      → handle d k value s ≡ some (ok, t)
      → Holds s t
  unfolding handle
  handle-then_Holds Key.ai_function value s t ok h =
      (subst (AnswersKeep s) h (set_ai_function-Keeps d value s up)).holds
  handle-then_Holds k value s t ok h = handle-Holds d k value s t ok (λ e. absurd (ground arith)) h

  abbrev answer_state : Local W F → Option (ServerResult × Local W F) → Local W F
  answer_state s none = s
  answer_state s (some (_, t)) = t

  -- A setting that is not refused raw photos.
  abbrev Agreed : Key → String → Local W F → Type 0
  Agreed k value s =
      (k ≢ Key.photo_format) ⊎ ((t : Local W F) → handle d k value s ≢ some (false, t))

  answered-IsInStep :
      (k : Key) (value : String) (s t : Local W F) (ok : Bool)
      → k ≢ Key.ai_function
      → Agreed k value s
      → s.has_mav_camera ≡ true
      → contains (name k) s.settings ≡ true
      → handle d k value s ≡ some (ok, t)
      → IsInStep s
      → IsInStep (if ok then accept d k (name k) value t else t)
  answered-IsInStep k value s t ok other agreed camera known h step =
      let not_refused : (k ≢ Key.photo_format) ⊎ (ok ≡ true) = elim (Bool-cases ok) [
        | inl e ↦ inr e
        | inr e ↦ elim agreed [ inl n ↦ inl n | inr n ↦ absurd (n t (h ∙ ap (λ b. some (b, t)) e)) ]
      ] in
      let (s', e, stays) =
        set_setting-IsInStep d k value s t ok other not_refused camera known h step in
      let e' = set_setting-handled d k value s t ok camera known h in
      subst IsInStep (ap (answer_state s) (sym e ∙ e')) stays

  handled-IsInStep :
      (k : Key) (value : String) (s t : Local W F) (ok : Bool)
      → Agreed k value s
      → s.has_mav_camera ≡ true
      → contains (name k) s.settings ≡ true
      → handle d k value s ≡ some (ok, t)
      → IsInStep s
      → IsInStep (if ok then accept d k (name k) value t else t)
  unfolding handle
  handled-IsInStep Key.ai_function value s t ok agreed camera known h step =
      let kept = subst (AnswersKeep s) h (set_ai_function-Keeps d value s up) in
      let stays = Keeps-IsInStep s t kept step in
      if_rule IsInStep ok (accept-IsInStep d Key.ai_function value t (inr stays)) stays
  handled-IsInStep k value s t ok agreed camera known h step =
      answered-IsInStep k value s t ok (λ e. absurd (ground arith)) agreed camera known h step

  run_reset-IsInStep :
      (s t : Local W F) → run_reset d s ≡ some (ServerResult.success, t) → Holds s t × IsInStep t
  unfolding run_reset init_render_mode
  run_reset-IsInStep s t h =
      let reset = (call d.rgb.reset_settings s).1 in
      let assigned = assign_defaults d reset in
      let assigns = assign_defaults-Holds reset in
      elim (Option-cases (set_ai_function d "0" assigned)) [
        | inl e ↦ absurd (ground arith)
        | inr ((ok, ai), e) ↦
            let kept =
              (subst (AnswersKeep assigned) e (set_ai_function-Keeps d "0" assigned up)).holds in
            elim (Option-cases (set_camera_display_mode d "0" (init_render_mode ai))) [
              | inl e' ↦ absurd (ground arith)
              | inr ((ok', shown), e') ↦
                  let display =
                    set_camera_display_mode-Keeps "0" (init_render_mode ai) shown ok' e' in
                  let same : shown ≡ t = ground arith in
                  subst (λ x. Holds s x × IsInStep x) same
                    (
                      record {
                        anchored = display.holds.anchored ∙ kept.anchored ∙ assigns.anchored;
                        joined = λ j. display.holds.joined (kept.joined (assigns.joined j));
                      },
                      Keeps-IsInStep (init_render_mode ai) shown display
                          (init_render_mode-IsInStep ai),
                    )
            ]
      ]

  pub reset_settings-IsInStep :
      (result : ServerResult) (s t : Local W F)
      → reset_settings d s ≡ some (result, some ServerResult.success, t)
      → Holds s t × IsInStep t
  unfolding reset_settings put store
  reset_settings-IsInStep result s t h =
      let begun = put d "CAM_MODE" "0" (record s { is_reseting = true }) in
      elim (Option-cases (run_reset d begun)) [
        | inl e ↦ absurd (ground arith)
        | inr ((final, s'), e) ↦
            let e' : run_reset d begun ≡ some (ServerResult.success, s') = ground arith in
            let same : record s' { is_reseting = false } ≡ t = ground arith in
            let (holds, step) = run_reset-IsInStep begun s' e' in
            subst (λ x. Holds s x × IsInStep x) same
              (record { anchored = holds.anchored; joined = λ j. holds.joined j }, step)
      ]

  pub set_setting-IsAlive :
      (k : Key) (value : String) (result : ServerResult) (s t : Local W F)
      → Agreed k value s
      → set_setting d (name k) value s ≡ some (result, t)
      → IsAlive s
      → IsAlive t
  unfolding set_setting apply_setting
  set_setting-IsAlive k value result s t agreed h alive =
      elim (Bool-cases (contains (name k) s.settings)) [
        | inr e ↦ let same : s ≡ t = ground (arith, alive.camera) in subst IsAlive same alive
        | inl known ↦ elim (Option-cases (handle d k value s)) [
          | inl e ↦ absurd (ground (arith, alive.camera, key_of-name k))
          | inr ((ok, s'), e) ↦
              let done = set_setting-handled d k value s s' ok alive.camera known e in
              let holds = handle-then_Holds k value s s' ok e in
              let after = if ok then accept d k (name k) value s' else s' in
              subst IsAlive (ap (answer_state s) (sym done ∙ h)) (
                Holds-IsAlive s after
                  (if_rule (Holds s) ok (accept-Holds k (name k) value s s' holds) holds)
                  (handled-IsInStep k value s s' ok agreed alive.camera known e alive.in_step)
                  alive)
        ]
      ]

  pub set_mode-IsAlive :
      (mode : Mode) (result : ServerResult) (s t : Local W F)
      → set_mode d mode s ≡ some (result, t)
      → IsAlive s
      → IsAlive t
  unfolding set_mode
  set_mode-IsAlive Mode.photo result s t h alive =
      set_setting-IsAlive Key.mode "0" result s t (inl (λ e. absurd (ground arith))) h alive
  set_mode-IsAlive _ result s t h alive =
      set_setting-IsAlive Key.mode "1" result s t (inl (λ e. absurd (ground arith))) h alive
