-- ===== src/Local/Startup/InStep.antt =====
-- The camera mode and the render mode after the start-up of the local client.
use mavcam.Prelude.{
  ◌≡◌, ◌⊎◌, inl, inr, ◌∙◌, refl, sym, subst, ap, Bool, true, false, not, contains, Option, none,
  some, String, at, lookup-insert_self, or_empty, str_eq, if◌then◌else◌, arith,
}
use mavcam.Param.{get_value, set_value}
use mavcam.Local.Device.{Device, CaptureMode}
use mavcam.Local.State.{Local, call, store, set_entry}
use mavcam.Local.Settings.Render.{init_render_mode, render_mode_for}
use mavcam.Local.Settings.Handlers.{set_video_format, set_ir_palette, set_ir_ffc_mode}
use mavcam.Local.Settings.InStep.{IsInStep, init_render_mode-IsInStep, render_mode_for-insert}
use mavcam.Local.Settings.Ai.{
  set_ai_function, ai_off, clear_tracking_frame, stop_service, stop_server, meanwhile,
}
use mavcam.Local.Startup.{Startup, Load, CameraOptions}
use mavcam.Local.Startup.Camera.{choose_mode, mode_from_env, mode_stored, text_of_mode}
use mavcam.Local.Startup.Values.{init_ir_palette, init_ir_ffc_mode}
use mavcam.Local.Startup.Init.{
  assign, init_ai_function, init_ir_camera, camera_settings, ir_settings, init_settings,
}

env_known :
    (env : Option String)
    → (mode_from_env env ≡ CaptureMode.photo) ⊎ (mode_from_env env ≡ CaptureMode.video)
unfolding mode_from_env
env_known none = inl refl
env_known (some text) = ground arith

-- What a start-up leaves in the store asks for the mode that it chose.
mode_stored-again :
    (stored : String) (given given' : CaptureMode)
    → (given ≡ CaptureMode.photo) ⊎ (given ≡ CaptureMode.video)
    → mode_stored (if str_eq stored "" then text_of_mode given else stored) given'
      ≡ mode_stored stored given
mode_stored-again stored given given' known = by_test (str_eq stored "") refl known
  where
    asked : CaptureMode
    asked = if str_eq stored "0" then CaptureMode.photo else CaptureMode.video

    by_test :
        (test : Bool)
        → str_eq stored "" ≡ test
        → (given ≡ CaptureMode.photo) ⊎ (given ≡ CaptureMode.video)
        → mode_stored (if test then text_of_mode given else stored) given'
          ≡ mode_stored stored given
    by_test true e (inl p) =
        ap (λ m. mode_stored (text_of_mode m) given') p
        ∙ sym p
        ∙ sym (ap (λ test. if test then given else asked) e)
    by_test true e (inr v) =
        ap (λ m. mode_stored (text_of_mode m) given') v
        ∙ sym v
        ∙ sym (ap (λ test. if test then given else asked) e)
    by_test false e _ =
        ap (λ test. if test then given' else asked) e
        ∙ sym (ap (λ test. if test then given else asked) e)

module _ {W F : Type 0} (d : Device W F) (u : Startup W F) where
  stored_after :
      (o : CameraOptions) (s : Local W F)
      → d.host.param_opens s.world ≡ true
      → let stored = get_value "CAM_MODE" s.param in
        get_value "CAM_MODE" (choose_mode d u (o, s)).1.param
        ≡ (if str_eq stored "" then text_of_mode (mode_from_env u.env_camera_mode) else stored)
  unfolding choose_mode get_value store set_value
  stored_after o s opens = ground (
    arith,
    lookup-insert_self "CAM_MODE" (text_of_mode (mode_from_env u.env_camera_mode)) s.param.root,
  )

module _ {W F : Type 0} (d : Device W F) (u u' : Startup W F) where
  -- The camera mode that a start-up opens the camera with is the one of the setting CAM_MODE, and if
  -- the store's file can be opened, every later start-up on that store opens the camera with the same
  -- mode, whatever the environment then says.
  pub camera_mode_survives_restart :
      (o o' : CameraOptions) (s : Local W F)
      → d.host.param_opens s.world ≡ true
      → let (chosen, s') = choose_mode d u (o, s) in
        (at "CAM_MODE" s'.settings ≡ text_of_mode chosen.init_mode)
        × ((choose_mode d u' (o', s')).0.init_mode ≡ chosen.init_mode)
  unfolding choose_mode
  camera_mode_survives_restart o o' s opens =
      let given = mode_from_env u.env_camera_mode in
      let given' = mode_from_env u'.env_camera_mode in
      let stored = get_value "CAM_MODE" s.param in
      (
        ap or_empty (lookup-insert_self "CAM_MODE" _ _),
        ap (λ text. mode_stored text given') (stored_after d u o s opens)
            ∙ mode_stored-again stored given given' (env_known u.env_camera_mode),
      )

module _ {W F : Type 0} where
  abbrev Same : Local W F → Local W F → Type 0
  Same s s' =
      (render_mode_for s'.settings ≡ render_mode_for s.settings) × (s'.render_mode ≡ s.render_mode)

  Keeps : Local W F → Option (String × Local W F) → Type 0
  Keeps s none = Unit {0}
  Keeps s (some (_, s')) = Same s s'

  AllInStep : Option (Local W F) → Type 0
  AllInStep none = Unit {0}
  AllInStep (some s) = IsInStep s

  constant-Keeps : (s : Local W F) → Keeps s (some ("0", s))
  unfolding Keeps
  constant-Keeps s = (refl, refl)

  some-AllInStep : (s : Local W F) → IsInStep s → AllInStep (some s)
  unfolding AllInStep
  some-AllInStep s step = step

  Keeps-any :
      (s : Local W F) (o : Option (String × Local W F))
      → ((value : String) (s' : Local W F) → o ≡ some (value, s') → Same s s')
      → Keeps s o
  unfolding Keeps
  Keeps-any s none h = tt
  Keeps-any s (some (value, s')) h = h value s' refl

module _ {W F : Type 0} (d : Device W F) (u : Startup W F) where
  init_ir_palette-Same :
      (s s' : Local W F) (value : String) → init_ir_palette d u s ≡ some (value, s') → Same s s'
  unfolding init_ir_palette set_ir_palette store
  init_ir_palette-Same s s' value h = (ap render_mode_for (ground arith), ground arith)

  init_ir_ffc_mode-Same :
      (s s' : Local W F) (value : String) → init_ir_ffc_mode d u s ≡ some (value, s') → Same s s'
  unfolding init_ir_ffc_mode set_ir_ffc_mode store
  init_ir_ffc_mode-Same s s' value h = (ap render_mode_for (ground arith), ground arith)

  init_ai_function-Keeps : (s : Local W F) → Keeps s (init_ai_function d u s)
  unfolding init_ai_function set_ai_function ai_off clear_tracking_frame stop_service stop_server
      meanwhile Keeps
  init_ai_function-Keeps s =
      (render_mode_for-insert "CAM_AI_FUNC" "0" s.settings refl refl refl, refl)

  if_Same :
      (s : Local W F) (b : Bool) (p q : Bool × Local W F)
      → Same s p.1
      → Same s q.1
      → Same s (if b then p else q).1
  if_Same s true p q a b = a
  if_Same s false p q a b = b

  set_video_format-Same :
      (value : String) (s t : Local W F) → Same s t → Same s (set_video_format d value t).1
  unfolding set_video_format
  set_video_format-Same value s t same =
      (ap render_mode_for (ground arith) ∙ same.0, ground arith ∙ same.1)

  init_ir_camera-Same : (s : Local W F) → Same s (init_ir_camera d u s).1
  unfolding init_ir_camera
  init_ir_camera-Same s =
      if_Same s s.has_ir_camera (true, s) _ (refl, refl) (started (u.ir_library s.world))
    where
      opened : Local W F
      opened = (call u.ir_open s).1

      there : Local W F
      there = record opened { has_ir_camera = true; handles = record s.handles { ir = true } }

      format : String
      format = at "CAM_VIDFMT" s.settings

      started :
          (l : Load)
          → Same s
              (elim l as (λ _. Bool × Local W F) [
                | Load.loaded ↦
                    if not (call u.ir_open s).0
                    then (false, record opened { handles = record s.handles { ir = false } })
                    else if contains "CAM_VIDFMT" s.settings
                    then (true, (set_video_format d format there).1)
                    else (true, there)
                | _ ↦ (false, record s { handles = record s.handles { ir = false } })
              ]).1
      started Load.loaded =
          if_Same s (not (call u.ir_open s).0) _ _ (refl, refl)
            (if_Same s (contains "CAM_VIDFMT" s.settings) _ _
              (set_video_format-Same format s there (refl, refl)) (refl, refl))
      started Load.no_library = (refl, refl)
      started Load.no_symbol = (refl, refl)
      started Load.no_instance = (refl, refl)

  set_entry-IsInStep :
      (key value : String) (s : Local W F)
      → str_eq key "CAM_MODE" ≡ false
      → str_eq key "CAM_PHOTO_RES" ≡ false
      → str_eq key "CAM_VIDRES" ≡ false
      → IsInStep s
      → IsInStep (set_entry key value s)
  set_entry-IsInStep key value s a b c step =
      step ∙ sym (render_mode_for-insert key value s.settings a b c)

  assign-AllInStep :
      (key : String) (f : Local W F → Option (String × Local W F)) (s : Local W F)
      → str_eq key "CAM_MODE" ≡ false
      → str_eq key "CAM_PHOTO_RES" ≡ false
      → str_eq key "CAM_VIDRES" ≡ false
      → Keeps s (f s)
      → IsInStep s
      → AllInStep (assign d u key f s)
  unfolding Keeps AllInStep
  assign-AllInStep key f s a b c keeps step = answered_rule (f s) keeps
    where
      answered_rule :
          (o : Option (String × Local W F))
          → Keeps s o
          → AllInStep (elim o [ none ↦ none | some (value, s') ↦ some (set_entry key value s') ])
      answered_rule none k = tt
      answered_rule (some (value, s')) k =
          set_entry-IsInStep key value s' a b c (k.1 ∙ step ∙ sym k.0)

  -- One more setting after those that leave the modes in step.
  then_rule :
      (o : Option (Local W F)) (next : Local W F → Option (Local W F))
      → AllInStep o
      → ((s : Local W F) → IsInStep s → AllInStep (next s))
      → AllInStep (elim o [ none ↦ none | some s ↦ next s ])
  unfolding AllInStep
  then_rule none next h k = tt
  then_rule (some s) next h k = k s h

  ir_settings-AllInStep : (s : Local W F) → IsInStep s → AllInStep (ir_settings d u s)
  unfolding ir_settings
  ir_settings-AllInStep s step =
      then_rule (assign d u "IRCAM_PALETTE" (init_ir_palette d u) s) _
        (assign-AllInStep "IRCAM_PALETTE" (init_ir_palette d u) s refl refl refl (palette s) step)
        λ s1 step1.
          then_rule (assign d u "IRCAM_FFCMODE" (init_ir_ffc_mode d u) s1) _
            (assign-AllInStep "IRCAM_FFCMODE" (init_ir_ffc_mode d u) s1 refl refl refl (ffc s1)
              step1)
            λ s2 step2.
              then_rule (assign d u "IRCAM_FFC" (λ t. some ("0", t)) s2) _
                (assign-AllInStep "IRCAM_FFC" (λ t. some ("0", t)) s2 refl refl refl
                  (constant-Keeps s2) step2)
                λ s3 step3.
                  then_rule (assign d u "CAM_AI_FUNC" (init_ai_function d u) s3) (λ t. some t)
                    (assign-AllInStep "CAM_AI_FUNC" (init_ai_function d u) s3 refl refl refl
                      (init_ai_function-Keeps s3) step3)
                    (λ t step4. some-AllInStep t step4)
    where
      palette : (t : Local W F) → Keeps t (init_ir_palette d u t)
      palette t = Keeps-any t (init_ir_palette d u t) (λ v t' e. init_ir_palette-Same t t' v e)

      ffc : (t : Local W F) → Keeps t (init_ir_ffc_mode d u t)
      ffc t = Keeps-any t (init_ir_ffc_mode d u t) (λ v t' e. init_ir_ffc_mode-Same t t' v e)

  init_settings-AllInStep : (s : Local W F) → AllInStep (init_settings d u s)
  unfolding init_settings AllInStep
  init_settings-AllInStep s = then_known (camera_settings d u s)
    where
      then_known :
          (o : Option (Local W F))
          → AllInStep (elim o [
            | none ↦ none
            | some s' ↦
                ir_settings d u
                  (init_ir_camera d u (set_entry "CAM_AE_LOCK" "0" (init_render_mode s'))).1
          ])
      then_known none = tt
      then_known (some s') =
          let rendered = init_render_mode s' in
          let locked = set_entry "CAM_AE_LOCK" "0" rendered in
          let step =
            set_entry-IsInStep "CAM_AE_LOCK" "0" rendered refl refl refl
              (init_render_mode-IsInStep s') in
          let same = init_ir_camera-Same locked in
          ir_settings-AllInStep (init_ir_camera d u locked).1 (same.1 ∙ step ∙ sym same.0)

  -- A start-up that gets through leaves the render mode in step with the settings, whatever the store,
  -- the environment and the drivers gave.
  pub init_settings-IsInStep : (s s' : Local W F) → init_settings d u s ≡ some s' → IsInStep s'
  unfolding AllInStep
  init_settings-IsInStep s s' h = subst AllInStep h (init_settings-AllInStep s)
