-- ===== src/Local/Startup/Pointers.antt =====
-- What the start-up of the settings leaves alone: the drivers' instances, the libraries' handles and
-- the tracking server.
use mavcam.Prelude.{
  ◌≡◌, ◌∙◌, Bool, false, Option, some, String, List, [], ◌∷◌, inl, inr, Option-cases, arith,
}
use mavcam.Tracking.Server.{TrackingServer}
use mavcam.Local.Device.{Device}
use mavcam.Local.State.{Local, Handles, store, set_entry}
use mavcam.Local.Settings.Ai.{set_ai_function}
use mavcam.Local.Settings.Ai.Meanwhile.{ai_off-TurnedOff, ai_off-idle}
use mavcam.Local.Settings.Handlers.{
  set_camera_sensor_mode, set_camera_display_mode, set_exposure_mode, set_video_format,
  set_metering_mode, set_sharpness, set_whitebalance_mode, set_exposure_value, set_iso,
  set_shutter_speed, set_ir_palette, set_ir_ffc_mode,
}
use mavcam.Local.Settings.Restore.{
  init_camera_sensor_mode, init_camera_display_mode, init_exposure_mode, init_video_format,
  init_metering_mode, init_sharpness,
}
use mavcam.Local.Startup.{Startup, CameraOptions}
use mavcam.Local.Startup.Camera.{
  choose_mode, choose_photo_resolution, choose_video_resolution, choose_video_format,
  choose_jpeg_quality, choose_photo_format, choose_interval, choose_options,
}
use mavcam.Local.Startup.Values.{
  init_whitebalance_mode, init_exposure_value, init_iso, init_shutter_speed, init_ir_palette,
  init_ir_ffc_mode,
}
use mavcam.Local.Startup.Init.{
  assign_all, camera_inits, ir_inits, camera_settings, ir_settings, init_ai_function,
}

module _ {W F : Type 0} where
  abbrev pub pointers : Local W F → Bool × Bool × Bool × Bool × Handles × TrackingServer
  pointers s = (
    s.has_mav_camera, s.has_ir_camera, s.has_render_bridge, s.has_storage_manager, s.handles,
    s.tracking_server,
  )

  -- Every answer of a start-up function that leaves the pointers alone, with no tracking server up.
  abbrev Keeps : (Local W F → Option (String × Local W F)) → Type 0
  Keeps f =
      (s t : Local W F) (value : String)
      → s.tracking_server.running ≡ false
      → f s ≡ some (value, t)
      → pointers t ≡ pointers s

  abbrev AllKeep : List (String × (Local W F → Option (String × Local W F))) → Type 0
  AllKeep [] = Unit {0}
  AllKeep ((key, f) ∷ rest) = Keeps f × AllKeep rest

module _ {W F : Type 0} (d : Device W F) (u : Startup W F) where
  init_camera_sensor_mode-Keeps : Keeps (init_camera_sensor_mode d)
  unfolding init_camera_sensor_mode set_camera_sensor_mode store
  init_camera_sensor_mode-Keeps s t value idle h = ground arith

  init_camera_display_mode-Keeps : Keeps (init_camera_display_mode d)
  unfolding init_camera_display_mode set_camera_display_mode store
  init_camera_display_mode-Keeps s t value idle h = ground arith

  init_exposure_mode-Keeps : Keeps (init_exposure_mode d)
  unfolding init_exposure_mode set_exposure_mode store
  init_exposure_mode-Keeps s t value idle h = ground arith

  init_video_format-Keeps : Keeps (init_video_format d)
  unfolding init_video_format set_video_format store
  init_video_format-Keeps s t value idle h = ground arith

  init_metering_mode-Keeps : Keeps (init_metering_mode d)
  unfolding init_metering_mode set_metering_mode store
  init_metering_mode-Keeps s t value idle h = ground arith

  init_sharpness-Keeps : Keeps (init_sharpness d)
  unfolding init_sharpness set_sharpness store
  init_sharpness-Keeps s t value idle h = ground arith

  init_whitebalance_mode-Keeps : Keeps (init_whitebalance_mode d u)
  unfolding init_whitebalance_mode set_whitebalance_mode store
  init_whitebalance_mode-Keeps s t value idle h = ground arith

  init_exposure_value-Keeps : Keeps (init_exposure_value d u)
  unfolding init_exposure_value set_exposure_value store
  init_exposure_value-Keeps s t value idle h = ground arith

  init_iso-Keeps : Keeps (init_iso d u)
  unfolding init_iso set_iso store
  init_iso-Keeps s t value idle h = ground arith

  init_shutter_speed-Keeps : Keeps (init_shutter_speed d u)
  unfolding init_shutter_speed set_shutter_speed store
  init_shutter_speed-Keeps s t value idle h = ground arith

  init_ir_palette-Keeps : Keeps (init_ir_palette d u)
  unfolding init_ir_palette set_ir_palette store
  init_ir_palette-Keeps s t value idle h = ground arith

  init_ir_ffc_mode-Keeps : Keeps (init_ir_ffc_mode d u)
  unfolding init_ir_ffc_mode set_ir_ffc_mode store
  init_ir_ffc_mode-Keeps s t value idle h = ground arith

  init_ai_function-Keeps : Keeps (init_ai_function d u)
  unfolding init_ai_function set_ai_function
  init_ai_function-Keeps s t value idle h =
      let off = ai_off-TurnedOff d s in let server = ai_off-idle d s idle in ground arith

  assign_all-Keeps :
      (fs : List (String × (Local W F → Option (String × Local W F)))) (s t : Local W F)
      → AllKeep fs
      → s.tracking_server.running ≡ false
      → assign_all d u fs s ≡ some t
      → pointers t ≡ pointers s
  assign_all-Keeps [] s t k idle h = ground arith
  assign_all-Keeps ((key, f) ∷ rest) s t (k, ks) idle h = elim (Option-cases (f s)) [
    | inl e ↦ absurd (ground arith)
    | inr ((value, s'), e) ↦
        let kept = k s s' value idle e in
        let later : assign_all d u rest (set_entry key value s') ≡ some t = ground arith in
        assign_all-Keeps rest (set_entry key value s') t ks (ground arith) later ∙ kept
  ]

  pub camera_settings-pointers :
      (s t : Local W F)
      → s.tracking_server.running ≡ false
      → camera_settings d u s ≡ some t
      → pointers t ≡ pointers s
  unfolding camera_settings
  camera_settings-pointers s t idle h =
      assign_all-Keeps (camera_inits d u) s t
        (
          init_camera_sensor_mode-Keeps,
          (
            init_camera_display_mode-Keeps,
            (
              init_whitebalance_mode-Keeps,
              (
                init_exposure_mode-Keeps,
                (
                  init_exposure_value-Keeps,
                  (
                    init_iso-Keeps,
                    (
                      init_shutter_speed-Keeps,
                      (
                        init_video_format-Keeps,
                        (init_metering_mode-Keeps, (init_sharpness-Keeps, tt)),
                      ),
                    ),
                  ),
                ),
              ),
            ),
          ),
        )
        idle h

  pub ir_settings-pointers :
      (s t : Local W F)
      → s.tracking_server.running ≡ false
      → ir_settings d u s ≡ some t
      → pointers t ≡ pointers s
  unfolding ir_settings
  ir_settings-pointers s t idle h =
      assign_all-Keeps (ir_inits d u) s t
        (
          init_ir_palette-Keeps,
          (
            init_ir_ffc_mode-Keeps,
            ((λ s t value idle h. ground arith), (init_ai_function-Keeps, tt)),
          ),
        )
        idle h

  choose_mode-pointers :
      (o : CameraOptions) (s : Local W F) → pointers (choose_mode d u (o, s)).1 ≡ pointers s
  unfolding choose_mode store
  choose_mode-pointers o s = ground arith

  choose_photo_resolution-pointers :
      (o : CameraOptions) (s : Local W F)
      → pointers (choose_photo_resolution d u (o, s)).1 ≡ pointers s
  unfolding choose_photo_resolution store
  choose_photo_resolution-pointers o s = ground arith

  choose_video_resolution-pointers :
      (o : CameraOptions) (s : Local W F)
      → pointers (choose_video_resolution d u (o, s)).1 ≡ pointers s
  unfolding choose_video_resolution store
  choose_video_resolution-pointers o s = ground arith

  choose_video_format-pointers :
      (o : CameraOptions) (s : Local W F) → pointers (choose_video_format d u (o, s)).1 ≡ pointers s
  unfolding choose_video_format store
  choose_video_format-pointers o s = ground arith

  choose_jpeg_quality-pointers :
      (o : CameraOptions) (s : Local W F) → pointers (choose_jpeg_quality d u (o, s)).1 ≡ pointers s
  unfolding choose_jpeg_quality store
  choose_jpeg_quality-pointers o s = ground arith

  choose_photo_format-pointers :
      (o : CameraOptions) (s : Local W F) → pointers (choose_photo_format d u (o, s)).1 ≡ pointers s
  unfolding choose_photo_format store
  choose_photo_format-pointers o s = ground arith

  choose_interval-pointers :
      (o o' : CameraOptions) (s t : Local W F)
      → choose_interval d u (o, s) ≡ some (o', t)
      → pointers t ≡ pointers s
  unfolding choose_interval store
  choose_interval-pointers o o' s t h = ground arith

  pub choose_options-pointers :
      (o : CameraOptions) (s t : Local W F)
      → choose_options d u s ≡ some (o, t)
      → pointers t ≡ pointers s
  unfolding choose_options
  choose_options-pointers o s t h =
      let (o1, s1) = choose_mode d u (u.unset_options, s) in
      let (o2, s2) = choose_photo_resolution d u (o1, s1) in
      let (o3, s3) = choose_video_resolution d u (o2, s2) in
      let (o4, s4) = choose_video_format d u (o3, s3) in
      let (o5, s5) = choose_jpeg_quality d u (o4, s4) in
      let (o6, s6) = choose_photo_format d u (o5, s5) in
      choose_interval-pointers o6 o s6 t h
      ∙ choose_photo_format-pointers o5 s5
      ∙ choose_jpeg_quality-pointers o4 s4
      ∙ choose_video_format-pointers o3 s3
      ∙ choose_video_resolution-pointers o2 s2
      ∙ choose_photo_resolution-pointers o1 s1
      ∙ choose_mode-pointers u.unset_options s
