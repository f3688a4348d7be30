-- ===== src/Local/Startup/Init.antt =====
-- CameraLocalClient::init and deinit of src/mav_client/camera_local_client.cpp, with the libraries of the
-- render bridge, the storage manager and the infrared camera. `none` is an exception.
use mavcam.Prelude.{
  Bool, true, false, not, Option, none, some, String, List, [], ◌∷◌, at, contains, if◌then◌else◌,
}
use mavcam.Local.Device.{Device}
use mavcam.Local.State.{Local, call, set_entry}
use mavcam.Local.Settings.Render.{init_render_mode}
use mavcam.Local.Settings.Handlers.{set_video_format}
use mavcam.Local.Settings.Ai.{set_ai_function}
use mavcam.Local.Settings.Restore.{
  init_camera_sensor_mode, init_camera_display_mode, init_exposure_mode, init_video_format,
  init_metering_mode, init_sharpness,
}
use mavcam.Local.Startup.{Startup, Load}
use mavcam.Local.Startup.Camera.{init_mav_camera}
use mavcam.Local.Startup.Values.{
  init_whitebalance_mode, init_exposure_value, init_iso, init_shutter_speed, init_ir_palette,
  init_ir_ffc_mode,
}

-- `if (!f()) return false;`
abbrev pub and_then :
    {W F : Type 0}
    → Option (Bool × Local W F)
    → (Local W F → Option (Bool × Local W F))
    → Option (Bool × Local W F)
and_then none next = none
and_then (some (false, s)) next = some (false, s)
and_then (some (true, s)) next = next s

module _ {W F : Type 0} (d : Device W F) (u : Startup W F) where
  abbrev render_handle : Bool → Local W F → Local W F
  render_handle there s = record s { handles = record s.handles { render = there } }

  abbrev storage_handle : Bool → Local W F → Local W F
  storage_handle there s = record s { handles = record s.handles { storage = there } }

  abbrev ir_handle : Bool → Local W F → Local W F
  ir_handle there s = record s { handles = record s.handles { ir = there } }

  -- An instance that is created stays, even where it cannot be opened and its library is closed again.
  -- `none` is a call through a null pointer.
  unfoldable pub init_render_bridge : Local W F → Option (Bool × Local W F)
  init_render_bridge s =
      let (opened, s') = call u.render_open (record s { has_render_bridge = true }) in
      if s.has_render_bridge then some (true, s) else elim (u.render_library s.world) [
        | Load.no_library ↦ some (false, render_handle false s)
        | Load.no_symbol ↦ some (false, render_handle false s)
        | Load.no_instance ↦ none
        | Load.loaded ↦ some (opened, render_handle opened s')
      ]

  unfoldable pub init_storage_manager : Local W F → Option (Bool × Local W F)
  init_storage_manager s =
      let (opened, s') = call u.storage_open (record s { has_storage_manager = true }) in
      if s.has_storage_manager then some (true, s) else elim (u.storage_library s.world) [
        | Load.no_library ↦ some (false, storage_handle false s)
        | Load.no_symbol ↦ some (false, storage_handle false s)
        | Load.no_instance ↦ none
        | Load.loaded ↦ some (opened, storage_handle opened s')
      ]

  -- The infrared camera is given the video format, where the settings have one.
  unfoldable pub init_ir_camera : Local W F → Bool × Local W F
  unfolding set_video_format
  init_ir_camera s =
      let (opened, s') = call u.ir_open s in
      let there = ir_handle true (record s' { has_ir_camera = true }) in
      if s.has_ir_camera then (true, s) else elim (u.ir_library s.world) [
        | Load.loaded ↦
            if not opened
            then (false, ir_handle false s')
            else if contains "CAM_VIDFMT" there.settings
            then (true, (set_video_format d (at "CAM_VIDFMT" there.settings) there).1)
            else (true, there)
        | _ ↦ (false, ir_handle false s)
      ]

  unfoldable pub init_ai_function : Local W F → Option (String × Local W F)
  unfolding set_ai_function
  init_ai_function s = elim (set_ai_function d "0" s) [
    | none ↦ none
    | some (_, s') ↦ some ("0", s')
  ]

  -- `_settings[key] = init_x();`
  abbrev pub assign :
      String → (Local W F → Option (String × Local W F)) → Local W F → Option (Local W F)
  assign key init_value s = elim (init_value s) [
    | none ↦ none
    | some (value, s') ↦ some (set_entry key value s')
  ]

  abbrev pub assign_all :
      List (String × (Local W F → Option (String × Local W F))) → Local W F → Option (Local W F)
  assign_all [] s = some s
  assign_all ((key, init_value) ∷ rest) s = elim (assign key init_value s) [
    | none ↦ none
    | some s' ↦ assign_all rest s'
  ]

  -- The settings that init takes before the render mode, and those after the infrared camera.
  abbrev pub camera_inits : List (String × (Local W F → Option (String × Local W F)))
  camera_inits =
      ("CAM_SENS_MODE", init_camera_sensor_mode d)
      ∷ ("CAM_DIS_MODE", init_camera_display_mode d)
      ∷ ("CAM_WBMODE", init_whitebalance_mode d u)
      ∷ ("CAM_EXPMODE", init_exposure_mode d)
      ∷ ("CAM_EV", init_exposure_value d u)
      ∷ ("CAM_ISO", init_iso d u)
      ∷ ("CAM_SHUTTERSPD", init_shutter_speed d u)
      ∷ ("CAM_VIDFMT", init_video_format d)
      ∷ ("CAM_METER", init_metering_mode d)
      ∷ ("CAM_SHARPNESS", init_sharpness d)
      ∷ []

  unfoldable pub camera_settings : Local W F → Option (Local W F)
  unfolding init_camera_sensor_mode init_camera_display_mode init_whitebalance_mode
      init_exposure_mode init_exposure_value init_iso init_shutter_speed init_video_format
      init_metering_mode init_sharpness
  camera_settings = assign_all camera_inits

  abbrev pub ir_inits : List (String × (Local W F → Option (String × Local W F)))
  ir_inits =
      ("IRCAM_PALETTE", init_ir_palette d u)
      ∷ ("IRCAM_FFCMODE", init_ir_ffc_mode d u)
      ∷ ("IRCAM_FFC", λ s. some ("0", s))
      ∷ ("CAM_AI_FUNC", init_ai_function)
      ∷ []

  unfoldable pub ir_settings : Local W F → Option (Local W F)
  unfolding init_ir_palette init_ir_ffc_mode init_ai_function
  ir_settings = assign_all ir_inits

  -- What follows when the libraries are there.
  unfoldable pub init_settings : Local W F → Option (Local W F)
  unfolding camera_settings ir_settings init_render_mode init_ir_camera
  init_settings s = elim (camera_settings s) [
    | none ↦ none
    | some s' ↦ ir_settings (init_ir_camera (set_entry "CAM_AE_LOCK" "0" (init_render_mode s'))).1
  ]

  -- init(), without the preview stream's format.
  unfoldable pub init : Local W F → Option (Bool × Local W F)
  unfolding init_render_bridge init_mav_camera init_storage_manager init_settings
  init s = and_then (init_render_bridge s) λ r. and_then (init_mav_camera d u r) λ c.
      and_then (init_storage_manager c)
        λ t. elim (init_settings t) [ none ↦ none | some s' ↦ some (true, s') ]
