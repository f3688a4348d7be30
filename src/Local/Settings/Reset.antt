-- ===== src/Local/Settings/Reset.antt =====
-- CameraLocalClient::reset_settings of src/mav_client/camera_local_client.cpp.
use mavcam.Prelude.{true, false, not, Option, none, some, String, List, [], ◌∷◌, if◌then◌else◌}
use mavcam.Results.{ServerResult, is_mav_success}
use mavcam.Local.Device.{Device}
use mavcam.Local.State.{Local, SensorMode, call, set_entry, store}
use mavcam.Local.Settings.Render.{init_render_mode}
use mavcam.Local.Settings.Handlers.{set_camera_display_mode}
use mavcam.Local.Settings.Ai.{set_ai_function}

-- The values that are put into the settings and into the store, in the order of the source.
abbrev pub stored_defaults : List (String × String)
stored_defaults =
    ("CAM_SENS_MODE", "0")
    ∷ ("CAM_DIS_MODE", "0")
    ∷ ("CAM_PHOTO_RES", "1")
    ∷ ("CAM_PHOTO_QC", "0")
    ∷ ("CAM_PHOTO_FMT", "0")
    ∷ ("CAM_WBMODE", "0")
    ∷ ("CAM_EXPMODE", "0")
    ∷ ("CAM_EV", "0")
    ∷ ("CAM_ISO", "125")
    ∷ ("CAM_SHUTTERSPD", "0.01")
    ∷ ("CAM_VIDRES", "1")
    ∷ ("CAM_VIDFMT", "0")
    ∷ ("CAM_METER", "0")
    ∷ ("CAM_SHARPNESS", "0")
    ∷ []

module _ {W F : Type 0} (d : Device W F) where
  -- `_settings[key] = value; _camera_param.set_value(key, _settings[key]);`
  unfoldable pub put : String → String → Local W F → Local W F
  unfolding store
  put key value s = store d key value (set_entry key value s)

  unfoldable pub put_all : List (String × String) → Local W F → Local W F
  unfolding put
  put_all [] s = s
  put_all ((key, value) ∷ rest) s = put_all rest (put key value s)

  -- The assignments after the camera has reset; the sensor mode follows its setting.
  unfoldable pub assign_defaults : Local W F → Local W F
  unfolding put_all
  assign_defaults s = set_entry "CAM_AI_FUNC" "0" (
      set_entry "CAM_AE_LOCK" "0"
        (put_all stored_defaults (record s { sensor_mode = SensorMode.normal })))

  -- The task: the result that the callback gets. `none` is an exception inside it.
  unfoldable pub run_reset : Local W F → Option (ServerResult × Local W F)
  unfolding assign_defaults set_ai_function init_render_mode set_camera_display_mode
  run_reset s =
      let (r, s') = call d.rgb.reset_settings s in
      if not (is_mav_success r)
      then some (ServerResult.error, s')
      else elim (set_ai_function d "0" (assign_defaults s')) [
        | none ↦ none
        | some (_, ai) ↦ elim (set_camera_display_mode d "0" (init_render_mode ai)) [
          | none ↦ none
          | some (_, shown) ↦ some (ServerResult.success, shown)
        ]
      ]

  -- reset_settings: its own result, and the one that the callback gets if it is called. The task is
  -- over when the call returns, since the dropped future waits for it.
  unfoldable pub reset_settings :
      Local W F → Option (ServerResult × Option ServerResult × Local W F)
  unfolding run_reset
  reset_settings s =
      if not s.has_mav_camera
      then some (ServerResult.no_system, none, s)
      else if s.is_reseting
      then some (ServerResult.busy, none, s)
      else elim (run_reset (put "CAM_MODE" "0" (record s { is_reseting = true }))) [
        | none ↦ none
        | some (final, s') ↦
            some (ServerResult.success, some final, record s' { is_reseting = false })
      ]
