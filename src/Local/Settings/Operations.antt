-- ===== src/Local/Settings/Operations.antt =====
-- CameraLocalClient::set_setting, get_setting, fill_settings, retrieve_current_settings, set_mode,
-- set_timestamp and set_zoom_range of src/mav_client/camera_local_client.cpp.
use mavcam.Prelude.{not, Option, none, some, String, Dict, at, contains, str_eq, if◌then◌else◌}
use mavcam.Prelude.Int.{ℤ}
use mavcam.Results.{ServerResult, to_server_result, is_server_success}
use mavcam.Camera.Types.{Mode}
use mavcam.Local.Device.{Device}
use mavcam.Local.State.{Local, call, set_entry, store, touch}
use mavcam.Local.Settings.Keys.{Key, key_of, refreshes}
use mavcam.Local.Settings.Render.{init_render_mode}
use mavcam.Local.Settings.Handlers.{handle}

-- CameraServer::Settings, without the focus level, which is always 0.
pub record Settings (F : Type 0) : Type 0 where
  pub mode : Mode
  pub zoom_level : F

module _ {W F : Type 0} (d : Device W F) where
  -- `_camera_param.set_value` for every setting but the AI function.
  unfoldable pub remember : Key → String → String → Local W F → Local W F
  unfolding store
  remember Key.ai_function id value s = s
  remember _ id value s = store d id value s

  -- What follows a handler that has answered true.
  unfoldable pub accept : Key → String → String → Local W F → Local W F
  unfolding remember init_render_mode
  accept k id value s =
      let kept = remember k id value (set_entry id value s) in
      if refreshes k then init_render_mode kept else kept

  -- The rest of set_setting, when the setting is known.
  unfoldable pub apply_setting : Key → String → String → Local W F → Option (Local W F)
  unfolding handle accept
  apply_setting k id value s = elim (handle d k value s) [
    | none ↦ none
    | some (ok, s') ↦ some (if ok then accept k id value s' else s')
  ]

  -- `none` is an exception of a handler, which leaves this function too.
  unfoldable pub set_setting : String → String → Local W F → Option (ServerResult × Local W F)
  unfolding key_of apply_setting
  set_setting id value s =
      if not s.has_mav_camera
      then some (ServerResult.no_system, s)
      else if not (contains id s.settings)
      then some (ServerResult.wrong_argument, s)
      else elim (key_of id) [
        | none ↦ some (ServerResult.success, s)
        | some k ↦ elim (apply_setting k id value s) [
          | none ↦ none
          | some s' ↦ some (ServerResult.success, s')
        ]
      ]

  unfoldable pub set_mode : Mode → Local W F → Option (ServerResult × Local W F)
  unfolding set_setting
  set_mode Mode.photo s = set_setting "CAM_MODE" "0" s
  set_mode _ s = set_setting "CAM_MODE" "1" s

  unfoldable pub set_timestamp : ℤ → Local W F → ServerResult × Local W F
  unfolding to_server_result
  set_timestamp t s =
      let (r, s') = call (d.rgb.set_timestamp t) s in
      if not s.has_mav_camera then (ServerResult.no_system, s) else (to_server_result r, s')

  unfoldable pub set_zoom_range : F → Local W F → ServerResult × Local W F
  unfolding to_server_result
  set_zoom_range range s =
      let (r, s') = call (d.rgb.set_zoom range) s in
      if not s.has_mav_camera then (ServerResult.no_system, s) else (
        to_server_result r,
        if is_server_success (to_server_result r) then record s' { zoom_level = range } else s',
      )

-- get_setting, on the name and the value of the setting that is asked for.
unfoldable pub get_setting : {W F : Type 0} → String → String → Local W F → ServerResult × String
get_setting id value s =
    if contains id s.settings
    then (ServerResult.success, at id s.settings)
    else (ServerResult.wrong_argument, value)

-- fill_settings puts the camera mode in where it is missing.
unfoldable pub fill_settings : {W F : Type 0} → Local W F → Settings F × Local W F
fill_settings s = (
  record {
    mode = if str_eq (at "CAM_MODE" s.settings) "0" then Mode.photo else Mode.video;
    zoom_level = s.zoom_level;
  },
  record s { settings = touch "CAM_MODE" s.settings },
)

-- retrieve_current_settings: every entry of the map.
unfoldable pub retrieve_current_settings : {W F : Type 0} → Local W F → Dict
retrieve_current_settings s = s.settings
