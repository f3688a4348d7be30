-- ===== src/Plugin/Operations.antt =====
-- CameraImpl::set_setting, get_setting and reset_settings of
-- src/mav_server/plugins/camera/camera_impl.cpp.
use mavcam.Prelude.{Bool, true, false, not, Option, none, some, String, map, str_eq, if◌then◌else◌}
use mavcam.Prelude.Text.{stoi}
use mavcam.Results.{CameraResult, is_mav_success}
use mavcam.Camera.Types.{Setting}
use mavcam.Plugin.{
  Plugin, PluginDevice, with_option, reset_setting, reset_value, find_option, succeeds, parsed,
  set_camera_mode, set_camera_display_mode, set_photo_resolution, set_whitebalance_mode,
  set_video_resolution, set_metering_mode,
}

module _ {W F : Type 0} (d : PluginDevice W F) where
  unfoldable pub set_ir_palette : String → Plugin W F → Option (Bool × Plugin W F)
  set_ir_palette mode p = parsed d (stoi mode) λ n.
      if p.has_ir_camera
      then (let (ok, w) = d.set_color_mode n p.world in some (ok, record p { world = w }))
      else some (false, p)

  unfoldable pub set_ir_ffc : String → Plugin W F → Bool × Plugin W F
  set_ir_ffc _ p =
      if p.has_ir_camera then (true, record p { world = d.run_ffc p.world }) else (false, p)

  -- The ladder of set_setting: whether the value was taken. `none` is an exception.
  unfoldable pub handle_setting : String → String → Plugin W F → Option (Bool × Plugin W F)
  unfolding set_camera_mode set_camera_display_mode set_photo_resolution set_whitebalance_mode
      set_video_resolution set_metering_mode set_ir_palette set_ir_ffc
  handle_setting id value p =
      if str_eq id "CAM_MODE"
      then set_camera_mode d value p
      else if str_eq id "CAM_DIS_MODE"
      then set_camera_display_mode d value p
      else if str_eq id "CAM_PHOTO_RES"
      then set_photo_resolution d value p
      else if str_eq id "CAM_WBMODE"
      then set_whitebalance_mode d value p
      else if str_eq id "CAM_EXPMODE"
      then some (true, p)
      else if str_eq id "CAM_EV"
      then parsed d (d.stof value) (λ v. succeeds d (d.set_exposure_value v) p)
      else if str_eq id "CAM_ISO"
      then parsed d (stoi value) (λ n. succeeds d (d.set_iso n) p)
      else if str_eq id "CAM_SHUTTERSPD"
      then succeeds d (d.set_shutter_speed value) p
      else if str_eq id "CAM_VIDRES"
      then set_video_resolution d value p
      else if str_eq id "CAM_METER"
      then set_metering_mode d value p
      else if str_eq id "IRCAM_PALETTE"
      then set_ir_palette value p
      else if str_eq id "IRCAM_FFC"
      then some (set_ir_ffc value p)
      else some (false, p)

  unfoldable pub set_setting : Setting → Plugin W F → Option (CameraResult × Plugin W F)
  unfolding handle_setting
  set_setting setting p = elim (handle_setting setting.setting_id setting.option.option_id p) [
    | none ↦ none
    | some (ok, p') ↦ some (
      CameraResult.success,
      if ok
          then record p' {
            settings = map (with_option setting.setting_id setting.option) p'.settings;
          }
          else p',
    )
  ]

  -- reset_settings answers Success whenever there is a camera.
  unfoldable pub reset_settings : Plugin W F → CameraResult × Plugin W F
  unfolding reset_value
  reset_settings p =
      let (r, w) = d.reset_settings p.world in
      let p' = record p { world = w } in
      if not p.has_camera
      then (CameraResult.no_system, p)
      else if is_mav_success r
      then (CameraResult.success, record p' { settings = map reset_setting p'.settings })
      else (CameraResult.success, p')

-- get_setting: the setting that is asked for, with the option of the first entry of that name.
unfoldable pub get_setting : {W F : Type 0} → Setting → Plugin W F → CameraResult × Setting
unfolding find_option
get_setting setting p = elim (find_option setting.setting_id p.settings) [
  | none ↦ (CameraResult.wrong_argument, setting)
  | some option ↦ (CameraResult.success, record setting { option = option })
]
