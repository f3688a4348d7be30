-- ===== src/Local/Startup/Values.antt =====
-- The init_* functions of src/mav_client/camera_local_client.cpp that ask a driver for its value where
-- the store has none. `none` is an exception.
use mavcam.Prelude.{Bool, Option, none, some, String, at, str_eq, if◌then◌else◌}
use mavcam.Prelude.Int.{ℤ, pos, eqb}
use mavcam.Prelude.Text.{to_string, split_at}
use mavcam.Results.{is_mav_success}
use mavcam.Param.{get_value}
use mavcam.Local.Device.{Device}
use mavcam.Local.State.{Local, call, store, touch}
use mavcam.Local.Settings.Handlers.{
  set_whitebalance_mode, set_exposure_value, set_iso, set_shutter_speed, set_ir_palette,
  set_ir_ffc_mode,
}
use mavcam.Local.Settings.Restore.{answered}
use mavcam.Local.Startup.{Startup}

module _ {W F : Type 0} (d : Device W F) (u : Startup W F) where
  -- A value that the store lacks is put there and answered.
  abbrev kept : String → String → Local W F → Option (String × Local W F)
  kept key value s = some (value, store d key value s)

  -- The ladder of the white balance.
  unfoldable pub balance_text : ℤ → String
  balance_text value =
      if eqb value d.rgb.auto_whitebalance
      then "0"
      else if eqb value (pos 5500)
      then "1"
      else if eqb value (pos 6500)
      then "2"
      else if eqb value (pos 7500)
      then "3"
      else if eqb value (pos 2700)
      then "4"
      else if eqb value (pos 4000)
      then "5"
      else "0"

  unfoldable pub init_whitebalance_mode : Local W F → Option (String × Local W F)
  unfolding get_value store balance_text set_whitebalance_mode
  init_whitebalance_mode s =
      let stored = get_value "CAM_WBMODE" s.param in
      let ((result, value), s') = call u.get_white_balance s in
      if str_eq stored ""
      then kept "CAM_WBMODE" (if is_mav_success result then balance_text value else "0") s'
      else answered d stored (some (set_whitebalance_mode d stored s))

  -- `_settings[kExposureMode] == mode`, which may put the key in.
  abbrev in_exposure_mode :
      String
      → (Local W F → Option (Bool × Local W F))
      → String
      → Local W F
      → Option (String × Local W F)
  in_exposure_mode mode set stored s =
      let touched = record s { settings = touch "CAM_EXPMODE" s.settings } in
      if str_eq (at "CAM_EXPMODE" s.settings) mode
      then answered d stored (set touched)
      else some (stored, touched)

  unfoldable pub init_exposure_value : Local W F → Option (String × Local W F)
  unfolding get_value store set_exposure_value
  init_exposure_value s =
      let stored = get_value "CAM_EV" s.param in
      let ((result, value), s') = call u.get_exposure_value s in
      if str_eq stored ""
      then kept "CAM_EV" (if is_mav_success result then u.fixed1 value else "0.0") s'
      else in_exposure_mode "0" (set_exposure_value d stored) stored s

  -- The default for a failure is overwritten by the value that came with it.
  unfoldable pub init_iso : Local W F → Option (String × Local W F)
  unfolding get_value store set_iso to_string
  init_iso s =
      let stored = get_value "CAM_ISO" s.param in
      let ((result, value), s') = call u.get_iso s in
      if str_eq stored ""
      then kept "CAM_ISO" (to_string value) s'
      else in_exposure_mode "1" (set_iso d stored) stored s

  -- A fraction is written out; any other text is taken as it is.
  unfoldable pub speed_text : String → Option String
  unfolding split_at
  speed_text value = elim (split_at "/" value) [
    | none ↦ some value
    | some (before, after) ↦ elim (d.host.stof before) [
      | none ↦ none
      | some x ↦ elim (d.host.stof after) [
        | none ↦ none
        | some y ↦ some (u.float_text (u.float_div x y))
      ]
    ]
  ]

  unfoldable pub init_shutter_speed : Local W F → Option (String × Local W F)
  unfolding get_value store set_shutter_speed speed_text
  init_shutter_speed s =
      let stored = get_value "CAM_SHUTTERSPD" s.param in
      let ((result, value), s') = call u.get_shutter_speed s in
      if str_eq stored ""
      then elim (speed_text value) [ none ↦ none | some text ↦ kept "CAM_SHUTTERSPD" text s' ]
      else in_exposure_mode "1" (λ t. some (set_shutter_speed d stored t)) stored s

  unfoldable pub init_ir_palette : Local W F → Option (String × Local W F)
  unfolding get_value store set_ir_palette to_string
  init_ir_palette s =
      let stored = get_value "IRCAM_PALETTE" s.param in
      let (value, s') = call u.get_color_mode s in
      if str_eq stored ""
      then if s.has_ir_camera
        then kept "IRCAM_PALETTE" (to_string value) s'
        else kept "IRCAM_PALETTE" "0" s
      else answered d stored (set_ir_palette d stored s)

  unfoldable pub init_ir_ffc_mode : Local W F → Option (String × Local W F)
  unfolding get_value store set_ir_ffc_mode to_string
  init_ir_ffc_mode s =
      let stored = get_value "IRCAM_FFCMODE" s.param in
      let (value, s') = call u.get_ffc_mode s in
      if str_eq stored ""
      then if s.has_ir_camera
        then kept "IRCAM_FFCMODE" (to_string value) s'
        else kept "IRCAM_FFCMODE" "1" s
      else answered d stored (set_ir_ffc_mode d stored s)
