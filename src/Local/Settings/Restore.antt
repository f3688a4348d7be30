-- ===== src/Local/Settings/Restore.antt =====
-- What CameraLocalClient::init restores from the store at start-up: the init_* functions of src/mav_client/camera_local_client.cpp that ask no driver for its value. The answer is
-- the text that becomes the setting's value; `none` is an exception.
use mavcam.Prelude.{
  ◌≡◌, Bool, true, Option, none, some, String, lookup-insert_self, str_eq, if◌then◌else◌, arith,
}
use mavcam.Prelude.Int.{pos}
use mavcam.Param.{get_value, set_value}
use mavcam.Local.Device.{Device}
use mavcam.Local.State.{Local, SensorMode, store}
use mavcam.Local.Settings.Keys.{Key, name}
use mavcam.Local.Settings.Handlers.{
  set_camera_sensor_mode, set_camera_display_mode, set_exposure_mode, set_video_format,
  set_metering_mode, set_sharpness,
}

-- The settings that are restored so.
pub data Restored : Type 0 where
  sensor_mode display_mode exposure_mode video_format metering sharpness : Restored

abbrev pub key_name : Restored → String
key_name Restored.sensor_mode = name Key.sensor_mode
key_name Restored.display_mode = name Key.display_mode
key_name Restored.exposure_mode = name Key.exposure_mode
key_name Restored.video_format = name Key.video_format
key_name Restored.metering = name Key.metering
key_name Restored.sharpness = name Key.sharpness

module _ {W F : Type 0} (d : Device W F) where
  -- A handler's answer is dropped here.
  abbrev pub answered : String → Option (Bool × Local W F) → Option (String × Local W F)
  answered value none = none
  answered value (some (_, s)) = some (value, s)

  unfoldable pub init_camera_sensor_mode : Local W F → Option (String × Local W F)
  unfolding get_value store set_camera_sensor_mode
  init_camera_sensor_mode s =
      let value = get_value "CAM_SENS_MODE" s.param in
      if str_eq value ""
      then some ("0", store d "CAM_SENS_MODE" "0" (record s { sensor_mode = SensorMode.normal }))
      else answered value (some (set_camera_sensor_mode d value s))

  unfoldable pub init_camera_display_mode : Local W F → Option (String × Local W F)
  unfolding get_value store set_camera_display_mode
  init_camera_display_mode s =
      let value = get_value "CAM_DIS_MODE" s.param in
      if str_eq value ""
      then some ("0", store d "CAM_DIS_MODE" "0" (record s { preview_type = pos 0 }))
      else answered value (set_camera_display_mode d value s)

  unfoldable pub init_exposure_mode : Local W F → Option (String × Local W F)
  unfolding get_value store set_exposure_mode
  init_exposure_mode s =
      let value = get_value "CAM_EXPMODE" s.param in
      if str_eq value ""
      then some ("0", store d "CAM_EXPMODE" "0" s)
      else answered value (some (set_exposure_mode d value s))

  unfoldable pub init_video_format : Local W F → Option (String × Local W F)
  unfolding get_value store set_video_format
  init_video_format s =
      let value = get_value "CAM_VIDFMT" s.param in
      if str_eq value ""
      then answered "0" (some (set_video_format d "0" (store d "CAM_VIDFMT" "0" s)))
      else answered value (some (set_video_format d value s))

  unfoldable pub init_metering_mode : Local W F → Option (String × Local W F)
  unfolding get_value store set_metering_mode
  init_metering_mode s =
      let value = get_value "CAM_METER" s.param in
      if str_eq value ""
      then some ("0", store d "CAM_METER" "0" s)
      else answered value (set_metering_mode d value s)

  unfoldable pub init_sharpness : Local W F → Option (String × Local W F)
  unfolding get_value store set_sharpness
  init_sharpness s =
      let value = get_value "CAM_SHARPNESS" s.param in
      if str_eq value ""
      then some ("0", store d "CAM_SHARPNESS" "0" s)
      else answered value (set_sharpness d value s)

  -- `_settings[key]` is given the answer of the function that its name selects.
  abbrev pub init_setting : Restored → Local W F → Option (String × Local W F)
  init_setting Restored.sensor_mode = init_camera_sensor_mode
  init_setting Restored.display_mode = init_camera_display_mode
  init_setting Restored.exposure_mode = init_exposure_mode
  init_setting Restored.video_format = init_video_format
  init_setting Restored.metering = init_metering_mode
  init_setting Restored.sharpness = init_sharpness

  -- Each of these start-up functions, if it returns and the store's file can be opened, answers what the
  -- store holds, or "0" where it holds nothing; afterwards the store holds the answer.
  pub restored_from_store :
      (r : Restored) (value : String) (s s' : Local W F)
      → d.host.param_opens s.world ≡ true
      → init_setting r s ≡ some (value, s')
      → (value ≡ (
          if str_eq (get_value (key_name r) s.param) ""
          then "0"
          else get_value (key_name r) s.param))
        × (get_value (key_name r) s'.param ≡ value)
  unfolding init_camera_sensor_mode init_camera_display_mode init_exposure_mode init_video_format
      init_metering_mode init_sharpness get_value store set_value set_camera_sensor_mode
      set_camera_display_mode set_exposure_mode set_video_format set_metering_mode set_sharpness
  restored_from_store Restored.sensor_mode value s s' opens h =
      let put = lookup-insert_self (name Key.sensor_mode) "0" s.param.root in
      (ground arith, ground (arith, put))
  restored_from_store Restored.display_mode value s s' opens h =
      let put = lookup-insert_self (name Key.display_mode) "0" s.param.root in
      (ground arith, ground (arith, put))
  restored_from_store Restored.exposure_mode value s s' opens h =
      let put = lookup-insert_self (name Key.exposure_mode) "0" s.param.root in
      (ground arith, ground (arith, put))
  restored_from_store Restored.video_format value s s' opens h =
      let put = lookup-insert_self (name Key.video_format) "0" s.param.root in
      (ground arith, ground (arith, put))
  restored_from_store Restored.metering value s s' opens h =
      let put = lookup-insert_self (name Key.metering) "0" s.param.root in
      (ground arith, ground (arith, put))
  restored_from_store Restored.sharpness value s s' opens h =
      let put = lookup-insert_self (name Key.sharpness) "0" s.param.root in
      (ground arith, ground (arith, put))
