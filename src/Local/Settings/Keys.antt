-- ===== src/Local/Settings/Keys.antt =====
-- The names of the settings, and the if-ladder of CameraLocalClient::set_setting that tells them apart.
use mavcam.Prelude.{◌≡◌, refl, Bool, true, false, Option, none, some, String, str_eq, if◌then◌else◌}

pub data Key : Type 0 where
  mode sensor_mode display_mode photo_resolution video_resolution video_format : Key
  photo_quality photo_format white_balance exposure_mode exposure_value iso : Key
  shutter_speed metering sharpness ae_lock ir_palette ir_ffc_mode ir_ffc ai_function : Key

-- kCameraModeName and so on.
abbrev pub name : Key → String
name Key.mode = "CAM_MODE"
name Key.sensor_mode = "CAM_SENS_MODE"
name Key.display_mode = "CAM_DIS_MODE"
name Key.photo_resolution = "CAM_PHOTO_RES"
name Key.video_resolution = "CAM_VIDRES"
name Key.video_format = "CAM_VIDFMT"
name Key.photo_quality = "CAM_PHOTO_QC"
name Key.photo_format = "CAM_PHOTO_FMT"
name Key.white_balance = "CAM_WBMODE"
name Key.exposure_mode = "CAM_EXPMODE"
name Key.exposure_value = "CAM_EV"
name Key.iso = "CAM_ISO"
name Key.shutter_speed = "CAM_SHUTTERSPD"
name Key.metering = "CAM_METER"
name Key.sharpness = "CAM_SHARPNESS"
name Key.ae_lock = "CAM_AE_LOCK"
name Key.ir_palette = "IRCAM_PALETTE"
name Key.ir_ffc_mode = "IRCAM_FFCMODE"
name Key.ir_ffc = "IRCAM_FFC"
name Key.ai_function = "CAM_AI_FUNC"

-- The branch of the ladder that a setting takes; `none` is the last `else`.
unfoldable pub key_of : String → Option Key
key_of id =
    if str_eq id "CAM_MODE"
    then some Key.mode
    else if str_eq id "CAM_SENS_MODE"
    then some Key.sensor_mode
    else if str_eq id "CAM_DIS_MODE"
    then some Key.display_mode
    else if str_eq id "CAM_PHOTO_RES"
    then some Key.photo_resolution
    else if str_eq id "CAM_VIDRES"
    then some Key.video_resolution
    else if str_eq id "CAM_VIDFMT"
    then some Key.video_format
    else if str_eq id "CAM_PHOTO_QC"
    then some Key.photo_quality
    else if str_eq id "CAM_PHOTO_FMT"
    then some Key.photo_format
    else if str_eq id "CAM_WBMODE"
    then some Key.white_balance
    else if str_eq id "CAM_EXPMODE"
    then some Key.exposure_mode
    else if str_eq id "CAM_EV"
    then some Key.exposure_value
    else if str_eq id "CAM_ISO"
    then some Key.iso
    else if str_eq id "CAM_SHUTTERSPD"
    then some Key.shutter_speed
    else if str_eq id "CAM_METER"
    then some Key.metering
    else if str_eq id "CAM_SHARPNESS"
    then some Key.sharpness
    else if str_eq id "CAM_AE_LOCK"
    then some Key.ae_lock
    else if str_eq id "IRCAM_PALETTE"
    then some Key.ir_palette
    else if str_eq id "IRCAM_FFCMODE"
    then some Key.ir_ffc_mode
    else if str_eq id "IRCAM_FFC"
    then some Key.ir_ffc
    else if str_eq id "CAM_AI_FUNC"
    then some Key.ai_function
    else none

-- Every name takes its own branch.
pub key_of-name : (k : Key) → key_of (name k) ≡ some k
unfolding key_of
key_of-name Key.mode = refl
key_of-name _ = refl

-- `need_refresh_render_mode`
abbrev pub refreshes : Key → Bool
refreshes Key.mode = true
refreshes Key.photo_resolution = true
refreshes Key.video_resolution = true
refreshes Key.photo_format = true
refreshes _ = false
