-- ===== src/Local/State.antt =====
-- The state of CameraLocalClient (src/mav_client/camera_local_client.h). The pointers to the drivers
-- are flags: true where the pointer is not null. `leds` and `world` record what the client does
-- outside: the LED commands of src/led_control, newest first, and the state of the drivers.
use mavcam.Prelude.{ℕ, Bool, Option, none, some, String, List, ◌∷◌, Dict, lookup, insert}
use mavcam.Prelude.Int.{ℤ}
use mavcam.Param.{Param, set_value}
use mavcam.Tracking.Frame.{TrackingFrame}
use mavcam.Tracking.Server.{TrackingServer}
use mavcam.Local.Device.{Device}

pub data SensorMode : Type 0 where
  normal ir dual : SensorMode

pub data LedMode : Type 0 where
  normal dead sd_card_error recording take_photo : LedMode

pub data RenderMode : Type 0 where
  photo_full photo_quarter video_4k60 video_4k30 video_1080p60 video_1080p30 : RenderMode

pub data StorageStatus : Type 0 where
  not_available unformatted formatted not_supported : StorageStatus

-- The StorageInformation of storage_manager.h, the fields that the client reads. A type of storage is
-- one of the three that the client tells apart, or another.
pub data StorageType : Type 0 where
  usb_stick sd internal other : StorageType

pub record StorageInformation (F : Type 0) : Type 0 where
  pub total_storage_mib : F
  pub used_storage_mib : F
  pub available_storage_mib : F
  pub storage_status : StorageStatus
  pub storage_type : StorageType

-- The handles of the four libraries that are loaded: true where the handle is not null.
pub record Handles : Type 0 where
  pub render : Bool
  pub camera : Bool
  pub ir : Bool
  pub storage : Bool

pub record Local (W F : Type 0) : Type 0 where
  pub image_count : ℕ
  pub is_recording_video : Bool
  pub zoom_level : F
  pub start_video_time : ℕ
  pub settings : Dict
  pub is_formatting : Bool
  pub is_reseting : Bool
  pub preview_type : ℤ
  pub sensor_mode : SensorMode
  pub storage : StorageInformation F
  pub has_mav_camera : Bool
  pub has_ir_camera : Bool
  pub has_render_bridge : Bool
  pub has_storage_manager : Bool
  pub handles : Handles
  pub render_mode : RenderMode
  pub param : Param
  pub sdcard_valid : Option Bool
  pub tracking_server : TrackingServer
  pub tracking_frame : TrackingFrame
  pub has_tracking_frame : Bool
  pub leds : List LedMode
  pub world : W

-- `_settings[key]` where it is read: a missing key is put in with the empty text.
abbrev pub touch : String → Dict → Dict
touch key m = elim (lookup key m) [ none ↦ insert key "" m | some v ↦ m ]

module _ {W F : Type 0} where
  -- switch_led_mode of src/led_control/led_control.cc starts one command for each mode.
  abbrev pub switch_led_mode : LedMode → Local W F → Local W F
  switch_led_mode mode s = record s { leds = mode ∷ s.leds }

  abbrev pub set_entry : String → String → Local W F → Local W F
  set_entry key value s = record s { settings = insert key value s.settings }

  -- A call of a driver.
  abbrev pub call {ℓ} : {A : Type ℓ} → (W → A × W) → Local W F → A × Local W F
  call f s = let (a, w) = f s.world in (a, record s { world = w })

  -- `_camera_param.set_value(key, value)`, whose answer the client ignores.
  unfoldable pub store : Device W F → String → String → Local W F → Local W F
  unfolding set_value
  store d key value s = record s {
    param = (set_value d.host.json (d.host.param_opens s.world) key value s.param).1;
  }
