-- ===== src/Local/Startup.antt =====
-- The start-up of the local client: what CameraLocalClient::init of src/mav_client/camera_local_client.cpp
-- asks of the libraries that it loads, and the values that it takes from the drivers.
pub mod Camera
pub mod Values
pub mod Init
pub mod InStep
pub mod Shutdown
mod Pointers
pub mod Lifecycle
mod Tests
use mavcam.Prelude.{ℕ, Bool, true, false, Option, String, List}
use mavcam.Prelude.Int.{ℤ}
use mavcam.Results.{MavResult}
use mavcam.Local.Device.{
  CaptureMode, PhotoResolutionMode, VideoResolutionMode, EncoderType, JpegQuality, PhotoFormat,
}

-- How the loading of a library goes: dlopen fails, dlsym fails, the instance is null, or it is there.
pub data Load : Type 0 where
  no_library no_symbol no_instance loaded : Load

-- mav_camera::Options, the fields that the store or the environment decides.
pub record CameraOptions : Type 0 where
  pub init_mode : CaptureMode
  pub photo_resolution_mode : PhotoResolutionMode
  pub video_resolution_mode : VideoResolutionMode
  pub jpeg_quality : JpegQuality
  pub photo_format : PhotoFormat
  pub photo_min_interval_in_millisecond : ℤ

-- The environment, the libraries and the getters of the drivers. A getter that may fail answers its
-- result with a value. `fixed1` writes a float with one digit after the point, and `float_text` is
-- std::to_string.
pub record Startup (W F : Type 0) : Type 0 where
  pub env_camera_mode : Option String
  pub env_photo_resolution : Option String
  pub unset_options : CameraOptions
  pub render_library : W → Load
  pub render_open : W → Bool × W
  pub storage_library : W → Load
  pub storage_open : W → Bool × W
  pub camera_library : W → Load
  pub camera_prepare : W → MavResult × W
  pub camera_open : CameraOptions → W → MavResult × W
  pub ir_library : W → Load
  pub ir_open : W → Bool × W
  pub render_close : W → W
  pub storage_close : W → W
  pub ir_close : W → W
  pub get_photo_resolution_mode : W → PhotoResolutionMode × W
  pub get_video_resolution_mode : W → VideoResolutionMode × W
  pub get_video_encoder_type : W → EncoderType × W
  pub get_white_balance : W → (MavResult × ℤ) × W
  pub get_exposure_value : W → (MavResult × F) × W
  pub get_iso : W → (MavResult × ℤ) × W
  pub get_shutter_speed : W → (MavResult × String) × W
  pub get_color_mode : W → ℤ × W
  pub get_ffc_mode : W → ℤ × W
  pub fixed1 : F → String
  pub float_text : F → String
  pub float_div : F → F → F
