-- ===== src/Local/Device.antt =====
-- What the local camera client calls and does not implement: the camera drivers (mav_camera.h,
-- ir_camera.h), the storage manager, the render bridge, systemctl, the clock, std::stof, what the
-- tracking server's thread does while a call of the client blocks, and what a
-- variable holds that the client passes on before it gives it a value. All of it is a parameter, a
-- record of functions on a world `W`; `F` stands for float.
use mavcam.Prelude.{ℕ, Bool, Option, String, List}
use mavcam.Prelude.Int.{ℤ}
use mavcam.Param.{JsonText}
use mavcam.Results.{MavResult}
use mavcam.Tracking.Server.{Net, ThreadAct}

-- Enumerations of mav_camera.h and ir_camera.h, with the enumerators that the client names.
pub data CaptureMode : Type 0 where
  photo video unknown : CaptureMode

pub data PhotoResolutionMode : Type 0 where
  full quarter : PhotoResolutionMode

pub data VideoResolutionMode : Type 0 where
  uhd60 uhd30 fhd60 fhd30 : VideoResolutionMode

pub data EncoderType : Type 0 where
  h264 h265 : EncoderType

pub data JpegQuality : Type 0 where
  super_fine fine normal : JpegQuality

pub data PhotoFormat : Type 0 where
  jpeg dng : PhotoFormat

pub data AeMode : Type 0 where
  auto manual : AeMode

-- mav_camera::MavCamera, and the values that an unset variable of the callers may have.
pub record RgbCamera (W F : Type 0) : Type 0 where
  pub take_photo : String → W → MavResult × W
  pub start_video : String → W → MavResult × W
  pub stop_video : W → MavResult × W
  pub set_mode : CaptureMode → W → MavResult × W
  pub reset_settings : W → MavResult × W
  pub set_timestamp : ℤ → W → MavResult × W
  pub set_zoom : F → W → MavResult × W
  pub set_photo_resolution_mode : PhotoResolutionMode → W → MavResult × W
  pub set_video_resolution_mode : VideoResolutionMode → W → MavResult × W
  pub set_video_encoder_type : EncoderType → W → MavResult × W
  pub set_jpeg_quality : JpegQuality → W → MavResult × W
  pub set_photo_format : PhotoFormat → W → MavResult × W
  pub set_white_balance : ℤ → W → MavResult × W
  pub set_ae_mode : AeMode → W → MavResult × W
  pub set_exposure_value : F → W → MavResult × W
  pub set_iso : ℤ → W → MavResult × W
  pub set_shutter_speed : String → W → MavResult × W
  pub set_metering_mode : ℤ → W → MavResult × W
  pub set_sharpness : ℤ → W → MavResult × W
  pub set_ae_lock : Bool → W → MavResult × W
  pub auto_whitebalance : ℤ
  pub unset_result : W → MavResult
  pub unset_photo_resolution : W → PhotoResolutionMode
  pub unset_video_resolution : W → VideoResolutionMode
  pub unset_jpeg_quality : W → JpegQuality
  pub unset_photo_format : W → PhotoFormat

-- ir_camera::IRCamera.
pub record IrCamera (W : Type 0) : Type 0 where
  pub take_photo : String → W → Bool × W
  pub start_video_recording : String → W → Bool × W
  pub stop_video_recording : W → Bool × W
  pub set_video_encoder_type : EncoderType → W → Bool × W
  pub set_color_mode : ℤ → W → Bool × W
  pub set_ffc_mode : ℤ → W → Bool × W
  pub run_ffc : W → W

-- StorageManager, the clock and the shell.
pub record Host (W F : Type 0) : Type 0 where
  pub get_storage_path : W → String × W
  pub get_file_index : W → ℕ × W
  pub format_storage : W → W
  pub steady_now : W → ℕ
  pub system : String → W → ℤ × W
  pub clear_boxes : W → W
  pub param_opens : W → Bool
  pub json : JsonText
  pub stof : String → Option F
  pub less_than : F → ℕ → Bool
  pub float_zero : F
  pub float_one : F
  pub float_lt : F → F → Bool
  pub float_mul : F → ℕ → F
  pub float_to_uint16 : F → ℕ
  pub net : Net W
  pub thread_acts : W → List ThreadAct × W

pub record Device (W F : Type 0) : Type 0 where
  pub rgb : RgbCamera W F
  pub ir : IrCamera W
  pub host : Host W F
