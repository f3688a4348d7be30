-- ===== src/Local/Capture.antt =====
-- Taking photos and recording video: CameraLocalClient::take_photo, start_video and stop_video of
-- src/mav_client/camera_local_client.cpp. `_action_mutex` makes each of them one step.
use mavcam.Prelude.{
  ℕ, ◌≡◌, ◌⊎◌, ◌+◌, ◌%◌, ◌^◌, ◌==◌, Bool, true, false, not, ◌&&◌, Option, none, some, String, List,
  ◌∷◌, str_eq, at, if◌then◌else◌,
}
use mavcam.Prelude.Text.{append_text, padded4}
use mavcam.Results.{ServerResult, to_server_result, is_server_success}
use mavcam.Local.Device.{Device}
use mavcam.Local.State.{Local, SensorMode, LedMode, touch, switch_led_mode, call}
pub mod Guards
pub mod Photos
pub mod Videos
pub mod Refinement

-- kSDCardMinAvaliableMB
abbrev pub sdcard_min_available_mb : ℕ
sdcard_min_available_mb = 200

-- generate_new_storage_path: directory, brand, four digits and an extension.
unfoldable pub file_path : String → String → ℕ → String → String
unfolding padded4
file_path directory brand index extension =
    append_text directory (
      append_text "/" (append_text brand (append_text (padded4 index) (append_text "." extension))))

-- `_settings[kPhotoFormat] == "0"` chooses the extension of a photo of the RGB camera.
abbrev pub photo_extension : String → String
photo_extension format = if str_eq format "0" then "jpg" else "dng"

-- `_image_count++` of a std::atomic<int>, as its 32 bits.
abbrev pub next_count : ℕ → ℕ
next_count n = (n + 1) % 2 ^ 32

abbrev pub error_unless : Bool → ServerResult
error_unless ok = if ok then ServerResult.success else ServerResult.error

-- One camera takes the pictures: normal mode, or infrared mode with an infrared camera.
abbrev pub HasOneSensor : {W F : Type 0} → Local W F → Type 0
HasOneSensor s =
    (s.sensor_mode ≡ SensorMode.normal)
    ⊎ ((s.sensor_mode ≡ SensorMode.ir) × (s.has_ir_camera ≡ true))

module _ {W F : Type 0} (d : Device W F) where
  -- The guards that take_photo and start_video share: a camera, enough space, and a path.
  unfoldable pub with_storage :
      (String → Local W F → ServerResult × Local W F) → Local W F → ServerResult × Local W F
  with_storage action s =
      if not s.has_mav_camera
      then (ServerResult.no_system, s)
      else if d.host.less_than s.storage.available_storage_mib sdcard_min_available_mb
      then (ServerResult.denied, s)
      else (let (directory, s') = call d.host.get_storage_path s in
          if str_eq directory "" then (ServerResult.denied, s') else action directory s')

module _ {W F : Type 0} (d : Device W F) (brand : String) where
  -- The end of take_photo.
  unfoldable pub finish_photo : Bool → ServerResult → Local W F → ServerResult × Local W F
  finish_photo success result s =
      if success
      then (
        result,
        switch_led_mode LedMode.take_photo (record s { image_count = next_count s.image_count }),
      )
      else (result, s)

  -- `_mav_camera->take_photo(generate_new_storage_path(false))`
  unfoldable pub rgb_photo : String → ℕ → Local W F → ServerResult × Local W F
  unfolding file_path
  rgb_photo directory index s =
      let touched = record s { settings = touch "CAM_PHOTO_FMT" s.settings } in
      let path =
        file_path directory brand index (photo_extension (at "CAM_PHOTO_FMT" s.settings)) in
      let (result, s') = call (d.rgb.take_photo path) touched in (to_server_result result, s')

  unfoldable pub ir_photo : String → ℕ → Local W F → Bool × Local W F
  unfolding file_path
  ir_photo directory index s = call (d.ir.take_photo (file_path directory brand index "jpg")) s

  -- take_photo once the path and the file's number are known.
  unfoldable pub shoot : SensorMode → String → ℕ → Local W F → ServerResult × Local W F
  unfolding finish_photo rgb_photo ir_photo
  shoot SensorMode.ir directory index s =
      if s.has_ir_camera
      then (let (ok, s') = ir_photo directory index s in finish_photo ok (error_unless ok) s')
      else finish_photo false ServerResult.success s
  shoot SensorMode.normal directory index s =
      let (result, s') = rgb_photo directory index s in
      finish_photo (is_server_success result) result s'
  shoot SensorMode.dual directory index s =
      let (result, s') = rgb_photo directory index s in
      if s'.has_ir_camera
      then (let (ok, s'') = ir_photo directory (index + 1) s' in finish_photo ok result s'')
      else finish_photo (is_server_success result) result s'

  -- take_photo behind its guards: the file's number is fetched, then the sensor mode decides.
  unfoldable pub next_photo : String → Local W F → ServerResult × Local W F
  unfolding shoot
  next_photo directory s =
      let (index, s') = call d.host.get_file_index s in shoot s'.sensor_mode directory index s'

  unfoldable pub take_photo : Local W F → ServerResult × Local W F
  unfolding with_storage next_photo
  take_photo = with_storage d next_photo

  -- The end of start_video.
  unfoldable pub finish_start : Bool → ServerResult → Local W F → ServerResult × Local W F
  finish_start success result s =
      if success
      then (
        result,
        switch_led_mode LedMode.recording
            (record s { is_recording_video = true; start_video_time = d.host.steady_now s.world }),
      )
      else (result, s)

  unfoldable pub ir_record : String → ℕ → Local W F → Bool × Local W F
  unfolding file_path
  ir_record directory index s =
      call (d.ir.start_video_recording (file_path directory brand index "mp4")) s

  unfoldable pub rgb_record : String → ℕ → Local W F → ServerResult × Local W F
  unfolding file_path
  rgb_record directory index s =
      let (result, s') = call (d.rgb.start_video (file_path directory brand index "mp4")) s in
      (to_server_result result, s')

  unfoldable pub record_video : SensorMode → String → ℕ → Local W F → ServerResult × Local W F
  unfolding finish_start ir_record rgb_record
  record_video SensorMode.ir directory index s =
      if s.has_ir_camera
      then (let (ok, s') = ir_record directory index s in finish_start ok (error_unless ok) s')
      else finish_start false ServerResult.success s
  record_video SensorMode.normal directory index s =
      let (result, s') = rgb_record directory index s in
      finish_start (is_server_success result) result s'
  record_video SensorMode.dual directory index s =
      let (result, s') = rgb_record directory index s in
      if s'.has_ir_camera
      then (let (ok, s'') = ir_record directory (index + 1) s' in
          finish_start ok (if ok then result else ServerResult.error) s'')
      else finish_start (is_server_success result) result s'

  unfoldable pub next_video : String → Local W F → ServerResult × Local W F
  unfolding record_video
  next_video directory s =
      let (index, s') = call d.host.get_file_index s in
      record_video s'.sensor_mode directory index s'

  unfoldable pub start_video : Local W F → ServerResult × Local W F
  unfolding with_storage next_video
  start_video = with_storage d next_video

module _ {W F : Type 0} (d : Device W F) where
  -- The end of stop_video; the recording time is only logged.
  unfoldable pub finish_stop : Bool → ServerResult → Local W F → ServerResult × Local W F
  finish_stop success result s =
      if success
      then (result, switch_led_mode LedMode.normal (record s { is_recording_video = false }))
      else (result, s)

  unfoldable pub rgb_stop : Local W F → ServerResult × Local W F
  rgb_stop s = let (result, s') = call d.rgb.stop_video s in (to_server_result result, s')

  unfoldable pub end_video : SensorMode → Local W F → ServerResult × Local W F
  unfolding finish_stop rgb_stop
  end_video SensorMode.ir s =
      if s.has_ir_camera
      then (let (ok, s') = call d.ir.stop_video_recording s in finish_stop ok (error_unless ok) s')
      else finish_stop false ServerResult.success s
  end_video SensorMode.normal s =
      let (result, s') = rgb_stop s in finish_stop (is_server_success result) result s'
  end_video SensorMode.dual s =
      let (result, s') = rgb_stop s in
      if s'.has_ir_camera
      then (let (ok, s'') = call d.ir.stop_video_recording s' in finish_stop ok result s'')
      else finish_stop (is_server_success result) result s'

  unfoldable pub stop_video : Local W F → ServerResult × Local W F
  unfolding end_video
  stop_video s =
      if not s.has_mav_camera
      then (ServerResult.no_system, s)
      else if not s.is_recording_video
      then (ServerResult.success, s)
      else end_video s.sensor_mode s
