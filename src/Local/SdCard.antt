-- ===== src/Local/SdCard.antt =====
-- The storage information that the storage manager reports: the subscription of init_storage_manager,
-- check_sdcard_status, fill_storage_information, fill_capture_status and format_storage of
-- src/mav_client/camera_local_client.cpp.
pub mod Reports
use mavcam.Prelude.{
  ℕ, ◌-◌, ◌/◌, Bool, true, false, not, ◌&&◌, ◌||◌, Option, none, some, if◌then◌else◌,
}
use mavcam.Results.{ServerResult}
use mavcam.Camera
use mavcam.Local.Device.{Device}
use mavcam.Local.State.{
  Local, LedMode, StorageInformation, StorageStatus, StorageType, switch_led_mode,
}
use mavcam.Local.Capture.{sdcard_min_available_mb, stop_video}

abbrev pub is_formatted : StorageStatus → Bool
is_formatted StorageStatus.formatted = true
is_formatted _ = false

-- `!_sdcard_valid.has_value() || _sdcard_valid.value() != should_be_valid`
abbrev pub is_news : Option Bool → Bool → Bool
is_news none now = true
is_news (some true) now = not now
is_news (some false) now = now

-- mavsdk::CameraServer::StorageInformation and CaptureStatus, the fields that the client fills.
pub record ServerStorage (F : Type 0) : Type 0 where
  pub total_storage_mib : F
  pub used_storage_mib : F
  pub available_storage_mib : F
  pub storage_status : Camera.Types.StorageStatus
  pub storage_type : Camera.Types.StorageType

pub record CaptureStatus (F : Type 0) : Type 0 where
  pub available_capacity_mib : F
  pub image_count : ℕ
  pub is_capture_in_progress : Bool
  pub recording_time_s : ℕ

module _ {W F : Type 0} (d : Device W F) where
  -- `should_be_valid`: the card is formatted, and not full.
  unfoldable pub should_be_valid : StorageInformation F → Bool
  should_be_valid info =
      is_formatted info.storage_status
      && not (d.host.less_than info.available_storage_mib sdcard_min_available_mb)

  -- The branch of check_sdcard_status for a card that became invalid.
  unfoldable pub card_lost : Local W F → Local W F
  card_lost s =
      switch_led_mode LedMode.sd_card_error (if s.is_recording_video then (stop_video d s).1 else s)

  unfoldable pub check_sdcard_status : Local W F → Local W F
  unfolding card_lost
  check_sdcard_status s =
      let valid = should_be_valid s.storage in
      if is_news s.sdcard_valid valid
      then record (if valid then switch_led_mode LedMode.normal s else card_lost s) {
        sdcard_valid = some valid;
      }
      else s

  -- The callback of `subscribe_storage_info`.
  unfoldable pub storage_reported : StorageInformation F → Local W F → Local W F
  unfolding check_sdcard_status
  storage_reported info s = check_sdcard_status (record s { storage = info })

  -- fill_capture_status: the state of the recording, and its length in whole seconds
  -- on the steady clock, which counts nanoseconds.
  unfoldable pub fill_capture_status : Local W F → CaptureStatus F
  fill_capture_status s = record {
    available_capacity_mib = s.storage.available_storage_mib;
    image_count = s.image_count;
    is_capture_in_progress = s.is_recording_video;
    recording_time_s =
        if s.is_recording_video
        then (d.host.steady_now s.world - s.start_video_time) / 1_000_000_000
        else 0;
  }

  -- format_storage. The future of std::async is dropped, and its destructor waits for the task; so the
  -- call returns when the card is formatted, and only a call from another thread finds the flag set.
  unfoldable pub format_storage : Local W F → ServerResult × Local W F
  format_storage s =
      if not s.has_mav_camera
      then (ServerResult.no_system, s)
      else if s.is_formatting
      then (ServerResult.busy, s)
      else (
        ServerResult.success,
        record s { is_formatting = false; world = d.host.format_storage s.world },
      )

-- The two switches of fill_storage_information.
unfoldable pub server_status : StorageStatus → Camera.Types.StorageStatus
server_status StorageStatus.formatted = Camera.Types.StorageStatus.formatted
server_status StorageStatus.unformatted = Camera.Types.StorageStatus.unformatted
server_status StorageStatus.not_available = Camera.Types.StorageStatus.not_available
server_status StorageStatus.not_supported = Camera.Types.StorageStatus.not_supported

unfoldable pub server_type : StorageType → Camera.Types.StorageType
server_type StorageType.usb_stick = Camera.Types.StorageType.usb_stick
server_type StorageType.sd = Camera.Types.StorageType.microsd
server_type StorageType.internal = Camera.Types.StorageType.other
server_type StorageType.other = Camera.Types.StorageType.unknown

unfoldable pub fill_storage_information : {W F : Type 0} → Local W F → ServerStorage F
unfolding server_status server_type
fill_storage_information s = record {
  total_storage_mib = s.storage.total_storage_mib;
  used_storage_mib = s.storage.used_storage_mib;
  available_storage_mib = s.storage.available_storage_mib;
  storage_status = server_status s.storage.storage_status;
  storage_type = server_type s.storage.storage_type;
}
