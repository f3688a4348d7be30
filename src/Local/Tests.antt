-- ===== src/Local/Tests.antt =====
-- The local camera client at work. The world of this device counts the calls; its camera refuses raw
-- photos and does everything else.
use mavcam.Prelude.{
  ◌≡◌, ◌≢◌, refl, inl, ℕ, ◌+◌, ◌*◌, ◌%◌, ◌^◌, ◌<◌, Bool, true, false, not, ◌&&◌, none, some, String,
  [], ◌∷◌, lookup, insert, at, contains, length, ltb, str_eq, eq_iff, if◌then◌else◌, arith,
}
use mavcam.Prelude.Int.{pos}
use mavcam.Prelude.Text.{stoi}
use mavcam.Param.{get_value, set_value}
use mavcam.Results.{MavResult, ServerResult, is_server_success}
use mavcam.Tracking.Frame.{empty_frame}
use mavcam.Tracking.Control.{read_packet}
use mavcam.Tracking.Server.{TrackingServer}
use mavcam.Local.Device.{
  RgbCamera, IrCamera, Host, Device, PhotoFormat, PhotoResolutionMode, VideoResolutionMode,
  JpegQuality,
}
use mavcam.Local.State.{
  Local, SensorMode, LedMode, RenderMode, StorageStatus, StorageType, StorageInformation, call,
}
use mavcam.Local.Capture.{take_photo, start_video, stop_video}
use mavcam.Local.Capture.Photos.{Counted, take_photo_counts}
use mavcam.Local.Capture.Videos.{Started, Stopped, recording_follows_result}
use mavcam.Local.Capture.Refinement.{Request, view, serve, replay, capture_refines_recorder}
use mavcam.Local.SdCard.{should_be_valid, storage_reported}
use mavcam.Local.SdCard.Reports.{lost_card_stops_recording}
use mavcam.Local.Settings.Keys.{Key, name}
use mavcam.Local.Settings.Render.{render_mode_of, render_mode_for}
use mavcam.Local.Settings.Ai.{
  tracking_coordinate, source_width, source_height, enable_tracking_point,
}
use mavcam.Local.Settings.Handlers.{handle, set_iso, set_photo_format, set_metering_mode}
use mavcam.Local.Settings.Restore.{Restored, init_metering_mode, restored_from_store}
use mavcam.Local.Settings.Operations.{set_setting}
use mavcam.Local.Settings.Reset.{reset_settings}
use mavcam.Local.Settings.Written.{prepared, setting_written}
use mavcam.Local.Settings.InStep.{IsInStep, set_setting-IsInStep, refused_raw_out_of_step}
use mavcam.Local.Settings.Ai.Meanwhile.{SetsUp, all_set_up}
use mavcam.Local.Settings.Targets.{tracking_point_in_source}

abbrev ok_call : ℕ → MavResult × ℕ
ok_call w = (MavResult.success, w + 1)

abbrev ir_call : ℕ → Bool × ℕ
ir_call w = (true, w + 1)

abbrev format_call : PhotoFormat → ℕ → MavResult × ℕ
format_call PhotoFormat.jpeg w = (MavResult.success, w + 1)
format_call PhotoFormat.dng w = (MavResult.denied, w + 1)

abbrev small_rgb : RgbCamera ℕ ℕ
small_rgb = record {
  take_photo = λ path. ok_call;
  start_video = λ path. ok_call;
  stop_video = ok_call;
  set_mode = λ mode. ok_call;
  reset_settings = ok_call;
  set_timestamp = λ t. ok_call;
  set_zoom = λ z. ok_call;
  set_photo_resolution_mode = λ m. ok_call;
  set_video_resolution_mode = λ m. ok_call;
  set_video_encoder_type = λ t. ok_call;
  set_jpeg_quality = λ q. ok_call;
  set_photo_format = format_call;
  set_white_balance = λ n. ok_call;
  set_ae_mode = λ m. ok_call;
  set_exposure_value = λ v. ok_call;
  set_iso = λ n. ok_call;
  set_shutter_speed = λ v. ok_call;
  set_metering_mode = λ n. ok_call;
  set_sharpness = λ n. ok_call;
  set_ae_lock = λ b. ok_call;
  auto_whitebalance = pos 0;
  unset_result = λ w. MavResult.unknown;
  unset_photo_resolution = λ w. PhotoResolutionMode.full;
  unset_video_resolution = λ w. VideoResolutionMode.uhd60;
  unset_jpeg_quality = λ w. JpegQuality.fine;
  unset_photo_format = λ w. PhotoFormat.jpeg;
}

abbrev small_ir : IrCamera ℕ
small_ir = record {
  take_photo = λ path. ir_call;
  start_video_recording = λ path. ir_call;
  stop_video_recording = ir_call;
  set_video_encoder_type = λ t. ir_call;
  set_color_mode = λ n. ir_call;
  set_ffc_mode = λ n. ir_call;
  run_ffc = λ w. w + 1;
}

abbrev small_host : Host ℕ ℕ
small_host = record {
  get_storage_path = λ w. ("/sd", w + 1);
  get_file_index = λ w. (w, w + 1);
  format_storage = λ w. w + 1;
  steady_now = λ w. w * 1_000;
  system = λ command w. (pos 0, w + 1);
  clear_boxes = λ w. w + 1;
  param_opens = λ w. true;
  thread_acts = λ w. ([], w);
  json = record { write = λ m. length m ∷ []; read = λ bytes. none };
  stof = λ text. some 0;
  less_than = ltb;
  float_zero = 0;
  float_one = 1;
  float_lt = ltb;
  float_mul = λ p n. p * n;
  float_to_uint16 = λ p. p;
  net = record { send = λ fd bytes w. (pos (length bytes), w + 1) };
}

abbrev pub small : Device ℕ ℕ
small = record { rgb = small_rgb; ir = small_ir; host = small_host }

abbrev good_card : StorageInformation ℕ
good_card = record {
  total_storage_mib = 1000;
  used_storage_mib = 0;
  available_storage_mib = 1000;
  storage_status = StorageStatus.formatted;
  storage_type = StorageType.sd;
}

abbrev full_card : StorageInformation ℕ
full_card = record good_card { available_storage_mib = 100 }

abbrev idle_server : TrackingServer
idle_server = record {
  address = "";
  port = pos 0;
  server_fd = none;
  running = false;
  joinable = false;
  client_fd = none;
  control_packet_index = 0;
  latest_control_packet = [];
  latest_frame = empty_frame;
}

abbrev pub ready : Local ℕ ℕ
ready = record {
  image_count = 4;
  is_recording_video = false;
  zoom_level = 1;
  start_video_time = 0;
  settings =
      ("CAM_MODE", "0")
      ∷ ("CAM_PHOTO_RES", "1")
      ∷ ("CAM_VIDRES", "1")
      ∷ ("CAM_PHOTO_FMT", "0")
      ∷ ("CAM_ISO", "100")
      ∷ [];
  is_formatting = false;
  is_reseting = false;
  preview_type = pos 0;
  sensor_mode = SensorMode.normal;
  storage = good_card;
  has_mav_camera = true;
  has_ir_camera = false;
  has_render_bridge = false;
  has_storage_manager = true;
  handles = record { render = false; camera = true; ir = false; storage = true };
  render_mode = RenderMode.photo_quarter;
  param = record { root = []; file = [] };
  sdcard_valid = some true;
  tracking_server = idle_server;
  tracking_frame = empty_frame;
  has_tracking_frame = false;
  leds = [];
  world = 0;
}

abbrev pub brand : String
brand = "IMG"

abbrev full : Local ℕ ℕ
full = record ready { storage = full_card }

take_photo_counts_example :
    Counted ready (take_photo small brand ready).0 (take_photo small brand ready).1
take_photo_counts_example = take_photo_counts small brand ready (inl refl)

recording_follows_result_example :
    Started small ready (start_video small brand ready).0 (start_video small brand ready).1
    × Stopped ready (stop_video small ready).0 (stop_video small ready).1
recording_follows_result_example = recording_follows_result small brand ready (inl refl)

capture_refines_recorder_example :
    let (answers, s') =
      serve small brand (Request.photo ∷ Request.start ∷ Request.stop ∷ []) ready in
    view s' ≡ replay answers (view ready)
capture_refines_recorder_example =
    capture_refines_recorder small brand (Request.photo ∷ Request.start ∷ Request.stop ∷ []) ready
      (inl refl)

abbrev ir_recording : Local ℕ ℕ
ir_recording = record ready { sensor_mode = SensorMode.ir; is_recording_video = true }

path_given : (call small_host.get_storage_path ir_recording).0 ≢ ""
path_given e = absurd (ground (arith, eq_iff "/sd" ""))

card_full : should_be_valid small full_card ≡ false
unfolding should_be_valid
card_full = refl

abbrev recording : Local ℕ ℕ
recording = record ready { is_recording_video = true }

lost_card_stops_recording_example :
    let (stopped, t) = stop_video small (record recording { storage = full_card }) in
    let s' = storage_reported small full_card recording in
    (s' ≡ record t { leds = LedMode.sd_card_error ∷ t.leds; sdcard_valid = some false })
    × (s'.is_recording_video ≡ not (is_server_success stopped))
lost_card_stops_recording_example =
    lost_card_stops_recording small full_card recording (inl refl) refl refl card_full

tracking_point_in_source_example :
    let t = (enable_tracking_point small 3 1 ready).1.tracking_server in
    let column = tracking_coordinate small 3 source_width in
    let row = tracking_coordinate small 1 (source_height small ready) in
    (read_packet t.latest_control_packet
      ≡ some (record {
        index = (ready.tracking_server.control_packet_index + 1) % 2 ^ 8;
        detection = true;
        tracking = true;
        x = column;
        y = row;
      }))
    × (column < 1920)
    × (row < source_height small ready)
tracking_point_in_source_example = tracking_point_in_source small 3 1 ready

abbrev iso_set : Local ℕ ℕ
iso_set = record ready { world = 1 }

iso_handled : handle small Key.iso "200" ready ≡ some (true, iso_set)
unfolding handle set_iso stoi
iso_handled = refl

iso_known : contains (name Key.iso) ready.settings ≡ true
unfolding lookup
iso_known = refl

not_ai : Key.iso ≢ Key.ai_function
not_ai e = absurd (ground arith)

not_format : Key.iso ≢ Key.photo_format
not_format e = absurd (ground arith)

setting_written_example :
    (s'' : Local ℕ ℕ) × (set_setting small "CAM_ISO" "200" ready ≡ some (ServerResult.success, s''))
    × (lookup "CAM_ISO" s''.settings ≡ (
        if true && str_eq "CAM_ISO" "CAM_ISO"
        then some "200"
        else lookup "CAM_ISO" (prepared Key.iso "200" ready.settings)))
    × (s''.param ≡ (
        if true
        then (set_value small_host.json true "CAM_ISO" "200" ready.param).1
        else ready.param))
setting_written_example =
    setting_written small Key.iso "200" "CAM_ISO" ready iso_set true not_ai refl iso_known iso_known
      iso_handled

ready-IsInStep : IsInStep ready
unfolding render_mode_of lookup
ready-IsInStep = refl

set_setting-IsInStep_example :
    (s'' : Local ℕ ℕ) × (set_setting small "CAM_ISO" "200" ready ≡ some (ServerResult.success, s''))
    × IsInStep s''
set_setting-IsInStep_example =
    set_setting-IsInStep small Key.iso "200" ready iso_set true not_ai (inl not_format) refl
      iso_known iso_handled ready-IsInStep

abbrev raw_refused : Local ℕ ℕ
raw_refused = record ready {
  settings =
      ("CAM_MODE", "0")
      ∷ ("CAM_PHOTO_RES", "0")
      ∷ ("CAM_VIDRES", "1")
      ∷ ("CAM_PHOTO_FMT", "0")
      ∷ ("CAM_ISO", "100")
      ∷ [];
  world = 1;
}

raw_handled : handle small Key.photo_format "1" ready ≡ some (false, raw_refused)
unfolding handle set_photo_format insert
raw_handled = refl

format_known : contains "CAM_PHOTO_FMT" ready.settings ≡ true
unfolding lookup
format_known = refl

photo_mode : at "CAM_MODE" ready.settings ≡ "0"
unfolding lookup
photo_mode = refl

quarter_photo : at "CAM_PHOTO_RES" ready.settings ≡ "1"
unfolding lookup
quarter_photo = refl

refused_raw_out_of_step_example :
    (set_setting small "CAM_PHOTO_FMT" "1" ready ≡ some (ServerResult.success, raw_refused))
    × (at "CAM_PHOTO_RES" raw_refused.settings ≡ "0")
    × (render_mode_for raw_refused.settings ≡ RenderMode.photo_full)
    × (raw_refused.render_mode ≡ RenderMode.photo_quarter)
    × (raw_refused.param ≡ ready.param)
refused_raw_out_of_step_example =
    refused_raw_out_of_step small ready raw_refused refl format_known photo_mode quarter_photo
      ready-IsInStep raw_handled

pub small_sets_up : SetsUp small
unfolding all_set_up
small_sets_up w = refl

mode_known : contains "CAM_MODE" ready.settings ≡ true
unfolding lookup
mode_known = refl

abbrev remembered : Local ℕ ℕ
remembered = record ready { param = record { root = ("CAM_METER", "3") ∷ []; file = [] } }

metering_restored :
    init_metering_mode small remembered ≡ some ("3", record remembered { world = 1 })
unfolding init_metering_mode set_metering_mode get_value stoi lookup
metering_restored = refl

restored_from_store_example :
    ("3" ≡ (
      if str_eq (get_value "CAM_METER" remembered.param) ""
      then "0"
      else get_value "CAM_METER" remembered.param))
    × (get_value "CAM_METER" remembered.param ≡ "3")
restored_from_store_example =
    restored_from_store small Restored.metering "3" remembered (record remembered { world = 1 })
      refl metering_restored
