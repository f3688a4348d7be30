-- ===== src/Plugin/Tests.antt =====
-- The camera plugin at work, with a camera that keeps what it is given.
use mavcam.Prelude.{
  ◌≡◌, refl, ℕ, ◌&&◌, true, false, none, some, String, [], ◌∷◌, str_eq, if◌then◌else◌,
}
use mavcam.Prelude.Int.{ℤ, negsuc}
use mavcam.Prelude.Text.{stoi}
use mavcam.Results.{MavResult, CameraResult}
use mavcam.Camera.Types.{Mode, StorageStatus, StorageType, Setting}
use mavcam.Plugin.{
  Plugin, PluginDevice, PreviewOutput, LensInformation, CardStatus, CardType, find_option,
}
use mavcam.Plugin.Operations.{handle_setting, set_setting, get_setting}
use mavcam.Plugin.ReadBack.{ReportsWhitebalance, ReportsVideo}
use mavcam.Local.Startup.{Load}
use mavcam.Plugin.Prepare.{PluginStartup}
use mavcam.Plugin.Stored.{plugin_set_then_get}

pub record Memory : Type 0 where
  balance : ℤ
  width : ℕ
  height : ℕ
  rate : ℕ

abbrev ok_call : Memory → MavResult × Memory
ok_call w = (MavResult.success, w)

abbrev lens : LensInformation ℕ
lens = record {
  focal_length_mm = 24;
  horizontal_sensor_size_mm = 6;
  vertical_sensor_size_mm = 5;
  horizontal_resolution_px = 9248;
  vertical_resolution_px = 6944;
  lens_id = 0;
}

abbrev pub small : PluginDevice Memory ℕ
small = record {
  set_mode = λ m. ok_call;
  set_preview_stream_output_type = λ m. ok_call;
  set_snapshot_resolution = λ m. ok_call;
  set_white_balance = λ n w. (MavResult.success, record w { balance = n });
  get_white_balance = λ w. ((MavResult.success, w.balance), w);
  set_exposure_value = λ v. ok_call;
  set_iso = λ n. ok_call;
  set_shutter_speed = λ v. ok_call;
  set_video_resolution = λ a b w. (MavResult.success, record w { width = a; height = b });
  get_video_resolution = λ w. ((MavResult.success, w.width, w.height), w);
  set_framerate = λ f w. (MavResult.success, record w { rate = f });
  get_framerate = λ w. ((MavResult.success, w.rate), w);
  set_metering_mode = λ n. ok_call;
  reset_settings = ok_call;
  take_photo = ok_call;
  start_video = ok_call;
  stop_video = ok_call;
  format_storage = λ n. ok_call;
  set_timestamp = λ t. ok_call;
  set_zoom = λ z. ok_call;
  get_information = λ w. ((MavResult.success, lens), w);
  get_preview_resolution = λ w. ((MavResult.success, 1280, 720), w);
  steady_now = λ w. 0;
  float_of = λ n. n;
  set_color_mode = λ n w. (true, w);
  run_ffc = λ w. w;
  auto_whitebalance = negsuc 0;
  unset_result = λ w. MavResult.unknown;
  stof = λ text. some 0;
}

abbrev pub setting_of : String → String → Setting
setting_of id value = record {
  setting_id = id;
  setting_description = "";
  option = record { option_id = value; option_description = "" };
  is_range = false;
}

abbrev pub plugin : Plugin Memory ℕ
plugin = record {
  has_camera = true;
  has_ir_camera = false;
  current_mode = Mode.photo;
  settings = setting_of "CAM_MODE" "0" ∷ setting_of "CAM_ISO" "100" ∷ [];
  status = record {
    video_on = false;
    photo_interval_on = false;
    used_storage_mib = 0;
    available_storage_mib = 0;
    total_storage_mib = 0;
    recording_time_s = 0;
    media_folder_name = "";
    storage_status = StorageStatus.not_available;
    storage_id = 0;
    storage_type = StorageType.unknown;
  };
  start_video_time = 0;
  card = record {
    available_storage_mib = 900;
    total_storage_mib = 1000;
    storage_id = 1;
    storage_status = CardStatus.formatted;
    storage_type = CardType.sd;
  };
  framerate = 30;
  snapshot = (1920, 1440);
  half_snapshot = (960, 720);
  world = record { balance = negsuc 0; width = 3840; height = 2160; rate = 30 };
}

reports_whitebalance : ReportsWhitebalance small
reports_whitebalance n w = refl

reports_video : ReportsVideo small
reports_video width height framerate w = (refl, refl)

iso_handled : handle_setting small "CAM_ISO" "200" plugin ≡ some (true, plugin)
unfolding handle_setting stoi
iso_handled = refl

plugin_set_then_get_example :
    (p'' : Plugin Memory ℕ) × (set_setting small (setting_of "CAM_ISO" "200") plugin
      ≡ some (CameraResult.success, p''))
    × (get_setting (setting_of "CAM_ISO" "") p'' ≡ elim (find_option "CAM_ISO" plugin.settings) [
      | none ↦ (CameraResult.wrong_argument, setting_of "CAM_ISO" "")
      | some option ↦ (
        CameraResult.success,
        record (setting_of "CAM_ISO" "") {
          option =
              if true && str_eq "CAM_ISO" "CAM_ISO"
              then record { option_id = "200"; option_description = "" }
              else option;
        },
      )
    ])
plugin_set_then_get_example =
    plugin_set_then_get small (setting_of "CAM_ISO" "200") (setting_of "CAM_ISO" "") plugin plugin
      true iso_handled

abbrev refusing : PluginStartup Memory ℕ
refusing = record {
  env_camera_mode = none;
  env_snapshot = none;
  env_store_prefix = none;
  unset_snapshot = (0, 0);
  unset_display = λ w. (MavResult.success, PreviewOutput.rgb);
  camera_library = λ w. Load.loaded;
  camera_prepare = λ w. (MavResult.error, w);
  camera_open = λ o w. (MavResult.success, w);
  camera_close = λ w. w;
  get_snapshot_resolution = λ w. ((9248, 6944), w);
  ir_library = λ w. Load.no_library;
  ir_open = λ w. (true, w);
  ir_close = λ w. w;
  get_color_mode = λ w. negsuc 0;
  get_exposure_value = λ w. (MavResult.success, 0);
  get_iso = λ w. (MavResult.success, negsuc 0);
  get_shutter_speed = λ w. (MavResult.success, "0.01");
  fixed1 = λ x. "0.0";
  float_text = λ x. "0.0";
  float_div = λ x y. x;
}

abbrev absent : Plugin Memory ℕ
absent = record plugin { has_camera = false }
