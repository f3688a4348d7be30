-- ===== src/Service/Plugged.antt =====
-- The camera plugin as the camera of the service: mavcam::Camera forwards every call
-- (src/mav_server/plugins/camera/camera.cpp). prepare() loads the drivers, and is a parameter.
use mavcam.Prelude.{Option, none, some}
use mavcam.Results.{CameraResult}
use mavcam.Plugin.{Plugin, PluginDevice}
use mavcam.Plugin.Operations.{set_setting, get_setting, reset_settings}
use mavcam.Plugin.Calls
use mavcam.Service.{CameraApi}

-- A query whose value is handed over at once.
abbrev handed {ℓ} : {A : Type ℓ} {S : Type 0} → A × S → Option A × S
handed (a, s) = (some a, s)

module _ {W D F : Type 0} (d : PluginDevice W F) where
  abbrev pub plugin_api : (Plugin W F → CameraResult × Plugin W F) → CameraApi (Plugin W F) D F
  plugin_api prepare = record {
    prepare = prepare;
    take_photo = Calls.take_photo d;
    start_photo_interval = Calls.start_photo_interval;
    stop_photo_interval = Calls.stop_photo_interval;
    start_video = Calls.start_video d;
    stop_video = Calls.stop_video d;
    start_video_streaming = Calls.start_video_streaming;
    stop_video_streaming = Calls.stop_video_streaming;
    set_mode = Calls.set_mode d;
    list_photos = Calls.list_photos;
    mode_async = λ p. (some p.current_mode, p);
    information_async = λ p. handed (Calls.information d p);
    video_stream_info_async = λ p. handed (Calls.video_stream_info d p);
    capture_info_async = λ p. (none, p);
    status_async = λ p. handed (Calls.status d p);
    current_settings_async = λ p. (some p.settings, p);
    possible_setting_options_async = λ p. (none, p);
    set_setting = set_setting d;
    get_setting = get_setting;
    format_storage = Calls.format_storage d;
    select_camera = Calls.select_camera;
    reset_settings = reset_settings d;
    set_timestamp = Calls.set_timestamp d;
    set_zoom_range = Calls.set_zoom_range d;
  }
