-- ===== src/Local/Startup/Tests.antt =====
-- A start-up at work, on a store that has no camera mode yet.
use mavcam.Prelude.{
  ◌≡◌, refl, inr, ℕ, ◌/◌, Bool, true, false, Option, none, some, at, lookup, insert,
}
use mavcam.Prelude.Int.{pos}
use mavcam.Results.{MavResult, ServerResult}
use mavcam.Local.Device.{
  CaptureMode, PhotoResolutionMode, VideoResolutionMode, EncoderType, JpegQuality, PhotoFormat,
}
use mavcam.Local.State.{Local}
use mavcam.Local.Settings.InStep.{IsInStep}
use mavcam.Local.Tests.{small, ready, small_sets_up}
use mavcam.Local.Startup.{Startup, CameraOptions, Load}
use mavcam.Local.Startup.Camera.{choose_mode, text_of_mode, init_mav_camera}
use mavcam.Local.Startup.Init.{init_settings, init_render_bridge}
use mavcam.Local.Startup.Shutdown.{create_local_client, delete_client}
use mavcam.Local.Startup.Lifecycle.{IsFresh, IsDown, refused_open_never_returns}
use mavcam.Local.Capture.{start_video, stop_video}
use mavcam.Local.Settings.Operations.{set_mode}
use mavcam.Local.Session.{Step, Session}
use mavcam.Local.Session.Life.{client_lasts}
use mavcam.Camera.Types.{Mode}
use mavcam.Local.Startup.InStep.{camera_mode_survives_restart, init_settings-IsInStep}

abbrev plain_options : CameraOptions
plain_options = record {
  init_mode = CaptureMode.unknown;
  photo_resolution_mode = PhotoResolutionMode.full;
  video_resolution_mode = VideoResolutionMode.uhd30;
  jpeg_quality = JpegQuality.fine;
  photo_format = PhotoFormat.jpeg;
  photo_min_interval_in_millisecond = pos 0;
}

abbrev video_asked : Startup ℕ ℕ
video_asked = record {
  env_camera_mode = some "1";
  env_photo_resolution = none;
  unset_options = plain_options;
  render_library = λ w. Load.loaded;
  render_open = λ w. (true, w);
  storage_library = λ w. Load.loaded;
  storage_open = λ w. (true, w);
  camera_library = λ w. Load.loaded;
  camera_prepare = λ w. (MavResult.success, w);
  camera_open = λ o w. (MavResult.success, w);
  ir_library = λ w. Load.no_library;
  ir_open = λ w. (true, w);
  render_close = λ w. w;
  storage_close = λ w. w;
  ir_close = λ w. w;
  get_photo_resolution_mode = λ w. (PhotoResolutionMode.quarter, w);
  get_video_resolution_mode = λ w. (VideoResolutionMode.uhd30, w);
  get_video_encoder_type = λ w. (EncoderType.h265, w);
  get_white_balance = λ w. ((MavResult.success, pos 5500), w);
  get_exposure_value = λ w. ((MavResult.success, 2), w);
  get_iso = λ w. ((MavResult.success, pos 200), w);
  get_shutter_speed = λ w. ((MavResult.success, "0.02"), w);
  get_color_mode = λ w. (pos 3, w);
  get_ffc_mode = λ w. (pos 1, w);
  fixed1 = λ x. "2.0";
  float_text = λ x. "0.02";
  float_div = λ x y. x / y;
}

abbrev photo_asked : Startup ℕ ℕ
photo_asked = record video_asked { env_camera_mode = some "0" }

camera_mode_survives_restart_example :
    let (chosen, s') = choose_mode small video_asked (plain_options, ready) in
    (at "CAM_MODE" s'.settings ≡ text_of_mode chosen.init_mode)
    × ((choose_mode small photo_asked (plain_options, s')).0.init_mode ≡ chosen.init_mode)
camera_mode_survives_restart_example =
    camera_mode_survives_restart small video_asked photo_asked plain_options plain_options ready
      refl

abbrev or_ready : Option (Local ℕ ℕ) → Local ℕ ℕ
or_ready none = ready
or_ready (some s) = s

abbrev started : Local ℕ ℕ
started = or_ready (init_settings small video_asked ready)

starts : init_settings small video_asked ready ≡ some started
unfolding init_settings lookup insert
starts = refl

init_settings-IsInStep_example : IsInStep started
init_settings-IsInStep_example = init_settings-IsInStep small video_asked ready started starts

abbrev fresh : Local ℕ ℕ
fresh = record ready {
  has_mav_camera = false;
  has_storage_manager = false;
  handles = record { render = false; camera = false; ir = false; storage = false };
}

fresh-IsFresh : IsFresh fresh
fresh-IsFresh = record {
  no_camera = refl;
  no_ir = refl;
  no_render = refl;
  no_storage = refl;
  ir_unloaded = refl;
  idle = refl;
  joined = refl;
}

abbrev created : Option (Bool × Local ℕ ℕ) → Local ℕ ℕ
created none = ready
created (some (ok, s)) = s

abbrev new_client : Local ℕ ℕ
new_client = created (create_local_client small video_asked fresh)

creates : create_local_client small video_asked fresh ≡ some (true, new_client)
unfolding create_local_client lookup insert
creates = refl

-- A session: video mode, and a recording that is started and stopped.
abbrev answered : Option (ServerResult × Local ℕ ℕ) → Local ℕ ℕ
answered none = ready
answered (some (result, s)) = s

abbrev in_video_mode : Local ℕ ℕ
in_video_mode = answered (set_mode small Mode.video new_client)

changes_mode : set_mode small Mode.video new_client ≡ some (ServerResult.success, in_video_mode)
unfolding set_mode create_local_client lookup insert
changes_mode = refl

abbrev recorded : Local ℕ ℕ
recorded = (stop_video small (start_video small "NDAA" in_video_mode).1).1

session : Session small "NDAA" new_client recorded
session =
    Session.then_step
      (Session.then_step
        (Session.then_step Session.begun
          (Step.sets_mode Mode.video ServerResult.success new_client in_video_mode changes_mode))
        (Step.starts_video in_video_mode))
      (Step.stops_video (start_video small "NDAA" in_video_mode).1)

client_lasts_example :
    IsInStep recorded
    × ((gone : Local ℕ ℕ) × (delete_client small video_asked recorded ≡ some gone) × IsDown gone)
client_lasts_example =
    client_lasts small video_asked "NDAA" fresh new_client recorded small_sets_up fresh-IsFresh
      creates session

abbrev no_card : Startup ℕ ℕ
no_card = record video_asked { storage_open = λ w. (false, w) }

abbrev with_render : Local ℕ ℕ
with_render = created (init_render_bridge small no_card fresh)

abbrev with_camera : Local ℕ ℕ
with_camera = created (init_mav_camera small no_card with_render)

render_up : init_render_bridge small no_card fresh ≡ some (true, with_render)
unfolding init_render_bridge
render_up = refl

camera_up : init_mav_camera small no_card with_render ≡ some (true, with_camera)
unfolding init_mav_camera init_render_bridge lookup insert
camera_up = refl

refused_open_never_returns_example : create_local_client small no_card fresh ≡ none
refused_open_never_returns_example =
    refused_open_never_returns small no_card fresh fresh-IsFresh
      (inr (with_render, with_camera, render_up, camera_up, refl, refl))
