-- ===== src/Local/Settings/Render.antt =====
-- CameraLocalClient::init_render_mode of src/mav_client/camera_local_client.cpp.
use mavcam.Prelude.{◌&&◌, String, Dict, at, str_eq, if◌then◌else◌}
use mavcam.Local.State.{Local, RenderMode, touch}

-- The ladder; its second branch repeats the test of the first.
unfoldable pub render_mode_of : String → String → String → RenderMode
render_mode_of mode photo video =
    if str_eq mode "0" && str_eq photo "0"
    then RenderMode.photo_full
    else if str_eq mode "0" && str_eq photo "0"
    then RenderMode.photo_quarter
    else if str_eq mode "1" && str_eq video "0"
    then RenderMode.video_4k60
    else if str_eq mode "1" && str_eq video "1"
    then RenderMode.video_4k30
    else if str_eq mode "1" && str_eq video "2"
    then RenderMode.video_1080p60
    else if str_eq mode "1" && str_eq video "3"
    then RenderMode.video_1080p30
    else RenderMode.photo_quarter

-- The keys that the ladder reads are put in where they are missing.
unfoldable pub touch_render : Dict → Dict
touch_render m =
    let touched = touch "CAM_MODE" m in
    if str_eq (at "CAM_MODE" m) "0"
    then touch "CAM_PHOTO_RES" touched
    else if str_eq (at "CAM_MODE" m) "1"
    then touch "CAM_VIDRES" touched
    else touched

abbrev pub render_mode_for : Dict → RenderMode
render_mode_for m = render_mode_of (at "CAM_MODE" m) (at "CAM_PHOTO_RES" m) (at "CAM_VIDRES" m)

module _ {W F : Type 0} where
  unfoldable pub init_render_mode : Local W F → Local W F
  unfolding render_mode_of touch_render
  init_render_mode s = record s {
    render_mode = render_mode_for s.settings;
    settings = touch_render s.settings;
  }
