-- ===== src/Local/Settings/Shown.antt =====
-- What fill_settings of src/mav_client/camera_local_client.cpp shows after set_mode and set_zoom_range.
use mavcam.Prelude.{
  ◌≡◌, ◌∙◌, refl, ap, true, some, String, at, or_empty, contains, if◌then◌else◌, arith,
}
use mavcam.Results.{MavResult, ServerResult, is_server_success}
use mavcam.Camera.Types.{Mode}
use mavcam.Local.Device.{Device, CaptureMode}
use mavcam.Local.State.{Local}
use mavcam.Local.Settings.Keys.{Key}
use mavcam.Local.Settings.Handlers.{handle, set_camera_mode}
use mavcam.Local.Settings.Operations.{set_setting, set_mode, set_zoom_range, fill_settings}
use mavcam.Local.Settings.Written.{setting_written}

-- The mode that the camera is asked for, and the one that is shown: any mode but photo means video.
abbrev pub capture_mode : Mode → CaptureMode
capture_mode Mode.photo = CaptureMode.photo
capture_mode _ = CaptureMode.video

abbrev pub shown_mode : Mode → Mode
shown_mode Mode.photo = Mode.photo
shown_mode _ = Mode.video

abbrev mode_value : Mode → String
mode_value Mode.photo = "0"
mode_value _ = "1"

module _ {W F : Type 0} (d : Device W F) where
  set_mode-setting :
      (mode : Mode) (s : Local W F)
      → set_mode d mode s ≡ set_setting d "CAM_MODE" (mode_value mode) s
  unfolding set_mode
  set_mode-setting Mode.photo s = refl
  set_mode-setting _ s = refl

  mode_handled :
      (mode : Mode) (s : Local W F)
      → (d.rgb.set_mode (capture_mode mode) s.world).0 ≡ MavResult.success
      → (s' : Local W F) × (handle d Key.mode (mode_value mode) s ≡ some (true, s'))
  unfolding handle set_camera_mode
  mode_handled Mode.photo s h =
      (record s { world = (d.rgb.set_mode CaptureMode.photo s.world).1 }, ground arith)
  mode_handled Mode.video s h =
      (record s { world = (d.rgb.set_mode CaptureMode.video s.world).1 }, ground arith)
  mode_handled Mode.unknown s h =
      (record s { world = (d.rgb.set_mode CaptureMode.video s.world).1 }, ground arith)

  fill_settings-mode :
      (mode : Mode) (s : Local W F)
      → at "CAM_MODE" s.settings ≡ mode_value mode
      → (fill_settings s).0.mode ≡ shown_mode mode
  unfolding fill_settings
  fill_settings-mode Mode.photo s h = rw h
  fill_settings-mode Mode.video s h = rw h
  fill_settings-mode Mode.unknown s h = rw h

  -- When there is a camera with a mode setting and it takes the new mode, set_mode answers Success, and
  -- from then on fill_settings shows photo if that was asked for, and video otherwise.
  pub mode_shown :
      (mode : Mode) (s : Local W F)
      → s.has_mav_camera ≡ true
      → contains "CAM_MODE" s.settings ≡ true
      → (d.rgb.set_mode (capture_mode mode) s.world).0 ≡ MavResult.success
      → (s' : Local W F) × (set_mode d mode s ≡ some (ServerResult.success, s'))
        × ((fill_settings s').0.mode ≡ shown_mode mode)
  mode_shown mode s camera known h =
      let (taken, handled) = mode_handled mode s h in
      let (s', done, value, _) =
        setting_written d Key.mode (mode_value mode) "CAM_MODE" s taken true
          (λ e. absurd (ground arith)) camera known known handled in
      (s', set_mode-setting mode s ∙ done, fill_settings-mode mode s' (ap or_empty value))

  -- After set_zoom_range, fill_settings shows the new zoom exactly if the answer is Success, and the
  -- zoom of before otherwise; the mode that it shows does not change.
  pub zoom_shown :
      (range : F) (s : Local W F)
      → let (result, s') = set_zoom_range d range s in
        ((fill_settings s').0.zoom_level
          ≡ (if is_server_success result then range else s.zoom_level))
        × ((fill_settings s').0.mode ≡ (fill_settings s).0.mode)
  unfolding fill_settings set_zoom_range
  zoom_shown range s = (ground arith, ground arith)
