-- ===== src/Local/Capture/Videos.antt =====
-- What start_video and stop_video promise, and what the infrared modes do to it.
use mavcam.Prelude.{
  ℕ, ◌≡◌, ◌≢◌, ◌⊎◌, ◌∙◌, refl, Bool, true, false, not, ◌&&◌, ◌||◌, if◌then◌else◌, String, ◌∷◌,
  if_cases, eq_iff, arith,
}
use mavcam.Results.{ServerResult, is_server_success}
use mavcam.Local.Device.{Device}
use mavcam.Local.State.{Local, SensorMode, LedMode, call}
use mavcam.Local.Capture.{
  HasOneSensor, sdcard_min_available_mb, take_photo, start_video, stop_video, next_video,
  record_video, end_video,
}
use mavcam.Local.Capture.Guards.{with_storage_rule}

-- The state after a recording that was begun or not, from the state before it.
abbrev pub Started : {W F : Type 0} → Device W F → Local W F → ServerResult → Local W F → Type 0
Started d s result s' =
    let ok = is_server_success result in
    (s'.is_recording_video ≡ (ok || s.is_recording_video))
    × (s'.leds ≡ (if ok then LedMode.recording ∷ s.leds else s.leds))
    × (s'.start_video_time ≡ (if ok then d.host.steady_now s'.world else s.start_video_time))
    × (s'.sensor_mode ≡ s.sensor_mode)
    × (s'.has_ir_camera ≡ s.has_ir_camera)

-- The state after a recording that was ended or not.
abbrev pub Stopped : {W F : Type 0} → Local W F → ServerResult → Local W F → Type 0
Stopped s result s' =
    let ok = is_server_success result in
    (s'.is_recording_video ≡ (s.is_recording_video && not ok))
    × (s'.leds ≡ (if ok && s.is_recording_video then LedMode.normal ∷ s.leds else s.leds))
    × (s'.start_video_time ≡ s.start_video_time)
    × (s'.has_mav_camera ≡ s.has_mav_camera)

abbrev OneSensor : SensorMode → Bool → Type 0
OneSensor mode has_ir = (mode ≡ SensorMode.normal) ⊎ ((mode ≡ SensorMode.ir) × (has_ir ≡ true))

module _ {W F : Type 0} (d : Device W F) (brand : String) where
  pub HasOneSensor-keep :
      (s s' : Local W F)
      → s'.sensor_mode ≡ s.sensor_mode
      → s'.has_ir_camera ≡ s.has_ir_camera
      → HasOneSensor s
      → HasOneSensor s'
  HasOneSensor-keep s s' m i one = ground arith

  record_video-Started :
      (mode : SensorMode) (directory : String) (index : ℕ) (s : Local W F)
      → OneSensor mode s.has_ir_camera
      → let (result, s') = record_video d brand mode directory index s in Started d s result s'
  unfolding record_video
  record_video-Started SensorMode.normal directory index s h =
      (ground arith, ground arith, ground arith, ground arith, ground arith)
  record_video-Started SensorMode.ir directory index s h =
      (ground arith, ground arith, ground arith, ground arith, ground arith)
  record_video-Started SensorMode.dual directory index s h = absurd (ground arith)

  end_video-Stopped :
      (mode : SensorMode) (s : Local W F)
      → OneSensor mode s.has_ir_camera
      → s.is_recording_video ≡ true
      → let (result, s') = end_video d mode s in Stopped s result s'
  unfolding end_video
  end_video-Stopped SensorMode.normal s h r =
      (ground arith, ground arith, ground arith, ground arith)
  end_video-Stopped SensorMode.ir s h r = (ground arith, ground arith, ground arith, ground arith)
  end_video-Stopped SensorMode.dual s h r = absurd (ground arith)

  start_video-Started :
      (s : Local W F)
      → HasOneSensor s
      → Started d s (start_video d brand s).0 (start_video d brand s).1
  unfolding start_video next_video
  start_video-Started s one =
      with_storage_rule d (Started d s) (next_video d brand) s (refl, refl, refl, refl, refl)
        (refl, refl, refl, refl, refl) (λ w. (refl, refl, refl, refl, refl))
        λ directory w.
          let s' : Local W F = record s { world = w } in
          let (index, s'') = call d.host.get_file_index s' in
          record_video-Started s.sensor_mode directory index s'' one

  pub stop_video-Stopped :
      (s : Local W F) → HasOneSensor s → Stopped s (stop_video d s).0 (stop_video d s).1
  unfolding stop_video
  stop_video-Stopped s one =
      if_cases Q (not s.has_mav_camera) (λ _. (ground arith, refl, refl, refl))
        λ _.
          if_cases Q (not s.is_recording_video) (λ e. (ground arith, ground arith, refl, refl))
            λ e. end_video-Stopped s.sensor_mode s one (ground arith)
    where
      Q : ServerResult × Local W F → Type 0
      Q r = Stopped s r.0 r.1

  -- With one sensor (normal mode, or infrared mode with an infrared camera), a recording runs after
  -- start_video exactly if it ran before or the answer is Success, and on Success the start time is
  -- the clock's and the LED shows the recording. It runs after stop_video exactly if it ran before and
  -- the answer is not Success, and the LED returns to normal exactly if that ended it.
  pub recording_follows_result :
      (s : Local W F)
      → HasOneSensor s
      → Started d s (start_video d brand s).0 (start_video d brand s).1
        × Stopped s (stop_video d s).0 (stop_video d s).1
  recording_follows_result s one = (start_video-Started s one, stop_video-Stopped s one)

  stop_idle :
      (s : Local W F)
      → s.is_recording_video ≡ false
      → s.has_mav_camera ≡ true
      → stop_video d s ≡ (ServerResult.success, s)
  unfolding stop_video
  stop_idle s h c = ground arith

  stop_video-camera :
      (s : Local W F) → (stop_video d s).0 ≡ ServerResult.success → s.has_mav_camera ≡ true
  unfolding stop_video
  stop_video-camera s h = ground arith

  -- With one sensor, a recording that start_video began is ended by a stop_video that answers Success,
  -- the LED going to recording and back to normal; a second stop_video does nothing at all.
  pub start_then_stop :
      (s : Local W F)
      → HasOneSensor s
      → (start_video d brand s).0 ≡ ServerResult.success
      → (stop_video d (start_video d brand s).1).0 ≡ ServerResult.success
      → let (stopped, s'') = stop_video d (start_video d brand s).1 in
        (s''.is_recording_video ≡ false)
        × (s''.leds ≡ LedMode.normal ∷ LedMode.recording ∷ s.leds)
        × (stop_video d s'' ≡ (ServerResult.success, s''))
  start_then_stop s one h k =
      let s' : Local W F = (start_video d brand s).1 in
      let begun : Started d s (start_video d brand s).0 s' = start_video-Started s one in
      let ended : Stopped s' (stop_video d s').0 (stop_video d s').1 =
        stop_video-Stopped s' (HasOneSensor-keep s s' begun.3 begun.4 one) in
      let camera : s'.has_mav_camera ≡ true = stop_video-camera s' k in
      let off : (stop_video d s').1.is_recording_video ≡ false = ground arith in
      (off, ground arith, stop_idle (stop_video d s').1 off (ended.3 ∙ camera))

  -- In infrared mode without an infrared camera, whenever the guards let a request through, taking a
  -- photo and starting a video answer Success and do nothing; and a running recording cannot be
  -- stopped: stop_video answers Success and leaves it on.
  pub ir_mode_without_camera :
      (s : Local W F)
      → s.sensor_mode ≡ SensorMode.ir
      → s.has_ir_camera ≡ false
      → s.has_mav_camera ≡ true
      → d.host.less_than s.storage.available_storage_mib sdcard_min_available_mb ≡ false
      → (call d.host.get_storage_path s).0 ≢ ""
      → let (photo, p) = take_photo d brand s in
        let (video, v) = start_video d brand s in
        (photo ≡ ServerResult.success)
        × (p.image_count ≡ s.image_count)
        × (video ≡ ServerResult.success)
        × (v.is_recording_video ≡ s.is_recording_video)
        × (stop_video d s ≡ (ServerResult.success, s))
  unfolding take_photo start_video stop_video
  ir_mode_without_camera s m i c l p = ground (arith, eq_iff (call d.host.get_storage_path s).0 "")
