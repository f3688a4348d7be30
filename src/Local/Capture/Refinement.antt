-- ===== src/Local/Capture/Refinement.antt =====
-- The capture operations of the local client, in any order, against an abstract recorder.
use mavcam.Prelude.{
  ℕ, ◌≡◌, refl, ◌∙◌, ap, Bool, true, false, not, String, List, [], ◌∷◌, if_rule, arith,
  if◌then◌else◌,
}
use mavcam.Results.{ServerResult, is_server_success}
use mavcam.Local.Device.{Device}
use mavcam.Local.State.{Local, SensorMode, call}
use mavcam.Local.Capture.{
  HasOneSensor, next_count, take_photo, start_video, stop_video, next_photo, shoot, next_video,
  record_video, end_video,
}
use mavcam.Local.Capture.Guards.{with_storage_rule}
use mavcam.Local.Capture.Photos.{take_photo_counts}
use mavcam.Local.Capture.Videos.{recording_follows_result, HasOneSensor-keep}

-- What is asked of the client, and the recorder that an operator has in mind: whether it records, and
-- how many photos it has taken.
pub data Request : Type 0 where
  photo start stop : Request

pub record Recorder : Type 0 where
  pub recording : Bool
  pub taken : ℕ

-- The recorder after an answer. Only a Success moves it.
unfoldable pub answered : Request × ServerResult → Recorder → Recorder
answered (request, result) r =
    if is_server_success result
    then elim request [
      | Request.photo ↦ record r { taken = next_count r.taken }
      | Request.start ↦ record r { recording = true }
      | Request.stop ↦ record r { recording = false }
    ]
    else r

unfoldable pub replay : List (Request × ServerResult) → Recorder → Recorder
unfolding answered
replay [] r = r
replay (a ∷ answers) r = replay answers (answered a r)

abbrev pub view : {W F : Type 0} → Local W F → Recorder
view s = record { recording = s.is_recording_video; taken = s.image_count }

abbrev KeepsSensor : {W F : Type 0} → Local W F → Local W F → Type 0
KeepsSensor s s' = (s'.sensor_mode ≡ s.sensor_mode) × (s'.has_ir_camera ≡ s.has_ir_camera)

module _ {W F : Type 0} (d : Device W F) (brand : String) where
  unfoldable pub request : Request → Local W F → ServerResult × Local W F
  request Request.photo s = take_photo d brand s
  request Request.start s = start_video d brand s
  request Request.stop s = stop_video d s

  -- A series of requests: what each was answered, and the state after them.
  unfoldable pub serve : List Request → Local W F → List (Request × ServerResult) × Local W F
  unfolding request
  serve [] s = ([], s)
  serve (q ∷ qs) s =
      let (result, s') = request q s in
      let (answers, s'') = serve qs s' in ((q, result) ∷ answers, s'')

  shoot-KeepsSensor :
      (mode : SensorMode) (directory : String) (index : ℕ) (s : Local W F)
      → KeepsSensor s (shoot d brand mode directory index s).1
  unfolding shoot
  shoot-KeepsSensor SensorMode.normal directory index s = (ground arith, ground arith)
  shoot-KeepsSensor SensorMode.ir directory index s = (ground arith, ground arith)
  shoot-KeepsSensor SensorMode.dual directory index s = (ground arith, ground arith)

  take_photo-KeepsSensor : (s : Local W F) → KeepsSensor s (take_photo d brand s).1
  unfolding take_photo next_photo
  take_photo-KeepsSensor s =
      with_storage_rule d (λ _. KeepsSensor s) (next_photo d brand) s (refl, refl) (refl, refl)
        (λ w. (refl, refl))
        λ directory w.
          let (index, s') = call d.host.get_file_index (record s { world = w }) in
          shoot-KeepsSensor s.sensor_mode directory index s'

  record_video-count :
      (mode : SensorMode) (directory : String) (index : ℕ) (s : Local W F)
      → (record_video d brand mode directory index s).1.image_count ≡ s.image_count
  unfolding record_video
  record_video-count SensorMode.normal directory index s = ground arith
  record_video-count SensorMode.ir directory index s = ground arith
  record_video-count SensorMode.dual directory index s = ground arith

  start_video-count : (s : Local W F) → (start_video d brand s).1.image_count ≡ s.image_count
  unfolding start_video next_video
  start_video-count s =
      with_storage_rule d (λ _ s'. s'.image_count ≡ s.image_count) (next_video d brand) s refl refl
        (λ w. refl)
        λ directory w.
          let (index, s') = call d.host.get_file_index (record s { world = w }) in
          record_video-count s.sensor_mode directory index s'

  -- Whatever the sensor mode, ending a recording keeps the sensor and the number of photos.
  Kept : Local W F → Local W F → Type 0
  Kept s s' = KeepsSensor s s' × (s'.image_count ≡ s.image_count)

  end_video-Kept : (mode : SensorMode) (s : Local W F) → Kept s (end_video d mode s).1
  unfolding end_video Kept
  end_video-Kept SensorMode.normal s = ((ground arith, ground arith), ground arith)
  end_video-Kept SensorMode.ir s = ((ground arith, ground arith), ground arith)
  end_video-Kept SensorMode.dual s = ((ground arith, ground arith), ground arith)

  stop_video-Kept : (s : Local W F) → Kept s (stop_video d s).1
  unfolding stop_video Kept
  stop_video-Kept s =
      if_rule Q (not s.has_mav_camera) ((refl, refl), refl)
        (if_rule Q (not s.is_recording_video) ((refl, refl), refl) (end_video-Kept s.sensor_mode s))
    where
      Q : ServerResult × Local W F → Type 0
      Q r = Kept s r.1

  -- One request moves the client as it moves the recorder, and leaves the sensor in use.
  request-answered :
      (q : Request) (s : Local W F)
      → HasOneSensor s
      → let (result, s') = request q s in
        (view s' ≡ answered (q, result) (view s)) × KeepsSensor s s'
  unfolding request answered Kept
  request-answered Request.photo s one =
      (ground (arith, take_photo_counts d brand s one), take_photo-KeepsSensor s)
  request-answered Request.start s one =
      let begun = (recording_follows_result d brand s one).0 in
      (ground (arith, begun.0, start_video-count s), (begun.3, begun.4))
  request-answered Request.stop s one =
      let ended = (recording_follows_result d brand s one).1 in
      (ground (arith, ended.0, (stop_video-Kept s).1), (stop_video-Kept s).0)

  -- Photos, starts and stops in any order, with one sensor, are a run of the abstract recorder: what
  -- the client then holds, whether a recording runs and how many photos were taken, is what its answers
  -- alone say.
  pub capture_refines_recorder :
      (qs : List Request) (s : Local W F)
      → HasOneSensor s
      → let (answers, s') = serve qs s in view s' ≡ replay answers (view s)
  unfolding serve replay
  capture_refines_recorder [] s one = refl
  capture_refines_recorder (q ∷ qs) s one =
      let (result, s') = request q s in
      let (moved, kept) = request-answered q s one in
      capture_refines_recorder qs s' (HasOneSensor-keep d brand s s' kept.0 kept.1 one)
      ∙ ap (replay (serve qs s').0) moved
