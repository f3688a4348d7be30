-- ===== src/Local/Capture/Photos.antt =====
-- What take_photo promises.
use mavcam.Prelude.{
  ℕ, ◌≡◌, ◌⊎◌, refl, true, String, ◌∷◌, Dict, at, if◌then◌else◌, eq_iff, lookup-insert, arith,
}
use mavcam.Results.{ServerResult, is_server_success}
use mavcam.Local.Device.{Device}
use mavcam.Local.State.{Local, SensorMode, LedMode, touch, call}
use mavcam.Local.Capture.{HasOneSensor, next_count, take_photo, next_photo, shoot}
use mavcam.Local.Capture.Guards.{with_storage_rule}

-- Reading a key, which may put it in, changes the value of none.
pub at-touch : (key k : String) (m : Dict) → at key (touch k m) ≡ at key m
at-touch key k m = ground (arith, lookup-insert k key "" m, eq_iff k key)

-- The state after a photo that was taken or not, from the state before it.
abbrev pub Counted : {W F : Type 0} → Local W F → ServerResult → Local W F → Type 0
Counted s result s' =
    let taken = is_server_success result in
    (s'.image_count ≡ (if taken then next_count s.image_count else s.image_count))
    × (s'.leds ≡ (if taken then LedMode.take_photo ∷ s.leds else s.leds))
    × (s'.is_recording_video ≡ s.is_recording_video)
    × ((key : String) → at key s'.settings ≡ at key s.settings)

module _ {W F : Type 0} (d : Device W F) (brand : String) where
  shoot-Counted :
      (mode : SensorMode) (directory : String) (index : ℕ) (s : Local W F)
      → (mode ≡ SensorMode.normal) ⊎ ((mode ≡ SensorMode.ir) × (s.has_ir_camera ≡ true))
      → Counted s (shoot d brand mode directory index s).0 (shoot d brand mode directory index s).1
  unfolding shoot
  shoot-Counted SensorMode.normal directory index s h = (
    ground arith,
    ground arith,
    ground arith,
    λ key. ground (arith, at-touch key "CAM_PHOTO_FMT" s.settings),
  )
  shoot-Counted SensorMode.ir directory index s h =
      (ground arith, ground arith, ground arith, λ key. ground arith)
  shoot-Counted SensorMode.dual directory index s h = absurd (ground arith)

  -- With one sensor (normal mode, or infrared mode with an infrared camera) a photo is counted and
  -- shown on the LED exactly when the answer is Success; otherwise the count and the LED stay as they
  -- were. Whether a video is recorded does not change, and no setting changes its value.
  pub take_photo_counts :
      (s : Local W F) → HasOneSensor s → Counted s (take_photo d brand s).0 (take_photo d brand s).1
  unfolding take_photo next_photo
  take_photo_counts s mode =
      with_storage_rule d (Counted s) (next_photo d brand) s (refl, refl, refl, λ key. refl)
        (refl, refl, refl, λ key. refl) (λ w. (refl, refl, refl, λ key. refl))
        λ directory w.
          let s' : Local W F = record s { world = w } in
          let (index, s'') = call d.host.get_file_index s' in
          shoot-Counted s.sensor_mode directory index s'' mode
