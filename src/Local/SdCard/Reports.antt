-- ===== src/Local/SdCard/Reports.antt =====
-- What a series of storage reports does to the client.
use mavcam.Prelude.{◌≡◌, ◌∙◌, refl, ap, Bool, true, false, not, some, List, [], ◌∷◌, arith}
use mavcam.Results.{is_server_success}
use mavcam.Local.Device.{Device}
use mavcam.Local.State.{Local, LedMode, StorageInformation}
use mavcam.Local.Capture.{HasOneSensor, stop_video}
use mavcam.Local.Capture.Videos.{stop_video-Stopped}
use mavcam.Local.SdCard.{should_be_valid, card_lost, check_sdcard_status, storage_reported}

module _ {W F : Type 0} (d : Device W F) where
  stop_video-keeps :
      (s : Local W F)
      → ((stop_video d s).1.storage ≡ s.storage)
        × ((stop_video d s).1.sdcard_valid ≡ s.sdcard_valid)
  unfolding stop_video
  stop_video-keeps s = (ground arith, ground arith)

  -- After a report the client knows it: the stored information is the reported one, and the card is
  -- held valid exactly if it is formatted and has at least 200 MB free.
  report_known :
      (info : StorageInformation F) (s : Local W F)
      → ((storage_reported d info s).storage ≡ info)
        × ((storage_reported d info s).sdcard_valid ≡ some (should_be_valid d info))
  unfolding storage_reported check_sdcard_status card_lost
  report_known info s =
      let after : Local W F = record s { storage = info } in
      (ground (arith, stop_video-keeps after), ground (arith, stop_video-keeps after))

  report_again :
      (info : StorageInformation F) (s : Local W F)
      → s.sdcard_valid ≡ some (should_be_valid d info)
      → storage_reported d info s ≡ record s { storage = info }
  unfolding storage_reported check_sdcard_status
  report_again info s h = ground arith

  abbrev pub reports : List (StorageInformation F) → Local W F → Local W F
  reports [] s = s
  reports (info ∷ infos) s = reports infos (storage_reported d info s)

  abbrev pub last_report : StorageInformation F → List (StorageInformation F) → StorageInformation F
  last_report info [] = info
  last_report info (next ∷ infos) = last_report next infos

  -- Each report says of the card that it is valid, or each says that it is not.
  abbrev pub Agree : Bool → List (StorageInformation F) → Type 0
  Agree valid [] = Unit {0}
  Agree valid (info ∷ infos) = (should_be_valid d info ≡ valid) × Agree valid infos

  reports_from :
      (valid : Bool) (info : StorageInformation F) (infos : List (StorageInformation F))
      (s : Local W F)
      → s.storage ≡ info
      → s.sdcard_valid ≡ some valid
      → Agree valid infos
      → reports infos s ≡ record s { storage = last_report info infos }
  reports_from valid info [] s e v a = ground arith
  reports_from valid info (next ∷ infos) s e v a =
      let once : storage_reported d next s ≡ record s { storage = next } =
        report_again next s (ground arith) in
      ap (reports infos) once
      ∙ reports_from valid next infos (record s { storage = next }) refl v a.1

  -- Any number of reports that agree on whether the card is valid act as the first of them: the later
  -- ones switch no LED, call no driver and change nothing but the stored information. After the first,
  -- the card is held valid exactly if it is formatted and has at least 200 MB free.
  pub agreeing_reports :
      (valid : Bool) (info : StorageInformation F) (infos : List (StorageInformation F))
      (s : Local W F)
      → Agree valid (info ∷ infos)
      → ((storage_reported d info s).sdcard_valid ≡ some valid)
        × (reports (info ∷ infos) s
            ≡ record (storage_reported d info s) { storage = last_report info infos })
  agreeing_reports valid info infos s a =
      let known : (storage_reported d info s).sdcard_valid ≡ some valid =
        (report_known info s).1 ∙ ap some a.0 in
      (
        known,
        reports_from valid info infos (storage_reported d info s) (report_known info s).0 known a.1,
      )

  -- A report that a card held valid is lost or full, while a video is recorded with one sensor, asks
  -- the camera once to stop and shows the card error on the LED; the recording is off afterwards
  -- exactly if that stop succeeded.
  pub lost_card_stops_recording :
      (info : StorageInformation F) (s : Local W F)
      → HasOneSensor s
      → s.is_recording_video ≡ true
      → s.sdcard_valid ≡ some true
      → should_be_valid d info ≡ false
      → let (stopped, t) = stop_video d (record s { storage = info }) in
        let s' = storage_reported d info s in
        (s' ≡ record t { leds = LedMode.sd_card_error ∷ t.leds; sdcard_valid = some false })
        × (s'.is_recording_video ≡ not (is_server_success stopped))
  unfolding storage_reported check_sdcard_status card_lost
  lost_card_stops_recording info s one r v i =
      let after : Local W F = record s { storage = info } in
      (ground arith, ground (arith, stop_video-Stopped d "" after one))
