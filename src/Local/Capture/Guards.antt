-- ===== src/Local/Capture/Guards.antt =====
-- The guards of take_photo and start_video, and a rule for what both do.
use mavcam.Prelude.{◌≡◌, ◌⊎◌, true, false, String, str_eq, if_rule, not, if◌then◌else◌, arith}
use mavcam.Results.{ServerResult}
use mavcam.Local.Device.{Device}
use mavcam.Local.State.{Local}
use mavcam.Local.Capture.{sdcard_min_available_mb, take_photo, start_video, with_storage}

module _ {W F : Type 0} (d : Device W F) where
  -- To show a property of an answer and the state after it: show it of each refusal, which moves the
  -- world at most, and of the action.
  pub with_storage_rule :
      (P : ServerResult → Local W F → Type 0)
      (action : String → Local W F → ServerResult × Local W F) (s : Local W F)
      → P ServerResult.no_system s
      → P ServerResult.denied s
      → ((w : W) → P ServerResult.denied (record s { world = w }))
      → ((directory : String) (w : W)
          → P
              (action directory (record s { world = w })).0
              (action directory (record s { world = w })).1)
      → P (with_storage d action s).0 (with_storage d action s).1
  unfolding with_storage
  with_storage_rule P action s no_system denied pathless acts =
      if_rule Q (not s.has_mav_camera) no_system (
        if_rule Q (d.host.less_than s.storage.available_storage_mib sdcard_min_available_mb) denied
          (if_rule Q (str_eq (d.host.get_storage_path s.world).0 "")
            (pathless (d.host.get_storage_path s.world).1)
            (acts (d.host.get_storage_path s.world).0 (d.host.get_storage_path s.world).1)))
    where
      Q : ServerResult × Local W F → Type 0
      Q r = P r.0 r.1

module _ {W F : Type 0} (d : Device W F) (brand : String) where
  -- Without a camera, or with less than 200 MB free, a request for a photo or a video changes nothing
  -- at all; it is answered NoSystem in the first case and Denied in the second.
  pub storage_guard :
      (s : Local W F)
      → (s.has_mav_camera ≡ false)
        ⊎ (d.host.less_than s.storage.available_storage_mib sdcard_min_available_mb ≡ true)
      → let refused = if s.has_mav_camera then ServerResult.denied else ServerResult.no_system in
        (take_photo d brand s ≡ (refused, s)) × (start_video d brand s ≡ (refused, s))
  unfolding take_photo start_video
  storage_guard s h = (ground arith, ground arith)
