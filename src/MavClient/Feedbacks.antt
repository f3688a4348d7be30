-- ===== src/MavClient/Feedbacks.antt =====
-- What the MAVLink client sends the ground station about a photo and a reset.
use mavcam.Prelude.{
  ◌≡◌, ℕ, false, Option, none, some, String, List, [], ◌∷◌, refl, arith, if◌then◌else◌,
}
use mavcam.Prelude.Int.{ℤ}
use mavcam.Results.{MavResult, is_server_success}
use mavcam.Plugin.{LensInformation}
use mavcam.Local.Device.{Device}
use mavcam.Local.State.{Local}
use mavcam.Local.Information.{DeviceText, PreviewStream}
use mavcam.Local.Capture.{HasOneSensor, next_count, take_photo}
use mavcam.Local.Capture.Photos.{take_photo_counts}
use mavcam.Local.SdCard.{CaptureStatus, ServerStorage, fill_capture_status}
use mavcam.Remote.{Remote, Stub}
use mavcam.Remote.Operations.{reset_settings, retrieve_current_settings, reply_result}
use mavcam.Remote.{guarded}
use mavcam.MavClient.{Sent, Feedback}
use mavcam.MavClient.Handlers.{on_take_photo, on_reset_settings, fill_param}
use mavcam.MavClient.Clients.{local_client, remote_client}

module _ {W F : Type 0} (d : Device W F) (brand : String) (text : DeviceText)
    (preview : PreviewStream F) (get_information : W → (MavResult × LensInformation F) × W) where
  -- The count of images in a capture status among what is sent.
  abbrev counts_sent : List (Sent F (CaptureStatus F) (ServerStorage F)) → List ℕ
  counts_sent [] = []
  counts_sent (Sent.capture_status c ∷ rest) = c.image_count ∷ counts_sent rest
  counts_sent (_ ∷ rest) = counts_sent rest

  -- A request for a photo with one sensor is answered by two messages, the photo's own and then one
  -- capture status. The photo's says Ok, and that it was taken, exactly on Success, with the index of
  -- the request; the status then has one image more than before exactly on Success, modulo 2 ^ 32.
  pub photo_is_answered :
      (now : ℕ) (index : ℤ) (s : Local W F)
      → HasOneSensor s
      → let (result, s') = take_photo d brand s in
        let taken = is_server_success result in
        let client = local_client d brand text preview get_information in
        let status : CaptureStatus F = fill_capture_status d s' in
        (on_take_photo client now index s
          ≡ some (
            Sent.take_photo (if taken then Feedback.ok else Feedback.failed) now taken index
                ∷ Sent.capture_status status
                ∷ [],
            s',
          ))
        × (status.image_count ≡ (if taken then next_count s.image_count else s.image_count))
  unfolding on_take_photo fill_capture_status
  photo_is_answered now index s one = (refl, (take_photo_counts d brand s one).0)

-- What a handler sends.
abbrev pub sent_of {ℓ κ} : {A : Type ℓ} {B : Type κ} → Option (A × B) → Option A
sent_of none = none
sent_of (some (sent, _)) = some sent

module _ {W F : Type 0} (stub : Stub W F) (zero_float : F) (stof : String → Option F) where
  -- The RPC client holds its mutex while it calls the callback of a reset, and the MAVLink client's
  -- callback reads the settings under the same mutex. So a reset that the service answers with Success
  -- never returns, whatever the state; one that the service refuses is answered Failed.
  pub remote_reset_never_returns :
      (camera : ℤ) (s : Remote W F)
      → s.locked ≡ false
      → let client = remote_client stub zero_float in
        let result = reply_result (stub.reset_settings s.world).0 in
        sent_of (on_reset_settings client stof camera s) ≡ (
          if is_server_success result
          then none
          else some (Sent.reset_settings Feedback.failed ∷ []))
  unfolding on_reset_settings reset_settings fill_param retrieve_current_settings guarded
      reply_result
  remote_reset_never_returns camera s free = ground arith
