-- ===== src/MavClient/Handlers.antt =====
-- The handlers that MavClient gives the servers of MAVSDK: subscribe_camera_operation,
-- subscribe_tracking_operation, subscribe_param_operation and fill_param of
-- src/mav_client/mav_client.cpp.
use mathlib.Core.Option.{map as map_option}
use mavcam.Prelude.{
  ℕ, Bool, Option, none, some, String, List, [], ◌∷◌, ◌++◌, Dict, str_eq, ◌||◌, if◌then◌else◌,
}
use mavcam.Prelude.Int.{ℤ}
use mavcam.Prelude.Text.{stoi, to_string}
use mavcam.Results.{ServerResult, is_server_success}
use mavcam.Camera.Types.{Mode}
use mavcam.MavClient.{ServerParam, CameraClient, Feedback, Answer, Sent}

abbrev pub feedback : ServerResult → Feedback
feedback result = if is_server_success result then Feedback.ok else Feedback.failed

abbrev pub answer : Bool → Answer
answer sent = if sent then Answer.accepted else Answer.denied

-- The settings that are parameters of floating point.
abbrev pub is_float_setting : String → Bool
is_float_setting id = str_eq id "CAM_SHUTTERSPD" || str_eq id "CAM_EV"

abbrev pub added {ℓ} : {A : Type ℓ} → Option A → Option (List A) → Option (List A)
added none ps = none
added (some p) none = none
added (some p) (some ps) = some (p ∷ ps)

module _ {F : Type 0} (stof : String → Option F) where
  unfoldable pub param_of : String → String → Option (ServerParam F)
  param_of id value =
      if is_float_setting id
      then map_option (ServerParam.float_param id) (stof value)
      else map_option (ServerParam.int_param id) (stoi value)

  -- The loop of fill_param: `none` is an exception of std::stof or std::stoi.
  unfoldable pub provided : Dict → Option (List (ServerParam F))
  unfolding param_of
  provided [] = some []
  provided ((id, value) ∷ rest) = added (param_of id value) (provided rest)

module _ {S F C I : Type 0} (client : CameraClient S F C I) where
  abbrev responded :
      (Feedback → Sent F C I) → Option (ServerResult × S) → Option (List (Sent F C I) × S)
  responded respond none = none
  responded respond (some (result, s)) = some (respond (feedback result) ∷ [], s)

  abbrev dropped : Option (ServerResult × S) → Option (List (Sent F C I) × S)
  dropped none = none
  dropped (some (_, s)) = some ([], s)

  -- The handlers of subscribe_camera_operation, in its order.
  unfoldable pub on_system_time : ℤ → S → Option (List (Sent F C I) × S)
  on_system_time time s = dropped (client.set_timestamp time s)

  unfoldable pub on_zoom_range : F → S → Option (List (Sent F C I) × S)
  on_zoom_range range s = responded Sent.zoom_range (client.set_zoom_range range s)

  -- The photo is answered, and the capture status after it. `now` is the system clock.
  unfoldable pub on_take_photo : ℕ → ℤ → S → Option (List (Sent F C I) × S)
  on_take_photo now index s = elim (client.take_photo index s) [
    | none ↦ none
    | some (result, s') ↦ some (
      Sent.take_photo (feedback result) now (is_server_success result) index
          ∷ Sent.capture_status (client.fill_capture_status s')
          ∷ [],
      s',
    )
  ]

  unfoldable pub on_start_video : ℤ → S → Option (List (Sent F C I) × S)
  on_start_video stream s = responded Sent.start_video (client.start_video s)

  unfoldable pub on_stop_video : ℤ → S → Option (List (Sent F C I) × S)
  on_stop_video stream s = responded Sent.stop_video (client.stop_video s)

  unfoldable pub on_start_video_streaming : ℤ → S → Option (List (Sent F C I) × S)
  on_start_video_streaming stream s =
      responded Sent.start_video_streaming (client.start_video_streaming stream s)

  unfoldable pub on_stop_video_streaming : ℤ → S → Option (List (Sent F C I) × S)
  on_stop_video_streaming stream s =
      responded Sent.stop_video_streaming (client.stop_video_streaming stream s)

  unfoldable pub on_set_mode : Mode → S → Option (List (Sent F C I) × S)
  on_set_mode mode s = responded Sent.set_mode (client.set_mode mode s)

  unfoldable pub on_storage_information : ℤ → S → Option (List (Sent F C I) × S)
  on_storage_information id s =
      some (Sent.storage_information (client.fill_storage_information s) ∷ [], s)

  unfoldable pub on_capture_status : ℤ → S → Option (List (Sent F C I) × S)
  on_capture_status reserved s = some (Sent.capture_status (client.fill_capture_status s) ∷ [], s)

  unfoldable pub on_format_storage : ℤ → S → Option (List (Sent F C I) × S)
  on_format_storage id s = responded Sent.format_storage (client.format_storage id s)

  unfoldable pub on_settings : ℤ → S → Option (List (Sent F C I) × S)
  on_settings reserved s =
      let ((mode, zoom), s') = client.fill_settings s in some (Sent.settings mode zoom ∷ [], s')

  -- What subscribe_camera_operation sends after the subscriptions.
  unfoldable pub announce : S → List (Sent F C I) × S
  announce s =
      let (info, s') = client.fill_information s in
      let (streams, s'') = client.fill_video_stream_info s' in
      (
        elim streams [
          | [] ↦ Sent.information info ∷ []
          | first ∷ rest ↦ Sent.information info ∷ Sent.video_stream_info (first ∷ rest) ∷ []
        ],
        s'',
      )

  -- The handlers of subscribe_tracking_operation; a rectangle is always denied.
  unfoldable pub on_tracking_point : F → F → S → Option (List (Sent F C I) × S)
  on_tracking_point x y s =
      let (sent, s') = client.enable_tracking_point x y s in
      some (Sent.tracking_point (answer sent) ∷ [], s')

  unfoldable pub on_tracking_rectangle : S → Option (List (Sent F C I) × S)
  on_tracking_rectangle s = some (Sent.tracking_rectangle Answer.denied ∷ [], s)

  unfoldable pub on_tracking_off : S → Option (List (Sent F C I) × S)
  on_tracking_off s =
      let (sent, s') = client.disable_tracking s in some (Sent.tracking_off (answer sent) ∷ [], s')

  -- The handlers of subscribe_param_operation. `fixed` writes a float with nine digits after the point.
  unfoldable pub on_changed_param_float :
      (F → String) → String → F → S → Option (List (Sent F C I) × S)
  on_changed_param_float fixed name value s = dropped (client.set_setting name (fixed value) s)

  unfoldable pub on_changed_param_int : String → ℤ → S → Option (List (Sent F C I) × S)
  unfolding to_string
  on_changed_param_int name value s = dropped (client.set_setting name (to_string value) s)

module _ {S F C I : Type 0} (client : CameraClient S F C I) (stof : String → Option F) where
  unfoldable pub fill_param : S → Option (List (ServerParam F) × S)
  unfolding provided
  fill_param s = elim (client.retrieve_current_settings s) [
    | none ↦ none
    | some (dict, s') ↦ elim (provided stof dict) [ none ↦ none | some ps ↦ some (ps, s') ]
  ]

  -- The callback of on_reset_settings provides the parameters again after a Success.
  abbrev pub refill : ServerResult → S → Option (List (ServerParam F) × S)
  refill result s = if is_server_success result then fill_param s else some ([], s)

  abbrev sent_params : List (ServerParam F) → List (Sent F C I)
  sent_params [] = []
  sent_params (p ∷ ps) = Sent.param p ∷ sent_params ps

  unfoldable pub on_reset_settings : ℤ → S → Option (List (Sent F C I) × S)
  unfolding fill_param
  on_reset_settings camera s = elim (client.reset_settings refill s) [
    | none ↦ none
    | some (result, ps, s') ↦
        some (sent_params ps ++ Sent.reset_settings (feedback result) ∷ [], s')
  ]
