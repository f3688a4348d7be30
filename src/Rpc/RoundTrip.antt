-- ===== src/Rpc/RoundTrip.antt =====
-- Every value that the camera plugin hands to the camera service survives the wire.
use mavcam.Prelude.{◌≡◌, refl, ap, ap₂, List, [], ◌∷◌, map, arith}
use mavcam.Camera.Types.{
  Mode, PhotosRange, CameraCapFlag, CaptureInfo, VideoStreamInfo, Status, SettingOption, Setting,
  SettingOptions, Information,
}
use mavcam.Rpc.Enums.{
  to_rpc_mode, from_rpc_mode, to_rpc_photos_range, from_rpc_photos_range, to_rpc_camera_cap_flag,
  from_rpc_camera_cap_flag,
}
use mavcam.Rpc.Records.{
  to_rpc_capture_info, from_rpc_capture_info, to_rpc_video_stream_info, from_rpc_video_stream_info,
  to_rpc_status, from_rpc_status, to_rpc_setting_option, from_rpc_setting_option, to_rpc_setting,
  from_rpc_setting, to_rpc_setting_options, from_rpc_setting_options, to_rpc_information,
  from_rpc_information,
}

-- A list whose elements survive a conversion and its inverse survives them whole.
map-map_inverse {ℓ κ} :
    {A : Type ℓ} {B : Type κ} (f : A → B) (g : B → A)
    → ((a : A) → g (f a) ≡ a)
    → (xs : List A) → map g (map f xs) ≡ xs
map-map_inverse f g h [] = refl
map-map_inverse f g h (x ∷ xs) = ap₂ ◌∷◌ (h x) (map-map_inverse f g h xs)

flag_round_trip : (c : CameraCapFlag) → from_rpc_camera_cap_flag (to_rpc_camera_cap_flag c) ≡ c
unfolding to_rpc_camera_cap_flag from_rpc_camera_cap_flag
flag_round_trip c = ground arith

option_round_trip : (o : SettingOption) → from_rpc_setting_option (to_rpc_setting_option o) ≡ o
unfolding to_rpc_setting_option from_rpc_setting_option
option_round_trip o = refl

-- The camera status, with its storage status and storage type, comes back from the wire as it was.
status_round_trip : {F : Type 0} (s : Status F) → from_rpc_status (to_rpc_status s) ≡ s
unfolding to_rpc_status from_rpc_status
status_round_trip s = ground arith

-- A video stream description and a capture description come back from the wire as they were.
stream_and_capture_round_trip :
    {D F : Type 0} (v : VideoStreamInfo F) (c : CaptureInfo D F)
    → (from_rpc_video_stream_info (to_rpc_video_stream_info v) ≡ v)
      × (from_rpc_capture_info (to_rpc_capture_info c) ≡ c)
unfolding to_rpc_video_stream_info from_rpc_video_stream_info to_rpc_capture_info
    from_rpc_capture_info
stream_and_capture_round_trip v c = (ground arith, refl)

-- The camera information comes back from the wire as it was, with its capability flags in order.
information_round_trip :
    {F : Type 0} (i : Information F) → from_rpc_information (to_rpc_information i) ≡ i
unfolding to_rpc_information from_rpc_information
information_round_trip i =
    ap (λ flags. record i { camera_cap_flags = flags })
      (map-map_inverse to_rpc_camera_cap_flag from_rpc_camera_cap_flag flag_round_trip
        i.camera_cap_flags)

-- A setting and the list of a setting's options come back from the wire as they were, and so do a
-- camera mode and a range of photos.
setting_round_trip :
    (s : Setting) (o : SettingOptions) (m : Mode) (r : PhotosRange)
    → (from_rpc_setting (to_rpc_setting s) ≡ s)
      × (from_rpc_setting_options (to_rpc_setting_options o) ≡ o)
      × (from_rpc_mode (to_rpc_mode m) ≡ m)
      × (from_rpc_photos_range (to_rpc_photos_range r) ≡ r)
unfolding to_rpc_setting from_rpc_setting to_rpc_setting_options from_rpc_setting_options
    to_rpc_mode from_rpc_mode to_rpc_photos_range from_rpc_photos_range
setting_round_trip s o m r = (
  refl,
  ap (λ options. record o { options = options })
      (map-map_inverse to_rpc_setting_option from_rpc_setting_option option_round_trip o.options),
  ground arith,
  ground arith,
)

-- Everything that the camera plugin hands to the camera service comes back from the wire as it was: the
-- status with its storage, a stream, a capture, the camera information with its flags in order, a
-- setting, the list of a setting's options, a camera mode and a range of photos.
pub messages_round_trip :
    {D F : Type 0} (st : Status F) (v : VideoStreamInfo F) (c : CaptureInfo D F) (i : Information F)
    (s : Setting) (o : SettingOptions) (m : Mode) (r : PhotosRange)
    → (from_rpc_status (to_rpc_status st) ≡ st)
      × (from_rpc_video_stream_info (to_rpc_video_stream_info v) ≡ v)
      × (from_rpc_capture_info (to_rpc_capture_info c) ≡ c)
      × (from_rpc_information (to_rpc_information i) ≡ i)
      × (from_rpc_setting (to_rpc_setting s) ≡ s)
      × (from_rpc_setting_options (to_rpc_setting_options o) ≡ o)
      × (from_rpc_mode (to_rpc_mode m) ≡ m)
      × (from_rpc_photos_range (to_rpc_photos_range r) ≡ r)
messages_round_trip st v c i s o m r =
    let (stream, capture) = stream_and_capture_round_trip v c in
    let (setting, options, mode, range) = setting_round_trip s o m r in
    (status_round_trip st, stream, capture, information_round_trip i, setting, options, mode, range)
