-- ===== src/Camera/Print/Texts.antt =====
-- The texts of the camera's enumerations tell their values apart.
use mavcam.Prelude.{
  ◌≡◌, ◌∙◌, refl, sym, ap, String, List, [], ◌∷◌, Option, none, some, str_eq, if◌then◌else◌,
}
use mavcam.Camera.Types.{
  Mode, PhotosRange, VideoStreamStatus, VideoStreamSpectrum, StorageStatus, StorageType,
  CameraCapFlag,
}
use mavcam.Camera.Print.{
  mode_text, photos_range_text, stream_status_text, spectrum_text, storage_status_text,
  storage_type_text, cap_flag_text,
}

-- The first value with this text.
unfoldable value_of : {A : Type 0} → (A → String) → List A → String → Option A
value_of print [] text = none
value_of print (a ∷ rest) text = if str_eq (print a) text then some a else value_of print rest text

abbrev pub IsInjective : {A : Type 0} → (A → String) → Type 0
IsInjective {A} print = (a b : A) → print a ≡ print b → a ≡ b

some_injective : {A : Type 0} (a b : A) → ◌≡◌ {A = Option A} (some a) (some b) → a ≡ b
some_injective a b h = cc

-- A printer whose values are found again by their texts.
found-IsInjective :
    {A : Type 0} (print : A → String) (values : List A)
    → ((a : A) → value_of print values (print a) ≡ some a)
    → IsInjective print
found-IsInjective print values found a b h =
    some_injective a b (sym (found a) ∙ ap (value_of print values) h ∙ found b)

abbrev mode_values : List Mode
mode_values = Mode.unknown ∷ Mode.photo ∷ Mode.video ∷ []

mode_found : (a : Mode) → value_of mode_text mode_values (mode_text a) ≡ some a
unfolding value_of mode_text
mode_found Mode.unknown = refl
mode_found Mode.photo = refl
mode_found Mode.video = refl

abbrev photos_range_values : List PhotosRange
photos_range_values = PhotosRange.all ∷ PhotosRange.since_connection ∷ []

photos_range_found :
    (a : PhotosRange)
    → value_of photos_range_text photos_range_values (photos_range_text a) ≡ some a
unfolding value_of photos_range_text
photos_range_found PhotosRange.all = refl
photos_range_found PhotosRange.since_connection = refl

abbrev stream_status_values : List VideoStreamStatus
stream_status_values = VideoStreamStatus.not_running ∷ VideoStreamStatus.in_progress ∷ []

stream_status_found :
    (a : VideoStreamStatus)
    → value_of stream_status_text stream_status_values (stream_status_text a) ≡ some a
unfolding value_of stream_status_text
stream_status_found VideoStreamStatus.not_running = refl
stream_status_found VideoStreamStatus.in_progress = refl

abbrev spectrum_values : List VideoStreamSpectrum
spectrum_values =
    VideoStreamSpectrum.unknown ∷ VideoStreamSpectrum.visible_light ∷ VideoStreamSpectrum.infrared
    ∷ []

spectrum_found :
    (a : VideoStreamSpectrum) → value_of spectrum_text spectrum_values (spectrum_text a) ≡ some a
unfolding value_of spectrum_text
spectrum_found VideoStreamSpectrum.unknown = refl
spectrum_found VideoStreamSpectrum.visible_light = refl
spectrum_found VideoStreamSpectrum.infrared = refl

abbrev storage_status_values : List StorageStatus
storage_status_values =
    StorageStatus.not_available ∷ StorageStatus.unformatted ∷ StorageStatus.formatted
    ∷ StorageStatus.not_supported ∷ []

storage_status_found :
    (a : StorageStatus)
    → value_of storage_status_text storage_status_values (storage_status_text a) ≡ some a
unfolding value_of storage_status_text
storage_status_found StorageStatus.not_available = refl
storage_status_found StorageStatus.unformatted = refl
storage_status_found StorageStatus.formatted = refl
storage_status_found StorageStatus.not_supported = refl

abbrev storage_type_values : List StorageType
storage_type_values =
    StorageType.unknown ∷ StorageType.usb_stick ∷ StorageType.sd ∷ StorageType.microsd
    ∷ StorageType.hd ∷ StorageType.other ∷ []

storage_type_found :
    (a : StorageType)
    → value_of storage_type_text storage_type_values (storage_type_text a) ≡ some a
unfolding value_of storage_type_text
storage_type_found StorageType.unknown = refl
storage_type_found StorageType.usb_stick = refl
storage_type_found StorageType.sd = refl
storage_type_found StorageType.microsd = refl
storage_type_found StorageType.hd = refl
storage_type_found StorageType.other = refl

abbrev cap_flag_values : List CameraCapFlag
cap_flag_values =
    CameraCapFlag.capture_video ∷ CameraCapFlag.capture_image ∷ CameraCapFlag.has_modes
    ∷ CameraCapFlag.can_capture_image_in_video_mode ∷ CameraCapFlag.can_capture_video_in_image_mode
    ∷ CameraCapFlag.has_image_survey_mode ∷ CameraCapFlag.has_basic_zoom
    ∷ CameraCapFlag.has_basic_focus ∷ CameraCapFlag.has_video_stream
    ∷ CameraCapFlag.has_tracking_point ∷ CameraCapFlag.has_tracking_rectangle
    ∷ CameraCapFlag.has_tracking_geo_status ∷ []

cap_flag_found :
    (a : CameraCapFlag) → value_of cap_flag_text cap_flag_values (cap_flag_text a) ≡ some a
unfolding value_of cap_flag_text
cap_flag_found CameraCapFlag.capture_video = refl
cap_flag_found CameraCapFlag.capture_image = refl
cap_flag_found CameraCapFlag.has_modes = refl
cap_flag_found CameraCapFlag.can_capture_image_in_video_mode = refl
cap_flag_found CameraCapFlag.can_capture_video_in_image_mode = refl
cap_flag_found CameraCapFlag.has_image_survey_mode = refl
cap_flag_found CameraCapFlag.has_basic_zoom = refl
cap_flag_found CameraCapFlag.has_basic_focus = refl
cap_flag_found CameraCapFlag.has_video_stream = refl
cap_flag_found CameraCapFlag.has_tracking_point = refl
cap_flag_found CameraCapFlag.has_tracking_rectangle = refl
cap_flag_found CameraCapFlag.has_tracking_geo_status = refl

-- In each enumeration of the camera, values that are written alike are the same.
pub texts_tell_apart :
    IsInjective mode_text
    × IsInjective photos_range_text
    × IsInjective stream_status_text
    × IsInjective spectrum_text
    × IsInjective storage_status_text
    × IsInjective storage_type_text
    × IsInjective cap_flag_text
texts_tell_apart = (
  found-IsInjective mode_text mode_values mode_found,
  found-IsInjective photos_range_text photos_range_values photos_range_found,
  found-IsInjective stream_status_text stream_status_values stream_status_found,
  found-IsInjective spectrum_text spectrum_values spectrum_found,
  found-IsInjective storage_status_text storage_status_values storage_status_found,
  found-IsInjective storage_type_text storage_type_values storage_type_found,
  found-IsInjective cap_flag_text cap_flag_values cap_flag_found,
)
