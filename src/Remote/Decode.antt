-- ===== src/Remote/Decode.antt =====
-- How the RPC client reads the messages of the camera service: the functions translateFromRpcX and
-- fillX of src/mav_client/camera_rpc_client.cpp. The types of mavsdk::CameraServer have the fields and
-- the enumerators of the camera plugin's types.
use mavcam.Prelude.{◌≡◌, ℕ, Bool, List, [], ◌++◌, map, map-agrees, arith, ap, ◌∙◌}
use mavcam.Camera.Types.{
  Mode, VideoStreamStatus, VideoStreamSpectrum, StorageStatus, StorageType, CameraCapFlag,
  Information, VideoStreamInfo, Status,
}
use mavcam.Rpc.Types.{
  RpcMode, RpcVideoStreamStatus, RpcVideoStreamSpectrum, RpcStorageStatus, RpcStorageType,
  RpcCameraCapFlag, RpcInformation, RpcVideoStreamInfo, RpcStatus,
}
use mavcam.Rpc.Enums.{from_rpc_video_stream_status, from_rpc_camera_cap_flag}
use mavcam.Rpc.Records.{
  from_rpc_information, from_rpc_video_stream_info, from_rpc_video_stream_settings, from_rpc_status,
}

unfoldable pub client_rpc_mode : Mode → RpcMode
client_rpc_mode Mode.photo = RpcMode.photo
client_rpc_mode Mode.video = RpcMode.video
client_rpc_mode Mode.unknown = RpcMode.unknown

-- The last clause of each is the fall-through of `default`.
unfoldable pub client_cap_flag : RpcCameraCapFlag → CameraCapFlag
client_cap_flag RpcCameraCapFlag.capture_video = CameraCapFlag.capture_video
client_cap_flag RpcCameraCapFlag.capture_image = CameraCapFlag.capture_image
client_cap_flag RpcCameraCapFlag.has_modes = CameraCapFlag.has_modes
client_cap_flag RpcCameraCapFlag.can_capture_image_in_video_mode =
    CameraCapFlag.can_capture_image_in_video_mode
client_cap_flag RpcCameraCapFlag.can_capture_video_in_image_mode =
    CameraCapFlag.can_capture_video_in_image_mode
client_cap_flag RpcCameraCapFlag.has_image_survey_mode = CameraCapFlag.has_image_survey_mode
client_cap_flag RpcCameraCapFlag.has_basic_zoom = CameraCapFlag.has_basic_zoom
client_cap_flag RpcCameraCapFlag.has_basic_focus = CameraCapFlag.has_basic_focus
client_cap_flag RpcCameraCapFlag.has_video_stream = CameraCapFlag.has_video_stream
client_cap_flag RpcCameraCapFlag.has_tracking_point = CameraCapFlag.has_tracking_point
client_cap_flag RpcCameraCapFlag.has_tracking_rectangle = CameraCapFlag.has_tracking_rectangle
client_cap_flag RpcCameraCapFlag.has_tracking_geo_status = CameraCapFlag.has_tracking_geo_status
client_cap_flag (RpcCameraCapFlag.unrecognized n) = CameraCapFlag.capture_video

unfoldable pub client_stream_status : RpcVideoStreamStatus → VideoStreamStatus
client_stream_status RpcVideoStreamStatus.not_running = VideoStreamStatus.not_running
client_stream_status RpcVideoStreamStatus.in_progress = VideoStreamStatus.in_progress
client_stream_status (RpcVideoStreamStatus.unrecognized n) = VideoStreamStatus.not_running

unfoldable pub client_stream_spectrum : RpcVideoStreamSpectrum → VideoStreamSpectrum
client_stream_spectrum RpcVideoStreamSpectrum.unknown = VideoStreamSpectrum.unknown
client_stream_spectrum RpcVideoStreamSpectrum.visible_light = VideoStreamSpectrum.visible_light
client_stream_spectrum RpcVideoStreamSpectrum.infrared = VideoStreamSpectrum.infrared
client_stream_spectrum (RpcVideoStreamSpectrum.unrecognized n) = VideoStreamSpectrum.unknown

unfoldable pub client_storage_status : RpcStorageStatus → StorageStatus
client_storage_status RpcStorageStatus.not_available = StorageStatus.not_available
client_storage_status RpcStorageStatus.unformatted = StorageStatus.unformatted
client_storage_status RpcStorageStatus.formatted = StorageStatus.formatted
client_storage_status RpcStorageStatus.not_supported = StorageStatus.not_supported
client_storage_status (RpcStorageStatus.unrecognized n) = StorageStatus.not_available

unfoldable pub client_storage_type : RpcStorageType → StorageType
client_storage_type RpcStorageType.unknown = StorageType.unknown
client_storage_type RpcStorageType.usb_stick = StorageType.usb_stick
client_storage_type RpcStorageType.sd = StorageType.sd
client_storage_type RpcStorageType.microsd = StorageType.microsd
client_storage_type RpcStorageType.hd = StorageType.hd
client_storage_type RpcStorageType.other = StorageType.other
client_storage_type (RpcStorageType.unrecognized n) = StorageType.unknown

-- mavsdk::CameraServer::StorageInformation, and CaptureStatus without the fields that stay 0. The video
-- status is true where it is CaptureInProgress.
pub record RemoteStorage (F : Type 0) : Type 0 where
  pub used_storage_mib : F
  pub available_storage_mib : F
  pub total_storage_mib : F
  pub storage_status : StorageStatus
  pub storage_id : ℕ
  pub storage_type : StorageType

pub record RemoteCapture (F : Type 0) : Type 0 where
  pub recording_time_s : F
  pub available_capacity_mib : F
  pub video_status : Bool
  pub image_count : ℕ

cap_flag_agrees : (f : RpcCameraCapFlag) → client_cap_flag f ≡ from_rpc_camera_cap_flag f
unfolding client_cap_flag from_rpc_camera_cap_flag
cap_flag_agrees f = ground arith

stream_status_agrees :
    (x : RpcVideoStreamStatus) → client_stream_status x ≡ from_rpc_video_stream_status x
unfolding client_stream_status from_rpc_video_stream_status
stream_status_agrees x = ground arith

module _ {F : Type 0} where
  -- fillInformation: the flags are added to those that the target has.
  unfoldable pub fill_information : RpcInformation F → Information F → Information F
  unfolding client_cap_flag
  fill_information input output = record {
    vendor_name = input.vendor_name;
    model_name = input.model_name;
    firmware_version = input.firmware_version;
    focal_length_mm = input.focal_length_mm;
    horizontal_sensor_size_mm = input.horizontal_sensor_size_mm;
    vertical_sensor_size_mm = input.vertical_sensor_size_mm;
    horizontal_resolution_px = input.horizontal_resolution_px;
    vertical_resolution_px = input.vertical_resolution_px;
    lens_id = input.lens_id;
    definition_file_version = input.definition_file_version;
    definition_file_uri = input.definition_file_uri;
    camera_cap_flags = output.camera_cap_flags ++ map client_cap_flag input.camera_cap_flags;
  }

  -- One round of the loop of fillVideoStreamInfos.
  unfoldable pub client_stream_info : RpcVideoStreamInfo F → VideoStreamInfo F
  unfolding client_stream_status client_stream_spectrum
  client_stream_info it = record {
    stream_id = it.stream_id;
    settings = record {
      frame_rate_hz = it.settings.frame_rate_hz;
      horizontal_resolution_pix = it.settings.horizontal_resolution_pix;
      vertical_resolution_pix = it.settings.vertical_resolution_pix;
      bit_rate_b_s = it.settings.bit_rate_b_s;
      rotation_deg = it.settings.rotation_deg;
      uri = it.settings.uri;
      horizontal_fov_deg = it.settings.horizontal_fov_deg;
    };
    status = client_stream_status it.status;
    spectrum = client_stream_spectrum it.spectrum;
  }

  unfoldable pub fill_video_stream_infos :
      List (RpcVideoStreamInfo F) → List (VideoStreamInfo F) → List (VideoStreamInfo F)
  unfolding client_stream_info
  fill_video_stream_infos input output = output ++ map client_stream_info input

  unfoldable pub fill_storage_information : RpcStatus F → RemoteStorage F
  unfolding client_storage_status client_storage_type
  fill_storage_information input = record {
    used_storage_mib = input.used_storage_mib;
    available_storage_mib = input.available_storage_mib;
    total_storage_mib = input.total_storage_mib;
    storage_status = client_storage_status input.storage_status;
    storage_id = input.storage_id;
    storage_type = client_storage_type input.storage_type;
  }

  unfoldable pub fill_capture_status : RpcStatus F → RemoteCapture F → RemoteCapture F
  fill_capture_status input output = record output {
    recording_time_s = input.recording_time_s;
    available_capacity_mib = input.available_storage_mib;
    video_status = input.video_on;
  }

stream_info_agrees :
    {F : Type 0} (v : RpcVideoStreamInfo F) → client_stream_info v ≡ from_rpc_video_stream_info v
unfolding client_stream_info from_rpc_video_stream_info from_rpc_video_stream_settings
stream_info_agrees v = ground (arith, stream_status_agrees v.status)

-- What the storage and the capture status take from a status.
abbrev pub storage_of : {F : Type 0} → Status F → RemoteStorage F
storage_of st = record {
  used_storage_mib = st.used_storage_mib;
  available_storage_mib = st.available_storage_mib;
  total_storage_mib = st.total_storage_mib;
  storage_status = st.storage_status;
  storage_id = st.storage_id;
  storage_type = st.storage_type;
}

abbrev pub capture_of : {F : Type 0} → Status F → RemoteCapture F → RemoteCapture F
capture_of st output = record output {
  recording_time_s = st.recording_time_s;
  available_capacity_mib = st.available_storage_mib;
  video_status = st.video_on;
}

-- The client reads the camera information, the video streams and the status as the service's own
-- decoders do, the numbers without an enumerator in their enumerations included. A fetch into fresh
-- fields gives the information and the streams that those decoders give; the storage has the six fields of the
-- status that they give; and the capture status has its recording time, its available storage and
-- whether a video is recorded. (The results are not among these.)
pub client_decoders_agree :
    {F : Type 0} (i : RpcInformation F) (blank : Information F) (vs : List (RpcVideoStreamInfo F))
    (st : RpcStatus F) (output : RemoteCapture F)
    → blank.camera_cap_flags ≡ []
    → (fill_information i blank ≡ from_rpc_information i)
      × (fill_video_stream_infos vs [] ≡ map from_rpc_video_stream_info vs)
      × (fill_storage_information st ≡ storage_of (from_rpc_status st))
      × (fill_capture_status st output ≡ capture_of (from_rpc_status st) output)
unfolding fill_information fill_video_stream_infos client_stream_info fill_storage_information
    fill_capture_status from_rpc_information from_rpc_video_stream_info from_rpc_status
    from_rpc_video_stream_settings
client_decoders_agree i blank vs st output fresh = (
  ap (λ flags. record (from_rpc_information i) { camera_cap_flags = flags })
      (ap (λ known. known ++ map client_cap_flag i.camera_cap_flags) fresh
        ∙ map-agrees client_cap_flag from_rpc_camera_cap_flag cap_flag_agrees i.camera_cap_flags),
  map-agrees client_stream_info from_rpc_video_stream_info stream_info_agrees vs,
  ground arith,
  ground arith,
)
