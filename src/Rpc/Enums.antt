-- ===== src/Rpc/Enums.antt =====
-- The conversions of src/mav_server/plugins/camera/camera_service_impl.h between the enumerations of
-- the camera plugin and those of the wire. The fall-through of each `default` is the last clause.
use mavcam.Camera.Types.{
  Mode, PhotosRange, VideoStreamStatus, VideoStreamSpectrum, StorageStatus, StorageType,
  CameraCapFlag,
}
use mavcam.Rpc.Types.{
  RpcMode, RpcPhotosRange, RpcVideoStreamStatus, RpcVideoStreamSpectrum, RpcStorageStatus,
  RpcStorageType, RpcCameraCapFlag,
}

unfoldable pub to_rpc_mode : Mode → RpcMode
to_rpc_mode Mode.unknown = RpcMode.unknown
to_rpc_mode Mode.photo = RpcMode.photo
to_rpc_mode Mode.video = RpcMode.video

unfoldable pub from_rpc_mode : RpcMode → Mode
from_rpc_mode RpcMode.unknown = Mode.unknown
from_rpc_mode RpcMode.photo = Mode.photo
from_rpc_mode RpcMode.video = Mode.video
from_rpc_mode (RpcMode.unrecognized n) = Mode.unknown

unfoldable pub to_rpc_photos_range : PhotosRange → RpcPhotosRange
to_rpc_photos_range PhotosRange.all = RpcPhotosRange.all
to_rpc_photos_range PhotosRange.since_connection = RpcPhotosRange.since_connection

unfoldable pub from_rpc_photos_range : RpcPhotosRange → PhotosRange
from_rpc_photos_range RpcPhotosRange.all = PhotosRange.all
from_rpc_photos_range RpcPhotosRange.since_connection = PhotosRange.since_connection
from_rpc_photos_range (RpcPhotosRange.unrecognized n) = PhotosRange.all

unfoldable pub to_rpc_video_stream_status : VideoStreamStatus → RpcVideoStreamStatus
to_rpc_video_stream_status VideoStreamStatus.not_running = RpcVideoStreamStatus.not_running
to_rpc_video_stream_status VideoStreamStatus.in_progress = RpcVideoStreamStatus.in_progress

unfoldable pub from_rpc_video_stream_status : RpcVideoStreamStatus → VideoStreamStatus
from_rpc_video_stream_status RpcVideoStreamStatus.not_running = VideoStreamStatus.not_running
from_rpc_video_stream_status RpcVideoStreamStatus.in_progress = VideoStreamStatus.in_progress
from_rpc_video_stream_status (RpcVideoStreamStatus.unrecognized n) = VideoStreamStatus.not_running

unfoldable pub to_rpc_video_stream_spectrum : VideoStreamSpectrum → RpcVideoStreamSpectrum
to_rpc_video_stream_spectrum VideoStreamSpectrum.unknown = RpcVideoStreamSpectrum.unknown
to_rpc_video_stream_spectrum VideoStreamSpectrum.visible_light =
    RpcVideoStreamSpectrum.visible_light
to_rpc_video_stream_spectrum VideoStreamSpectrum.infrared = RpcVideoStreamSpectrum.infrared

unfoldable pub from_rpc_video_stream_spectrum : RpcVideoStreamSpectrum → VideoStreamSpectrum
from_rpc_video_stream_spectrum RpcVideoStreamSpectrum.unknown = VideoStreamSpectrum.unknown
from_rpc_video_stream_spectrum RpcVideoStreamSpectrum.visible_light =
    VideoStreamSpectrum.visible_light
from_rpc_video_stream_spectrum RpcVideoStreamSpectrum.infrared = VideoStreamSpectrum.infrared
from_rpc_video_stream_spectrum (RpcVideoStreamSpectrum.unrecognized n) = VideoStreamSpectrum.unknown

unfoldable pub to_rpc_storage_status : StorageStatus → RpcStorageStatus
to_rpc_storage_status StorageStatus.not_available = RpcStorageStatus.not_available
to_rpc_storage_status StorageStatus.unformatted = RpcStorageStatus.unformatted
to_rpc_storage_status StorageStatus.formatted = RpcStorageStatus.formatted
to_rpc_storage_status StorageStatus.not_supported = RpcStorageStatus.not_supported

unfoldable pub from_rpc_storage_status : RpcStorageStatus → StorageStatus
from_rpc_storage_status RpcStorageStatus.not_available = StorageStatus.not_available
from_rpc_storage_status RpcStorageStatus.unformatted = StorageStatus.unformatted
from_rpc_storage_status RpcStorageStatus.formatted = StorageStatus.formatted
from_rpc_storage_status RpcStorageStatus.not_supported = StorageStatus.not_supported
from_rpc_storage_status (RpcStorageStatus.unrecognized n) = StorageStatus.not_available

unfoldable pub to_rpc_storage_type : StorageType → RpcStorageType
to_rpc_storage_type StorageType.unknown = RpcStorageType.unknown
to_rpc_storage_type StorageType.usb_stick = RpcStorageType.usb_stick
to_rpc_storage_type StorageType.sd = RpcStorageType.sd
to_rpc_storage_type StorageType.microsd = RpcStorageType.microsd
to_rpc_storage_type StorageType.hd = RpcStorageType.hd
to_rpc_storage_type StorageType.other = RpcStorageType.other

unfoldable pub from_rpc_storage_type : RpcStorageType → StorageType
from_rpc_storage_type RpcStorageType.unknown = StorageType.unknown
from_rpc_storage_type RpcStorageType.usb_stick = StorageType.usb_stick
from_rpc_storage_type RpcStorageType.sd = StorageType.sd
from_rpc_storage_type RpcStorageType.microsd = StorageType.microsd
from_rpc_storage_type RpcStorageType.hd = StorageType.hd
from_rpc_storage_type RpcStorageType.other = StorageType.other
from_rpc_storage_type (RpcStorageType.unrecognized n) = StorageType.unknown

unfoldable pub to_rpc_camera_cap_flag : CameraCapFlag → RpcCameraCapFlag
to_rpc_camera_cap_flag CameraCapFlag.capture_video = RpcCameraCapFlag.capture_video
to_rpc_camera_cap_flag CameraCapFlag.capture_image = RpcCameraCapFlag.capture_image
to_rpc_camera_cap_flag CameraCapFlag.has_modes = RpcCameraCapFlag.has_modes
to_rpc_camera_cap_flag CameraCapFlag.can_capture_image_in_video_mode =
    RpcCameraCapFlag.can_capture_image_in_video_mode
to_rpc_camera_cap_flag CameraCapFlag.can_capture_video_in_image_mode =
    RpcCameraCapFlag.can_capture_video_in_image_mode
to_rpc_camera_cap_flag CameraCapFlag.has_image_survey_mode = RpcCameraCapFlag.has_image_survey_mode
to_rpc_camera_cap_flag CameraCapFlag.has_basic_zoom = RpcCameraCapFlag.has_basic_zoom
to_rpc_camera_cap_flag CameraCapFlag.has_basic_focus = RpcCameraCapFlag.has_basic_focus
to_rpc_camera_cap_flag CameraCapFlag.has_video_stream = RpcCameraCapFlag.has_video_stream
to_rpc_camera_cap_flag CameraCapFlag.has_tracking_point = RpcCameraCapFlag.has_tracking_point
to_rpc_camera_cap_flag CameraCapFlag.has_tracking_rectangle =
    RpcCameraCapFlag.has_tracking_rectangle
to_rpc_camera_cap_flag CameraCapFlag.has_tracking_geo_status =
    RpcCameraCapFlag.has_tracking_geo_status

unfoldable pub from_rpc_camera_cap_flag : RpcCameraCapFlag → CameraCapFlag
from_rpc_camera_cap_flag RpcCameraCapFlag.capture_video = CameraCapFlag.capture_video
from_rpc_camera_cap_flag RpcCameraCapFlag.capture_image = CameraCapFlag.capture_image
from_rpc_camera_cap_flag RpcCameraCapFlag.has_modes = CameraCapFlag.has_modes
from_rpc_camera_cap_flag RpcCameraCapFlag.can_capture_image_in_video_mode =
    CameraCapFlag.can_capture_image_in_video_mode
from_rpc_camera_cap_flag RpcCameraCapFlag.can_capture_video_in_image_mode =
    CameraCapFlag.can_capture_video_in_image_mode
from_rpc_camera_cap_flag RpcCameraCapFlag.has_image_survey_mode =
    CameraCapFlag.has_image_survey_mode
from_rpc_camera_cap_flag RpcCameraCapFlag.has_basic_zoom = CameraCapFlag.has_basic_zoom
from_rpc_camera_cap_flag RpcCameraCapFlag.has_basic_focus = CameraCapFlag.has_basic_focus
from_rpc_camera_cap_flag RpcCameraCapFlag.has_video_stream = CameraCapFlag.has_video_stream
from_rpc_camera_cap_flag RpcCameraCapFlag.has_tracking_point = CameraCapFlag.has_tracking_point
from_rpc_camera_cap_flag RpcCameraCapFlag.has_tracking_rectangle =
    CameraCapFlag.has_tracking_rectangle
from_rpc_camera_cap_flag RpcCameraCapFlag.has_tracking_geo_status =
    CameraCapFlag.has_tracking_geo_status
from_rpc_camera_cap_flag (RpcCameraCapFlag.unrecognized n) = CameraCapFlag.capture_video
