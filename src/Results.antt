-- ===== src/Results.antt =====
-- The result codes of the four layers and the conversions between them:
-- convert_camera_result_to_mav_result of src/mav_server/plugins/camera/camera_impl.cpp,
-- convert_camera_result_to_mav_server_result of src/mav_client/camera_local_client.cpp,
-- translateToRpcResult and translateFromRpcResult of
-- src/mav_server/plugins/camera/camera_service_impl.h, and translateFromRpcResult of
-- src/mav_client/camera_rpc_client.cpp.
use mavcam.Prelude.{ℕ, Bool, true, false, not}
pub mod Paths

-- mav_camera::Result, as the two conversions enumerate it.
pub data MavResult : Type 0 where
  unknown success in_progress busy denied error timeout wrong_argument no_system : MavResult

-- mavcam::Camera::Result.
pub data CameraResult : Type 0 where
  unknown success in_progress busy denied error timeout wrong_argument no_system : CameraResult
  protocol_unsupported : CameraResult

-- mavcam::rpc::camera::CameraResult_Result; the wire may carry a number that no enumerator has.
pub data RpcResult : Type 0 where
  unknown success in_progress busy denied error timeout wrong_argument no_system : RpcResult
  protocol_unsupported : RpcResult
  unrecognized : ℕ → RpcResult

-- mavsdk::CameraServer::Result.
pub data ServerResult : Type 0 where
  unknown success in_progress busy denied error timeout wrong_argument no_system : ServerResult

-- CameraImpl::convert_camera_result_to_mav_result
unfoldable pub to_camera_result : MavResult → CameraResult
to_camera_result MavResult.success = CameraResult.success
to_camera_result MavResult.denied = CameraResult.denied
to_camera_result MavResult.busy = CameraResult.busy
to_camera_result MavResult.error = CameraResult.error
to_camera_result MavResult.in_progress = CameraResult.in_progress
to_camera_result MavResult.no_system = CameraResult.no_system
to_camera_result MavResult.timeout = CameraResult.timeout
to_camera_result MavResult.unknown = CameraResult.unknown
to_camera_result MavResult.wrong_argument = CameraResult.wrong_argument

-- CameraLocalClient::convert_camera_result_to_mav_server_result
unfoldable pub to_server_result : MavResult → ServerResult
to_server_result MavResult.success = ServerResult.success
to_server_result MavResult.denied = ServerResult.denied
to_server_result MavResult.busy = ServerResult.busy
to_server_result MavResult.error = ServerResult.error
to_server_result MavResult.in_progress = ServerResult.in_progress
to_server_result MavResult.no_system = ServerResult.no_system
to_server_result MavResult.timeout = ServerResult.timeout
to_server_result MavResult.unknown = ServerResult.unknown
to_server_result MavResult.wrong_argument = ServerResult.wrong_argument

-- CameraServiceImpl::translateToRpcResult
unfoldable pub to_rpc_result : CameraResult → RpcResult
to_rpc_result CameraResult.unknown = RpcResult.unknown
to_rpc_result CameraResult.success = RpcResult.success
to_rpc_result CameraResult.in_progress = RpcResult.in_progress
to_rpc_result CameraResult.busy = RpcResult.busy
to_rpc_result CameraResult.denied = RpcResult.denied
to_rpc_result CameraResult.error = RpcResult.error
to_rpc_result CameraResult.timeout = RpcResult.timeout
to_rpc_result CameraResult.wrong_argument = RpcResult.wrong_argument
to_rpc_result CameraResult.no_system = RpcResult.no_system
to_rpc_result CameraResult.protocol_unsupported = RpcResult.protocol_unsupported

-- CameraServiceImpl::translateFromRpcResult; the last clause is the fall-through of `default`.
unfoldable pub from_rpc_result : RpcResult → CameraResult
from_rpc_result RpcResult.unknown = CameraResult.unknown
from_rpc_result RpcResult.success = CameraResult.success
from_rpc_result RpcResult.in_progress = CameraResult.in_progress
from_rpc_result RpcResult.busy = CameraResult.busy
from_rpc_result RpcResult.denied = CameraResult.denied
from_rpc_result RpcResult.error = CameraResult.error
from_rpc_result RpcResult.timeout = CameraResult.timeout
from_rpc_result RpcResult.wrong_argument = CameraResult.wrong_argument
from_rpc_result RpcResult.no_system = CameraResult.no_system
from_rpc_result RpcResult.protocol_unsupported = CameraResult.protocol_unsupported
from_rpc_result (RpcResult.unrecognized n) = CameraResult.unknown

-- translateFromRpcResult of the RPC client, which has no case for PROTOCOL_UNSUPPORTED.
unfoldable pub client_result : RpcResult → ServerResult
client_result RpcResult.success = ServerResult.success
client_result RpcResult.in_progress = ServerResult.in_progress
client_result RpcResult.busy = ServerResult.busy
client_result RpcResult.denied = ServerResult.denied
client_result RpcResult.error = ServerResult.error
client_result RpcResult.timeout = ServerResult.timeout
client_result RpcResult.wrong_argument = ServerResult.wrong_argument
client_result RpcResult.no_system = ServerResult.no_system
client_result _ = ServerResult.unknown

-- `result == mav_camera::Result::Success`
abbrev pub is_mav_success : MavResult → Bool
is_mav_success MavResult.success = true
is_mav_success _ = false

-- `result == mavsdk::CameraServer::Result::Success`
abbrev pub is_server_success : ServerResult → Bool
is_server_success ServerResult.success = true
is_server_success _ = false
