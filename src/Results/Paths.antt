-- ===== src/Results/Paths.antt =====
-- The two ways of a camera's result code to the MAVLink side: straight through the local client,
-- and through the camera service and its RPC client.
use mavcam.Prelude.{ℕ, ◌≡◌, ◌⊎◌, inl, inr, refl, arith}
use mavcam.Results.{
  MavResult, CameraResult, RpcResult, ServerResult, to_camera_result, to_server_result,
  to_rpc_result, from_rpc_result, client_result,
}

-- Whatever result the camera reports, a ground station sees the same code whether the camera is
-- driven in-process or through the camera service and its RPC client.
pub client_result-to_server_result :
    (r : MavResult) → client_result (to_rpc_result (to_camera_result r)) ≡ to_server_result r
unfolding client_result to_rpc_result to_camera_result to_server_result
client_result-to_server_result r = ground arith

-- A result that the camera service sends is read back by the service's own decoder as it was, and
-- what it sends for a result that the decoder gave is again that message, except for an unknown code.
pub rpc_result_round_trip :
    (r : CameraResult) (m : RpcResult)
    → (from_rpc_result (to_rpc_result r) ≡ r)
      × ((to_rpc_result (from_rpc_result m) ≡ m)
          ⊎ (n : ℕ) × (m ≡ RpcResult.unrecognized n) × (from_rpc_result m ≡ CameraResult.unknown))
unfolding to_rpc_result from_rpc_result
rpc_result_round_trip r m = (ground arith, decoded m)
  where
    decoded :
        (m : RpcResult)
        → (to_rpc_result (from_rpc_result m) ≡ m)
          ⊎ (n : ℕ) × (m ≡ RpcResult.unrecognized n) × (from_rpc_result m ≡ CameraResult.unknown)
    decoded (RpcResult.unrecognized n) = inr (n, refl, refl)
    decoded _ = inl refl

-- The RPC client of MAVLink reads two different results of the service as one code only when that
-- code is Unknown and one of the two is ProtocolUnsupported.
pub client_result_confuses :
    (r s : CameraResult)
    → client_result (to_rpc_result r) ≡ client_result (to_rpc_result s)
    → (r ≡ s)
      ⊎ (client_result (to_rpc_result r) ≡ ServerResult.unknown)
        × ((r ≡ CameraResult.protocol_unsupported) ⊎ (s ≡ CameraResult.protocol_unsupported))
unfolding client_result to_rpc_result
client_result_confuses r s h = ground arith
