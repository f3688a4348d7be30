-- ===== src/Service/Streams.antt =====
-- The subscriptions of the camera service and its stop: the functions SubscribeX, stop,
-- register_stream_stop_promise and unregister_stream_stop_promise of
-- src/mav_server/plugins/camera/camera_service_impl.h. A promise is a number.
use mavcam.Prelude.{
  ℕ, suc, ◌==◌, ◌≡◌, refl, Bool, true, false, not, ◌&&◌, ◌||◌, is_some, arith, Option, none, some,
  List, [], ◌∷◌, ◌++◌, map, if◌then◌else◌,
}
use mavcam.Rpc.Types.{
  RpcMode, RpcCaptureInfo, RpcVideoStreamInfo, RpcStatus, RpcSetting, RpcSettingOptions,
  RpcInformation,
}
use mavcam.Rpc.Enums.{to_rpc_mode}
use mavcam.Rpc.Records.{
  to_rpc_capture_info, to_rpc_video_stream_info, to_rpc_status, to_rpc_setting,
  to_rpc_setting_options, to_rpc_information,
}
use mavcam.Service.{CameraApi}

-- `_plugin`, `_stopped`, `_stream_stop_promises` and the number of the next promise.
pub record Service (S : Type 0) : Type 0 where
  pub plugin : S
  pub stopped : Bool
  pub stream_stop_promises : List ℕ
  pub next_promise : ℕ

-- How a subscription goes: it writes one message and ends, it ends without one, it waits for its
-- promise, or it throws std::future_error after its message, as the promise was set before.
pub data Stream {ℓ} (M : Type ℓ) : Type ℓ where
  sent : M → Stream M
  closed : Stream M
  waits : ℕ → Stream M
  throws : M → Stream M

-- The loop of unregister_stream_stop_promise.
unfoldable pub unregister : ℕ → List ℕ → List ℕ
unregister p [] = []
unregister p (q ∷ qs) = let rest = unregister p qs in if q == p then rest else q ∷ rest

-- register_stream_stop_promise: whether the promise is set at once.
unfoldable pub register_stream_stop_promise : {S : Type 0} → ℕ → Service S → Bool × Service S
register_stream_stop_promise p v =
    if v.stopped
    then (true, v)
    else (false, record v { stream_stop_promises = v.stream_stop_promises ++ p ∷ [] })

-- stop(): the promises that it sets.
unfoldable pub stop : {S : Type 0} → Service S → List ℕ × Service S
stop v = (v.stream_stop_promises, record v { stopped = true })

module _ {S : Type 0} where
  -- The body that the seven subscriptions share: `async` is the plugin's function and `write` makes
  -- the message.
  unfoldable pub subscribe {ℓ κ} :
      {A : Type ℓ} {M : Type κ} → (S → Option A × S) → (A → M) → Service S → Stream M × Service S
  unfolding register_stream_stop_promise unregister
  subscribe async write v =
      let p = v.next_promise in
      let (set, registered) = register_stream_stop_promise p (record v { next_promise = suc p }) in
      let (value, s) = async registered.plugin in
      let called = record registered { plugin = s } in
      elim value [
        | none ↦ (if set then closed else waits p, called)
        | some a ↦ (
          if set then throws (write a) else sent (write a),
          record called { stream_stop_promises = unregister p called.stream_stop_promises },
        )
      ]

module _ {S D F : Type 0} (api : CameraApi S D F) where
  unfoldable pub subscribe_mode : Service S → Stream RpcMode × Service S
  unfolding subscribe to_rpc_mode
  subscribe_mode = subscribe api.mode_async to_rpc_mode

  unfoldable pub subscribe_information : Service S → Stream (RpcInformation F) × Service S
  unfolding subscribe to_rpc_information
  subscribe_information = subscribe api.information_async to_rpc_information

  unfoldable pub subscribe_video_stream_info :
      Service S → Stream (List (RpcVideoStreamInfo F)) × Service S
  unfolding subscribe to_rpc_video_stream_info
  subscribe_video_stream_info = subscribe api.video_stream_info_async (map to_rpc_video_stream_info)

  unfoldable pub subscribe_capture_info : Service S → Stream (RpcCaptureInfo D F) × Service S
  unfolding subscribe to_rpc_capture_info
  subscribe_capture_info = subscribe api.capture_info_async to_rpc_capture_info

  unfoldable pub subscribe_status : Service S → Stream (RpcStatus F) × Service S
  unfolding subscribe to_rpc_status
  subscribe_status = subscribe api.status_async to_rpc_status

  unfoldable pub subscribe_current_settings : Service S → Stream (List RpcSetting) × Service S
  unfolding subscribe to_rpc_setting
  subscribe_current_settings = subscribe api.current_settings_async (map to_rpc_setting)

  unfoldable pub subscribe_possible_setting_options :
      Service S → Stream (List RpcSettingOptions) × Service S
  unfolding subscribe to_rpc_setting_options
  subscribe_possible_setting_options =
      subscribe api.possible_setting_options_async (map to_rpc_setting_options)

abbrev pub contains_promise : ℕ → List ℕ → Bool
contains_promise p [] = false
contains_promise p (q ∷ qs) = q == p || contains_promise p qs

unregister-last :
    (p : ℕ) (qs : List ℕ) → contains_promise p qs ≡ false → unregister p (qs ++ p ∷ []) ≡ qs
unfolding unregister
unregister-last p [] h = ground arith
unregister-last p (q ∷ qs) h = ground (arith, unregister-last p qs)

unregister-absent : (p : ℕ) (qs : List ℕ) → contains_promise p qs ≡ false → unregister p qs ≡ qs
unfolding unregister
unregister-absent p [] h = refl
unregister-absent p (q ∷ qs) h = ground (arith, unregister-absent p qs)

-- A subscription with a fresh promise. On a service that runs, a plugin that calls back gets exactly
-- one message written and leaves the waiting promises as they were; one that does not call back leaves
-- the subscription waiting for a promise that stop sets. On a stopped service the subscription never
-- waits, but after its message it throws.
pub subscription_ends {ℓ κ} :
    {S : Type 0} {A : Type ℓ} {M : Type κ} (async : S → Option A × S) (write : A → M)
    (v : Service S)
    → contains_promise v.next_promise v.stream_stop_promises ≡ false
    → let (stream, v') = subscribe async write v in
      (stream ≡ elim (async v.plugin).0 [
        | none ↦ if v.stopped then closed else waits v.next_promise
        | some a ↦ if v.stopped then throws (write a) else sent (write a)
      ])
      × ((stop v').0 ≡ (
          if not v.stopped && not (is_some (async v.plugin).0)
          then v.stream_stop_promises ++ v.next_promise ∷ []
          else v.stream_stop_promises))
      × (v'.plugin ≡ (async v.plugin).1)
unfolding subscribe register_stream_stop_promise stop unregister
subscription_ends async write v fresh =
    let last = unregister-last v.next_promise v.stream_stop_promises fresh in
    let absent = unregister-absent v.next_promise v.stream_stop_promises fresh in
    (ground arith, ground (arith, last, absent), ground arith)
