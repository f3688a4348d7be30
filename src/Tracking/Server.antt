-- ===== src/Tracking/Server.antt =====
-- The state of TrackingServer (src/tracking/tracking_server.h) and its operations
-- (src/tracking/tracking_server.cpp): start, stop, the server thread's listen, accept and disconnect,
-- the control commands, and the delivery of a received line. A mutex makes each of them one step.
pub mod Lifecycle
pub mod Commands
use mavcam.Prelude.{
  ℕ, suc, ◌+◌, ◌%◌, ◌^◌, Bool, true, false, Option, none, some, String, List, [], ◌∷◌, str_eq, ◌==◌,
  if◌then◌else◌, length,
}
use mavcam.Prelude.Int.{ℤ, pos, eqb, is_pos}
use mavcam.Tracking.Frame.{TrackingFrame, Json, parse_line}
use mavcam.Tracking.Control.{control_packet}

-- A file descriptor below 0 is `none`. `joinable` is that of `_thread`.
pub record TrackingServer : Type 0 where
  pub address : String
  pub port : ℤ
  pub server_fd : Option ℕ
  pub running : Bool
  pub joinable : Bool
  pub client_fd : Option ℕ
  pub control_packet_index : ℕ
  pub latest_control_packet : List ℕ
  pub latest_frame : TrackingFrame

-- The sockets: `send` gives what the call of that name returns.
pub record Net (W : Type 0) : Type 0 where
  pub send : ℕ → List ℕ → W → ℤ × W

-- TrackingServer::start; `none` is std::terminate, which assigning to a joinable std::thread calls.
unfoldable pub start : String → ℤ → TrackingServer → Option (Bool × TrackingServer)
start address port t =
    if t.running
    then some (true, t)
    else if is_pos port
    then (if t.joinable
        then none
        else some (true, record bound { running = true; joinable = true }))
    else some (false, bound)
  where
    bound : TrackingServer
    bound = record t { address = if str_eq address "" then "0.0.0.0" else address; port = port }

-- TrackingServer::stop. It waits for the thread, which forgets its client on the way out.
unfoldable pub stop : TrackingServer → TrackingServer
stop t =
    if t.running
    then record t { running = false; server_fd = none; joinable = false; client_fd = none }
    else t

-- run_loop up to the accept loop: the descriptor that `listen` accepted, or none where the address,
-- the socket, `bind` or `listen` failed. A failure leaves the thread to be joined.
unfoldable pub listened : Option ℕ → TrackingServer → TrackingServer
listened none t = record t { server_fd = none; running = false }
listened (some fd) t = record t { server_fd = some fd }

-- `packet.empty()`
abbrev is_empty : List ℕ → Bool
is_empty [] = true
is_empty (b ∷ bs) = false

-- The destructor, which stops the server and then destroys the thread: `none` is std::terminate.
unfoldable pub destroy : TrackingServer → Option (Unit {0})
unfolding stop
destroy t = if (stop t).joinable then none else some tt

module _ {W : Type 0} (net : Net W) where
  -- One round of the accept loop up to `handle_client`: a client that connects is sent the latest
  -- control packet, if there is one.
  unfoldable pub accepted : ℕ → TrackingServer × W → TrackingServer × W
  accepted fd (t, w) =
      if is_empty t.latest_control_packet
      then (record t { client_fd = some fd }, w)
      else (record t { client_fd = some fd }, (net.send fd t.latest_control_packet w).1)

  -- The end of that round.
  unfoldable pub disconnected : ℕ → TrackingServer × W → TrackingServer × W
  disconnected fd (t, w) = elim t.client_fd [
    | none ↦ (t, w)
    | some current ↦ (if current == fd then record t { client_fd = none } else t, w)
  ]

  -- send_control_command after the packet is stored.
  unfoldable pub send_packet : List ℕ → Option ℕ → W → Bool × W
  send_packet packet none w = (true, w)
  send_packet packet (some fd) w =
      let (sent, w') = net.send fd packet w in (eqb sent (pos (length packet)), w')

  -- TrackingServer::send_control_command; the number is a uint8_t that wraps.
  unfoldable pub send_control_command :
      Bool → Bool → ℕ → ℕ → TrackingServer × W → Bool × TrackingServer × W
  unfolding send_packet
  send_control_command detection tracking x y (t, w) =
      let index = (t.control_packet_index + 1) % 2 ^ 8 in
      let packet = control_packet index detection tracking x y in
      let (ok, w') = send_packet packet t.client_fd w in
      (ok, record t { control_packet_index = index; latest_control_packet = packet }, w')

  unfoldable pub enable_detection : TrackingServer × W → Bool × TrackingServer × W
  unfolding send_control_command
  enable_detection = send_control_command true false 0 0

  unfoldable pub enable_tracking_point : ℕ → ℕ → TrackingServer × W → Bool × TrackingServer × W
  unfolding send_control_command
  enable_tracking_point x y = send_control_command true true x y

  unfoldable pub disable_tracking : TrackingServer × W → Bool × TrackingServer × W
  unfolding send_control_command
  disable_tracking = send_control_command true false 0 0

-- The body of the inner loop of handle_client for one line: `none` once an exception has ended the
-- process. A good frame is stored and handed to the callback, whose calls the second part collects,
-- newest first.
unfoldable pub handle_line {ℓ} :
    {V : Type 0} {E : Type ℓ} (j : Json V)
    → (TrackingFrame → E → E)
    → List ℕ
    → Option (TrackingServer × E)
    → Option (TrackingServer × E)
handle_line j callback line none = none
handle_line j callback line (some (t, e)) = elim (parse_line j line) [
  | none ↦ none
  | some none ↦ some (t, e)
  | some (some frame) ↦ some (record t { latest_frame = frame }, callback frame e)
]

-- What the server's thread does by itself: it has set its socket up or not, a tracker connects or
-- leaves, or a frame comes.
pub data ThreadAct : Type 0 where
  sets_up : Option ℕ → ThreadAct
  connects leaves : ℕ → ThreadAct
  reports : TrackingFrame → ThreadAct
