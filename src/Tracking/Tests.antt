-- ===== src/Tracking/Tests.antt =====
-- The tracking server at work.
use mavcam.Prelude.{
  ◌≡◌, refl, inr, ℕ, ◌+◌, ◌%◌, ◌^◌, Bool, true, false, ◌||◌, none, some, List, [], ◌∷◌, ◌++◌,
  length, arith,
}
use mavcam.Prelude.Int.{pos, is_pos}
use mavcam.Tracking.Lines.{Recv, handle_client, feed}
use mavcam.Tracking.Lines.Chunks.{
  handle_client-eq-feed, stream_recovered, received, write_down, unlines, AllNoNewline, NoNewline,
}
use mavcam.Tracking.Frame.{TrackingFrame, empty_frame, Json, parse_object, parse_line}
use mavcam.Tracking.Control.{AllBytes, control_packet, read_packet, control_packet_round_trip}
use mavcam.Tracking.Server.{
  TrackingServer, Net, start, stop, listened, destroy, accepted, send_control_command,
}
use mavcam.Tracking.Server.Lifecycle.{
  IsSound, Life, LifeStep, start_never_terminates, listen_failure_terminates,
}
use mavcam.Tracking.Server.Commands.{command_reaches_next_client}

-- "a", newline, "b" in two chunks with a timeout between them, then newline and the end.
abbrev rounds : List (Bool × Recv)
rounds =
    (true, Recv.bytes (97 ∷ 10 ∷ []))
    ∷ (true, Recv.again)
    ∷ (true, Recv.bytes (98 ∷ 10 ∷ 99 ∷ []))
    ∷ (true, Recv.closed)
    ∷ []

handle_client-eq-feed_example :
    handle_client write_down rounds ([], []) ≡ feed write_down [] (received rounds) []
handle_client-eq-feed_example = handle_client-eq-feed write_down rounds []

stream_recovered_example :
    let (pending, lines) = handle_client write_down rounds ([], []) in
    (unlines lines ++ pending ≡ received rounds) × AllNoNewline lines × NoNewline pending
stream_recovered_example = stream_recovered rounds

-- JSON values that are numbers or an object without members.
abbrev small_json : Json ℕ
small_json = record {
  parse = λ bytes. some 5;
  member = λ v name. some v;
  is_member = λ v name. some false;
  as_int = λ v. some (pos v);
  as_string = λ v. some "";
  is_array = λ v. true;
  elements = λ v. 1 ∷ 2 ∷ [];
}

abbrev five : TrackingFrame
five = record {
  stream_id = pos 5;
  frame_id = pos 5;
  object_count = pos 2;
  objects =
      record { name = ""; x = pos 1; y = pos 1; width = pos 1; height = pos 1 }
      ∷ record { name = ""; x = pos 2; y = pos 2; width = pos 2; height = pos 2 }
      ∷ [];
}

parsed_five : parse_line small_json (53 ∷ []) ≡ some (some five)
unfolding parse_line parse_object
parsed_five = refl

control_packet_round_trip_example :
    let packet = control_packet 255 true true 1919 1079 in
    (length packet ≡ 23)
    × AllBytes packet
    × (read_packet packet
        ≡ some (record { index = 255; detection = true; tracking = true; x = 1919; y = 1079 }))
control_packet_round_trip_example =
    control_packet_round_trip 255 true true 1919 1079 (omega arith) (omega arith) (omega arith)

abbrev idle : TrackingServer
idle = record {
  address = "";
  port = pos 0;
  server_fd = none;
  running = false;
  joinable = false;
  client_fd = none;
  control_packet_index = 255;
  latest_control_packet = [];
  latest_frame = empty_frame;
}

abbrev served : TrackingServer
served = record idle { address = "0.0.0.0"; port = pos 14600; running = true; joinable = true }

idle-IsSound : IsSound idle
idle-IsSound = record { threaded = refl; silent = inr refl }

started : start "" (pos 14600) idle ≡ some (true, served)
unfolding start
started = refl

-- Started, set listening and stopped.
idle-Life : Life idle (stop (listened (some 3) served))
idle-Life =
    Life.next
      (Life.next (Life.next Life.born (LifeStep.starts "" (pos 14600) true started))
        (LifeStep.listens 3 served refl))
      (LifeStep.stops (listened (some 3) served))

start_never_terminates_example :
    let u = stop (listened (some 3) served) in
    ((ok : Bool) × (v : TrackingServer) × (start "" (pos 14600) u ≡ some (ok, v))
      × (ok ≡ (u.running || is_pos (pos 14600)))
      × (v.running ≡ ok))
    × (destroy u ≡ some tt)
start_never_terminates_example = start_never_terminates "" (pos 14600) idle-IsSound idle-Life

listen_failure_terminates_example :
    let u = listened none served in
    (stop u ≡ u) × (start "" (pos 14600) u ≡ none) × (destroy u ≡ none)
listen_failure_terminates_example = listen_failure_terminates "" (pos 14600) served refl refl

-- Sockets that send everything and count the calls.
abbrev full_net : Net ℕ
full_net = record { send = λ fd bytes w. (pos (length bytes), w + 1) }

command_reaches_next_client_example :
    let (ok, t', w') = send_control_command full_net true true 10 20 (idle, 0) in
    let packet = control_packet ((idle.control_packet_index + 1) % 2 ^ 8) true true 10 20 in
    (ok ≡ true)
    × (w' ≡ 0)
    × ((accepted full_net 7 (t', w')).1 ≡ (full_net.send 7 packet 0).1)
    × ((accepted full_net 7 (t', w')).0.client_fd ≡ some 7)
command_reaches_next_client_example =
    command_reaches_next_client full_net true true 10 20 7 idle 0 refl

abbrev connected : TrackingServer
connected = record served { client_fd = some 7 }
