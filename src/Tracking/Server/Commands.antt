-- ===== src/Tracking/Server/Commands.antt =====
-- What a tracking client is told, and when.
use mavcam.Prelude.{ℕ, ◌+◌, ◌%◌, ◌^◌, ◌≡◌, Bool, true, none, some, arith}
use mavcam.Prelude.Int.{pos, eqb}
use mavcam.Tracking.Control.{control_packet}
use mavcam.Tracking.Server.{TrackingServer, Net, accepted, disconnected, send_control_command}

module _ {W : Type 0} (net : Net W) where
  -- A command given while no client is connected is not lost: it is reported as sent, sends nothing,
  -- and the next client that connects is sent exactly this command's packet, under the next number.
  pub command_reaches_next_client :
      (detection tracking : Bool) (x y fd : ℕ) (t : TrackingServer) (w : W)
      → t.client_fd ≡ none
      → let (ok, t', w') = send_control_command net detection tracking x y (t, w) in
        let packet = control_packet ((t.control_packet_index + 1) % 2 ^ 8) detection tracking x y in
        (ok ≡ true)
        × (w' ≡ w)
        × ((accepted net fd (t', w')).1 ≡ (net.send fd packet w).1)
        × ((accepted net fd (t', w')).0.client_fd ≡ some fd)
  unfolding send_control_command accepted control_packet
  command_reaches_next_client detection tracking x y fd t w h = ground arith

  -- A command given while a client is connected is sent to it at once, as one packet of 23 bytes, and
  -- succeeds exactly when `send` takes all of them; a client that connects after the loss of this one
  -- is sent the same packet again, whether or not the command succeeded.
  pub command_resent_on_reconnect :
      (detection tracking : Bool) (x y fd fd' : ℕ) (t : TrackingServer) (w : W)
      → t.client_fd ≡ some fd
      → let (ok, t', w') = send_control_command net detection tracking x y (t, w) in
        let packet = control_packet ((t.control_packet_index + 1) % 2 ^ 8) detection tracking x y in
        (ok ≡ eqb (net.send fd packet w).0 (pos 23))
        × (w' ≡ (net.send fd packet w).1)
        × ((disconnected net fd (t', w')).0.client_fd ≡ none)
        × ((accepted net fd' (disconnected net fd (t', w'))).1 ≡ (net.send fd' packet w').1)
  unfolding send_control_command accepted disconnected control_packet
  command_resent_on_reconnect detection tracking x y fd fd' t w h =
      (ground arith, ground arith, ground arith, ground arith)
