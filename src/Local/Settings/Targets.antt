-- ===== src/Local/Settings/Targets.antt =====
-- Where the points that enable_tracking_point and disable_tracking of
-- src/mav_client/camera_local_client.cpp send to the tracking service lie.
use mavcam.Prelude.{ℕ, ◌+◌, ◌%◌, ◌^◌, ◌<◌, ◌≡◌, true, some, arith}
use mavcam.Tracking.Control.{read_packet, control_packet_round_trip}
use mavcam.Tracking.Server.{send_control_command}
use mavcam.Tracking.Server
use mavcam.Local.Device.{Device}
use mavcam.Local.State.{Local}
use mavcam.Local.Settings.Ai.{
  tracking_coordinate, source_width, source_height, enable_tracking_point,
}

module _ {W F : Type 0} (d : Device W F) where
  coordinate_bound : (p : F) (side : ℕ) → 0 < side → tracking_coordinate d p side < side
  unfolding tracking_coordinate
  coordinate_bound p side h = ground arith

  source_height_bounds : (s : Local W F) → (0 < source_height d s) × (source_height d s < 2 ^ 16)
  source_height_bounds s = ground arith

  -- Whatever floats a client gives, even ones outside the picture or without a value, the packet that
  -- enable_tracking_point leaves for the service switches tracking on and names a point inside the
  -- source: its column is below 1920 and its row below the height for the camera mode in force.
  pub tracking_point_in_source :
      (x y : F) (s : Local W F)
      → let t = (enable_tracking_point d x y s).1.tracking_server in
        let column = tracking_coordinate d x source_width in
        let row = tracking_coordinate d y (source_height d s) in
        (read_packet t.latest_control_packet
          ≡ some (record {
            index = (s.tracking_server.control_packet_index + 1) % 2 ^ 8;
            detection = true;
            tracking = true;
            x = column;
            y = row;
          }))
        × (column < 1920)
        × (row < source_height d s)
  unfolding enable_tracking_point Server.enable_tracking_point send_control_command
  tracking_point_in_source x y s =
      let column = coordinate_bound x source_width (ground arith) in
      let row = coordinate_bound y (source_height d s) (source_height_bounds s).0 in
      (
        (control_packet_round_trip ((s.tracking_server.control_packet_index + 1) % 2 ^ 8) true true
            (tracking_coordinate d x source_width) (tracking_coordinate d y (source_height d s))
            (ground arith) (ground arith) (ground (arith, source_height_bounds s))).2,
        column,
        row,
      )
