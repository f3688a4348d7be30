-- ===== src/MavClient/Tests.antt =====
-- The MAVLink client at work, on the local client and before a service.
use mavcam.Prelude.{
  ◌≡◌, refl, ℕ, true, false, Option, none, some, String, List, [], ◌∷◌, ◌&&◌, at, contains, lookup,
  if◌then◌else◌, arith,
}
use mavcam.Prelude.Int.{pos, negsuc}
use mavcam.Prelude.Text.{stoi, to_string}
use mavcam.Results.{MavResult, is_server_success, is_mav_success}
use mavcam.Plugin.{LensInformation}
use mavcam.Local.Information.{DeviceText, PreviewStream}
use mavcam.Local.Tests.{small, ready, brand}
use mavcam.Remote.Operations.{reply_result}
use mavcam.Remote
use mavcam.MavClient.{Sent, Feedback, ServerParam}
use mavcam.MavClient.Handlers.{on_reset_settings, on_changed_param_int, param_of}
use mavcam.MavClient.Clients.{local_client, remote_client}
use mavcam.MavClient.Feedbacks.{sent_of, remote_reset_never_returns}
use mavcam.MavClient.Params.{iso_and_world, int_param_reaches_camera}
use mavcam.CommandLine.{Outcome}
use mavcam.MavClient.Runloop.{Event, Stage}
use mavcam.MavClient.Runloop.Interrupts.{answer, in_order, runloop_ends}
use mavcam.MavClient.Options.{Options, command_line, default_options}
use mavcam.MavClient.Options.Parsed.{written, options_written, command_line_read_back}
use mavcam.MavClient.Options.Chosen.{local_client_always}

abbrev no_lens : ℕ → (MavResult × LensInformation ℕ) × ℕ
no_lens w = (
  (
    MavResult.success,
    record {
      focal_length_mm = 24;
      horizontal_sensor_size_mm = 6;
      vertical_sensor_size_mm = 5;
      horizontal_resolution_px = 9248;
      vertical_resolution_px = 6944;
      lens_id = 0;
    },
  ),
  w,
)

abbrev text : DeviceText
text = record {
  product_brand = "Brand";
  product_name = "Name";
  firmware_version = "1.0";
  definition_file_version = λ name. 3;
}

abbrev preview : PreviewStream ℕ
preview = record {
  frame_rate = 30;
  width = 1280;
  height = 720;
  bitrate = 4000;
  rtsp_ip = "192.168.251.1";
}

abbrev any_float : String → Option ℕ
any_float value = some 0

iso_known : contains "CAM_ISO" ready.settings ≡ true
unfolding lookup
iso_known = refl

int_param_reaches_camera_example :
    let client = local_client small brand text preview no_lens in
    let (result, w) = small.rgb.set_iso (negsuc 7) ready.world in
    (iso_and_world (on_changed_param_int client "CAM_ISO" (negsuc 7) ready)
      ≡ some (
        (if is_mav_success result then to_string (negsuc 7) else at "CAM_ISO" ready.settings),
        w,
      ))
    × (param_of any_float "CAM_ISO" (to_string (negsuc 7))
        ≡ some (ServerParam.int_param "CAM_ISO" (negsuc 7)))
int_param_reaches_camera_example =
    int_param_reaches_camera small brand text preview no_lens any_float (negsuc 7) ready refl
      iso_known refl

remote_reset_never_returns_example :
    let client = remote_client Remote.Tests.line 0 in
    let result = reply_result (Remote.Tests.line.reset_settings Remote.Tests.client.world).0 in
    sent_of (on_reset_settings client any_float (pos 0) Remote.Tests.client)
    ≡ (if is_server_success result then none else some (Sent.reset_settings Feedback.failed ∷ []))
remote_reset_never_returns_example =
    remote_reset_never_returns Remote.Tests.line 0 any_float (pos 0) Remote.Tests.client refl

command_line_read_back_example :
    command_line none (written "-l" 14550 "/tmp" "-u" true false true)
    ≡ Outcome.runs (options_written "-l" 14550 "/tmp" "-u" true false true)
command_line_read_back_example =
    command_line_read_back none "-l" 14550 "/tmp" "-u" true false true (omega arith)

abbrev with_port : Options
with_port = record default_options { rpc_port = pos 7 }

port_given : command_line none ("-r" ∷ "7" ∷ []) ≡ Outcome.runs with_port
unfolding command_line stoi
port_given = refl

local_client_always_example : with_port.use_local ≡ true
local_client_always_example = local_client_always none ("-r" ∷ "7" ∷ []) with_port port_given

abbrev lost_interrupt : List Event
lost_interrupt = Event.interrupt ∷ Event.main_thread ∷ Event.main_thread ∷ []

runloop_ends_example : answer true true lost_interrupt Stage.connecting false ≡ (
    if true && true
    then (if in_order (Event.main_thread ∷ Event.interrupt ∷ Event.main_thread ∷ []) lost_interrupt
        then some true
        else none)
    else (if in_order (Event.main_thread ∷ []) lost_interrupt then some false else none))
runloop_ends_example = runloop_ends true true false lost_interrupt
