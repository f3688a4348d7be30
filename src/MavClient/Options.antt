-- ===== src/MavClient/Options.antt =====
-- The command line of the MAVLink client: main, and ethernet_rtsp_ip of
-- src/mav_client/mav_client_bin.cpp. What is printed is left out, and so is what --snapshot_resolution
-- is matched against, which decides a message only.
use mavcam.Prelude.{
  ℕ, Bool, true, false, not, ◌&&◌, ◌||◌, Option, none, some, String, List, [], ◌∷◌, str_eq,
  if◌then◌else◌,
}
use mavcam.Prelude.Int.{ℤ, pos}
use mavcam.CommandLine.{Outcome, Round, with_value, integer_option, loop}
pub mod Parsed
pub mod Chosen

-- The variables that main's loop assigns, with the two environment variables that it sets and the
-- file's default_ftp_path, default_log_path and work_as_autopilot.
pub record Options : Type 0 where
  pub connection_url : String
  pub rpc_port : ℤ
  pub use_local : Bool
  pub connection_type : String
  pub rtsp_ip : String
  pub ftp_path : String
  pub log_path : String
  pub init_camera_mode : Option String
  pub init_snapshot_res : Option String
  pub work_as_autopilot : Bool

abbrev pub default_options : Options
default_options = record {
  connection_url = "udp://127.0.0.1:14550";
  rpc_port = pos 50051;
  use_local = true;
  connection_type = "usb";
  rtsp_ip = "192.168.251.1";
  ftp_path = "/usr/share/mav-cam/";
  log_path = "/data/camera/";
  init_camera_mode = none;
  init_snapshot_res = none;
  work_as_autopilot = false;
}

-- What follows " inet ", and a text up to the first '/', or all of it.
unfoldable pub after_inet : String → Option String
after_inet String.[] = none
after_inet
      (String.◌∷◌ c0
        (String.◌∷◌ c1 (String.◌∷◌ c2 (String.◌∷◌ c3 (String.◌∷◌ c4 (String.◌∷◌ c5 rest)))))) =
    let later =
      after_inet
        (String.◌∷◌ c1 (String.◌∷◌ c2 (String.◌∷◌ c3 (String.◌∷◌ c4 (String.◌∷◌ c5 rest))))) in
    if str_eq
      (String.◌∷◌ c0
        (String.◌∷◌ c1 (String.◌∷◌ c2 (String.◌∷◌ c3 (String.◌∷◌ c4 (String.◌∷◌ c5 ""))))))
      " inet "
    then some rest
    else later
after_inet _ = none

unfoldable pub until_slash : String → String
until_slash String.[] = ""
until_slash (String.◌∷◌ c rest) =
    let kept = until_slash rest in if str_eq (String.◌∷◌ c "") "/" then "" else String.◌∷◌ c kept

-- ethernet_rtsp_ip, on the first line that the command prints.
unfoldable pub ethernet_rtsp_ip : Option String → String
unfolding after_inet until_slash
ethernet_rtsp_ip none = ""
ethernet_rtsp_ip (some line) = elim (after_inet line) [
  | none ↦ ""
  | some address ↦ until_slash address
]

unfoldable pub set_port : String → Options → Round Options
unfolding integer_option
set_port value o = integer_option (λ port. record o { rpc_port = port }) value

unfoldable pub set_init_mode : String → Options → Round Options
set_init_mode value o =
    if not (str_eq value "0") && not (str_eq value "1")
    then Round.ends (Outcome.exits 1)
    else Round.takes_two (record o { init_camera_mode = some value })

-- The check after the loop.
unfoldable pub checked : Outcome Options → Outcome Options
checked (Outcome.exits code) = Outcome.exits code
checked Outcome.throws = Outcome.throws
checked (Outcome.runs o) =
    if str_eq o.connection_type "ethernet" && str_eq o.rtsp_ip ""
    then Outcome.exits 1
    else Outcome.runs o

module _ (eth0 : Option String) where
  unfoldable pub set_connection_type : String → Options → Round Options
  unfolding ethernet_rtsp_ip
  set_connection_type value o =
      let known = record o { connection_type = value } in
      if str_eq value "ethernet"
      then Round.takes_two (record known { rtsp_ip = ethernet_rtsp_ip eth0 })
      else if str_eq value "wlan"
      then Round.takes_two (record known { rtsp_ip = "192.168.251.1" })
      else if str_eq value "usb"
      then Round.takes_two (record known { rtsp_ip = "192.168.251.1" })
      else Round.ends (Outcome.exits 1)

  unfoldable pub read_arg : String → Option String → Options → Round Options
  unfolding set_port set_connection_type set_init_mode
  read_arg arg next o =
      if str_eq arg "-h" || str_eq arg "--help"
      then Round.ends (Outcome.exits 0)
      else if str_eq arg "-v" || str_eq arg "--version"
      then Round.ends (Outcome.exits 0)
      else if str_eq arg "-u"
      then with_value next (λ value. Round.takes_two (record o { connection_url = value }))
      else if str_eq arg "-l"
      then Round.takes_one (record o { use_local = true })
      else if str_eq arg "-r"
      then with_value next (λ value. set_port value o)
      else if str_eq arg "-f" || str_eq arg "--ftp_path"
      then with_value next (λ value. Round.takes_two (record o { ftp_path = value }))
      else if str_eq arg "--log_path"
      then with_value next (λ value. Round.takes_two (record o { log_path = value }))
      else if str_eq arg "--connection_type" || str_eq arg "--connection-type"
      then with_value next (λ value. set_connection_type value o)
      else if str_eq arg "--camera_mode"
      then with_value next (λ value. set_init_mode value o)
      else if str_eq arg "--snapshot_resolution"
      then with_value next (λ value. Round.takes_two (record o { init_snapshot_res = some value }))
      else if str_eq arg "--autopilot"
      then Round.takes_one (record o { work_as_autopilot = true })
      else Round.ends (Outcome.exits 1)

  unfoldable pub read_args : List String → Options → Outcome Options
  unfolding read_arg
  read_args = loop read_arg

  unfoldable pub command_line : List String → Outcome Options
  unfolding read_args checked
  command_line args = checked (read_args args default_options)

  -- main: `init` is MavClient::init, and what start_runloop answers is dropped.
  unfoldable pub main : (Options → Bool) → List String → Option ℕ
  unfolding command_line
  main init args = elim (command_line args) [
    | Outcome.exits code ↦ some code
    | Outcome.throws ↦ none
    | Outcome.runs o ↦ some (if init o then 0 else 1)
  ]
