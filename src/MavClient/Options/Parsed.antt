-- ===== src/MavClient/Options/Parsed.antt =====
-- What the command line of the MAVLink client comes to.
use mavcam.Prelude.{
  ◌≡◌, ◌∙◌, refl, ap, ℕ, ◌^◌, ◌<◌, Bool, true, false, Option, some, String, List, [], ◌∷◌, ltb,
  if◌then◌else◌,
}
use mavcam.Prelude.Int.{pos}
use mavcam.Prelude.Text.{decimal, stoi}
use mavcam.CommandLine.{Outcome, Round, is_integer, integer_option}
use mavcam.CommandLine.Integers.{integer_option-decimal, integer_option-small}
use mavcam.MavClient.Options.{
  Options, read_arg, read_args, set_port, set_connection_type, set_init_mode, checked, command_line,
  default_options,
}

-- A port that is a number below 2 ^ 31 is taken; a larger one, and the empty text, pass is_integer and
-- make std::stoi throw.
pub port_is_taken_or_throws :
    (n : ℕ) (o : Options)
    → (set_port (decimal n) o ≡ (
        if ltb n (2 ^ 31)
        then Round.takes_two (record o { rpc_port = pos n })
        else Round.ends Outcome.throws))
      × (set_port "" o ≡ Round.ends Outcome.throws)
unfolding set_port integer_option is_integer stoi
port_is_taken_or_throws n o =
    (integer_option-decimal (λ port. record o { rpc_port = port }) n, refl)

-- The command line that sets every option, for a port and for the USB or the wlan connection; first
-- what stands after the port.
abbrev written_after : String → String → Bool → Bool → Bool → List String
written_after ftp log wlan video autopilot =
    "-f"
    ∷ ftp
    ∷ "--log_path"
    ∷ log
    ∷ "--connection_type"
    ∷ (if wlan then "wlan" else "usb")
    ∷ "--camera_mode"
    ∷ (if video then "1" else "0")
    ∷ (if autopilot then "--autopilot" ∷ [] else [])

abbrev pub written : String → ℕ → String → String → Bool → Bool → Bool → List String
written url port ftp log wlan video autopilot =
    "-u" ∷ url ∷ "-r" ∷ decimal port ∷ written_after ftp log wlan video autopilot

abbrev pub options_written : String → ℕ → String → String → Bool → Bool → Bool → Options
options_written url port ftp log wlan video autopilot = record default_options {
  connection_url = url;
  rpc_port = pos port;
  ftp_path = ftp;
  log_path = log;
  connection_type = if wlan then "wlan" else "usb";
  init_camera_mode = some (if video then "1" else "0");
  work_as_autopilot = autopilot;
}

module _ (eth0 : Option String) where
  port-read :
      (rest : List String) (port : ℕ) (o : Options)
      → port < 2 ^ 31
      → read_args eth0 ("-r" ∷ decimal port ∷ rest) o
        ≡ read_args eth0 rest (record o { rpc_port = pos port })
  unfolding read_args read_arg set_port
  port-read rest port o fits =
      ap
        (λ r. elim r [
          | Round.ends outcome ↦ outcome
          | Round.takes_one o' ↦ read_args eth0 (decimal port ∷ rest) o'
          | Round.takes_two o' ↦ read_args eth0 rest o'
        ])
        (integer_option-small (λ port. record o { rpc_port = port }) port fits)

  after-read :
      (url : String) (port : ℕ) (ftp log : String) (wlan video autopilot : Bool)
      → read_args eth0
          (written_after ftp log wlan video autopilot)
          (record default_options { connection_url = url; rpc_port = pos port })
        ≡ Outcome.runs (options_written url port ftp log wlan video autopilot)
  unfolding read_args read_arg set_connection_type set_init_mode
  after-read url port ftp log false false false = refl
  after-read url port ftp log false false true = refl
  after-read url port ftp log false true false = refl
  after-read url port ftp log false true true = refl
  after-read url port ftp log true false false = refl
  after-read url port ftp log true false true = refl
  after-read url port ftp log true true false = refl
  after-read url port ftp log true true true = refl

  written-read :
      (url : String) (port : ℕ) (ftp log : String) (wlan video autopilot : Bool)
      → port < 2 ^ 31
      → read_args eth0 (written url port ftp log wlan video autopilot) default_options
        ≡ Outcome.runs (options_written url port ftp log wlan video autopilot)
  unfolding read_args read_arg
  written-read url port ftp log wlan video autopilot fits =
      port-read (written_after ftp log wlan video autopilot) port
        (record default_options { connection_url = url }) fits
      ∙ after-read url port ftp log wlan video autopilot

  -- A command line that writes out its options is read back as them, whatever the texts are, an option's
  -- own name included; the port must fit an int, and the connection is USB or wlan.
  pub command_line_read_back :
      (url : String) (port : ℕ) (ftp log : String) (wlan video autopilot : Bool)
      → port < 2 ^ 31
      → command_line eth0 (written url port ftp log wlan video autopilot)
        ≡ Outcome.runs (options_written url port ftp log wlan video autopilot)
  unfolding command_line checked
  command_line_read_back url port ftp log wlan video autopilot fits =
      ap checked (written-read url port ftp log wlan video autopilot fits) ∙ usable wlan
    where
      usable :
          (wlan : Bool)
          → checked (Outcome.runs (options_written url port ftp log wlan video autopilot))
            ≡ Outcome.runs (options_written url port ftp log wlan video autopilot)
      usable false = refl
      usable true = refl
