-- ===== src/Server/Options.antt =====
-- The command line of the server: main of src/mav_server/mav_server_bin.cpp up to its logging. What is
-- printed is left out, and so is what --snapshot_resolution is matched against, which decides a message
-- only.
pub mod Parsed
use mavcam.Prelude.{
  not, ◌&&◌, ◌||◌, Option, none, some, String, List, [], ◌∷◌, str_eq, if◌then◌else◌,
}
use mavcam.Prelude.Int.{ℤ, pos}
use mavcam.CommandLine.{Outcome, Round, with_value, integer_option, loop}

-- The port, the file's default_log_path and default_store_prefix, and the two environment variables
-- that the loop sets.
pub record ServerOptions : Type 0 where
  pub rpc_port : ℤ
  pub log_path : String
  pub store_prefix : String
  pub init_camera_mode : Option String
  pub init_snapshot_res : Option String

abbrev pub default_options : ServerOptions
default_options = record {
  rpc_port = pos 50051;
  log_path = "/data/camera/";
  store_prefix = "NDAA";
  init_camera_mode = none;
  init_snapshot_res = none;
}

abbrev set_camera_mode : ServerOptions → String → Round ServerOptions
set_camera_mode o value =
    if not (str_eq value "0") && not (str_eq value "1")
    then Round.ends (Outcome.exits 1)
    else Round.takes_two (record o { init_camera_mode = some value })

unfoldable pub read_arg : String → Option String → ServerOptions → Round ServerOptions
unfolding integer_option
read_arg arg next o =
    if str_eq arg "-h" || str_eq arg "--help"
    then Round.ends (Outcome.exits 0)
    else if str_eq arg "-v" || str_eq arg "--version"
    then Round.ends (Outcome.exits 0)
    else if str_eq arg "-r"
    then with_value next (integer_option (λ port. record o { rpc_port = port }))
    else if str_eq arg "--log_path"
    then with_value next (λ value. Round.takes_two (record o { log_path = value }))
    else if str_eq arg "--store_prefix"
    then with_value next (λ value. Round.takes_two (record o { store_prefix = value }))
    else if str_eq arg "--camera_mode"
    then with_value next (set_camera_mode o)
    else if str_eq arg "--snapshot_resolution"
    then with_value next (λ value. Round.takes_two (record o { init_snapshot_res = some value }))
    else Round.ends (Outcome.exits 1)

unfoldable pub command_line : List String → Outcome ServerOptions
unfolding read_arg
command_line args = loop read_arg args default_options
