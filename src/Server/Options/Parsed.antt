-- ===== src/Server/Options/Parsed.antt =====
-- What the command line of the server comes to.
use mavcam.Prelude.{
  ◌≡◌, ◌∙◌, refl, ap, ℕ, ◌^◌, Bool, true, false, some, String, List, [], ◌∷◌, ltb, if◌then◌else◌,
}
use mavcam.Prelude.Int.{pos}
use mavcam.Prelude.Text.{decimal}
use mavcam.CommandLine.{Outcome, Round, loop}
use mavcam.CommandLine.Integers.{integer_option-decimal}
use mavcam.Server.Options.{ServerOptions, read_arg, command_line}

-- Every option, the port last.
abbrev pub written : String → String → Bool → String → ℕ → List String
written log prefix video size port =
    "--log_path"
    ∷ log
    ∷ "--store_prefix"
    ∷ prefix
    ∷ "--camera_mode"
    ∷ (if video then "1" else "0")
    ∷ "--snapshot_resolution"
    ∷ size
    ∷ "-r"
    ∷ decimal port
    ∷ []

abbrev pub options_written : String → String → Bool → String → ℕ → ServerOptions
options_written log prefix video size port = record {
  rpc_port = pos port;
  log_path = log;
  store_prefix = prefix;
  init_camera_mode = some (if video then "1" else "0");
  init_snapshot_res = some size;
}

-- The loop over the port alone, whatever the options were before it.
port-read :
    (port : ℕ) (o : ServerOptions)
    → loop read_arg ("-r" ∷ decimal port ∷ []) o ≡ (
        if ltb port (2 ^ 31)
        then Outcome.runs (record o { rpc_port = pos port })
        else Outcome.throws)
unfolding read_arg
port-read port o =
    ap
      (λ r. elim r [
        | Round.ends outcome ↦ outcome
        | Round.takes_one o' ↦ loop read_arg (decimal port ∷ []) o'
        | Round.takes_two o' ↦ Outcome.runs o'
      ])
      (integer_option-decimal (λ n. record o { rpc_port = n }) port)
    ∙ outcome_of (ltb port (2 ^ 31))
  where
    outcome_of :
        (test : Bool)
        → ◌≡◌ {A = Outcome ServerOptions}
            (elim (if test
                then Round.takes_two (record o { rpc_port = pos port })
                else Round.ends Outcome.throws)
              as (λ _. Outcome ServerOptions) [
                | Round.ends outcome ↦ outcome
                | Round.takes_one o' ↦ loop read_arg (decimal port ∷ []) o'
                | Round.takes_two o' ↦ Outcome.runs o'
              ])
            (if test then Outcome.runs (record o { rpc_port = pos port }) else Outcome.throws)
    outcome_of true = refl
    outcome_of false = refl

-- A command line of the server that writes out all its options is read back as them, whatever the texts
-- are, if the port fits an int; a larger port passes the check and makes std::stoi throw.
pub server_line_read_back :
    (log prefix : String) (video : Bool) (size : String) (port : ℕ)
    → command_line (written log prefix video size port) ≡ (
        if ltb port (2 ^ 31)
        then Outcome.runs (options_written log prefix video size port)
        else Outcome.throws)
unfolding command_line read_arg
server_line_read_back log prefix false size port =
    port-read port (record (options_written log prefix false size port) { rpc_port = pos 50051 })
server_line_read_back log prefix true size port =
    port-read port (record (options_written log prefix true size port) { rpc_port = pos 50051 })
