-- ===== src/MavClient/Options/Chosen.antt =====
-- Which camera client the command line of the MAVLink client chooses.
use mavcam.Prelude.{
  ◌≡◌, refl, subst, ℕ, true, not, ◌&&◌, ◌||◌, Option, none, some, String, List, [], ◌∷◌, str_eq,
  if_rule,
}
use mavcam.Prelude.Int.{ℤ}
use mavcam.Prelude.Text.{stoi}
use mavcam.CommandLine.{Outcome, Round, with_value, is_integer, integer_option}
use mavcam.MavClient.Options.{
  Options, read_arg, read_args, set_port, set_connection_type, set_init_mode, checked, command_line,
  default_options,
}

module _ (eth0 : Option String) where
  -- A round and an outcome that leave the local client chosen.
  IsLocal : Outcome Options → Type 0
  IsLocal (Outcome.runs o) = o.use_local ≡ true
  IsLocal _ = Unit {0}

  RoundIsLocal : Round Options → Type 0
  unfolding IsLocal
  RoundIsLocal (Round.ends outcome) = IsLocal outcome
  RoundIsLocal (Round.takes_one o) = o.use_local ≡ true
  RoundIsLocal (Round.takes_two o) = o.use_local ≡ true

  code-IsLocal : (code : ℕ) → RoundIsLocal (Round.ends (Outcome.exits code))
  unfolding RoundIsLocal
  code-IsLocal code = tt

  one-IsLocal : (o : Options) → o.use_local ≡ true → RoundIsLocal (Round.takes_one o)
  unfolding RoundIsLocal
  one-IsLocal o h = h

  two-IsLocal : (o : Options) → o.use_local ≡ true → RoundIsLocal (Round.takes_two o)
  unfolding RoundIsLocal
  two-IsLocal o h = h

  with_value-IsLocal :
      (next : Option String) (f : String → Round Options)
      → ((value : String) → RoundIsLocal (f value))
      → RoundIsLocal (with_value next f)
  with_value-IsLocal none f h = code-IsLocal 1
  with_value-IsLocal (some value) f h = h value

  set_port-IsLocal :
      (value : String) (o : Options) → o.use_local ≡ true → RoundIsLocal (set_port value o)
  unfolding set_port integer_option RoundIsLocal IsLocal
  set_port-IsLocal value o h =
      if_rule RoundIsLocal (not (is_integer value)) tt (number (stoi value))
    where
      number :
          (n : Option ℤ)
          → RoundIsLocal (elim n [
            | none ↦ Round.ends Outcome.throws
            | some port ↦ Round.takes_two (record o { rpc_port = port })
          ])
      number none = tt
      number (some n) = h

  set_connection_type-IsLocal :
      (value : String) (o : Options)
      → o.use_local ≡ true
      → RoundIsLocal (set_connection_type eth0 value o)
  unfolding set_connection_type
  set_connection_type-IsLocal value o h =
      if_rule RoundIsLocal (str_eq value "ethernet") (two-IsLocal _ h) (
        if_rule RoundIsLocal (str_eq value "wlan") (two-IsLocal _ h)
          (if_rule RoundIsLocal (str_eq value "usb") (two-IsLocal _ h) (code-IsLocal 1)))

  set_init_mode-IsLocal :
      (value : String) (o : Options) → o.use_local ≡ true → RoundIsLocal (set_init_mode value o)
  unfolding set_init_mode
  set_init_mode-IsLocal value o h =
      if_rule RoundIsLocal (not (str_eq value "0") && not (str_eq value "1")) (code-IsLocal 1)
        (two-IsLocal _ h)

  read_arg-IsLocal :
      (arg : String) (next : Option String) (o : Options)
      → o.use_local ≡ true
      → RoundIsLocal (read_arg eth0 arg next o)
  unfolding read_arg
  read_arg-IsLocal arg next o h =
      if_rule RoundIsLocal (str_eq arg "-h" || str_eq arg "--help") (code-IsLocal 0) (
        if_rule RoundIsLocal (str_eq arg "-v" || str_eq arg "--version") (code-IsLocal 0) (
          if_rule RoundIsLocal (str_eq arg "-u")
            (with_value-IsLocal next _ (λ value. two-IsLocal _ h))
            (if_rule RoundIsLocal (str_eq arg "-l") (one-IsLocal _ refl) (
              if_rule RoundIsLocal (str_eq arg "-r")
                (with_value-IsLocal next _ (λ value. set_port-IsLocal value o h))
                (if_rule RoundIsLocal (str_eq arg "-f" || str_eq arg "--ftp_path")
                  (with_value-IsLocal next _ (λ value. two-IsLocal _ h))
                  (if_rule RoundIsLocal (str_eq arg "--log_path")
                    (with_value-IsLocal next _ (λ value. two-IsLocal _ h))
                    (if_rule RoundIsLocal
                      (str_eq arg "--connection_type" || str_eq arg "--connection-type")
                      (with_value-IsLocal next _ (λ value. set_connection_type-IsLocal value o h))
                      (if_rule RoundIsLocal (str_eq arg "--camera_mode")
                        (with_value-IsLocal next _ (λ value. set_init_mode-IsLocal value o h))
                        (if_rule RoundIsLocal (str_eq arg "--snapshot_resolution")
                          (with_value-IsLocal next _ (λ value. two-IsLocal _ h))
                          (if_rule RoundIsLocal (str_eq arg "--autopilot") (one-IsLocal _ h)
                            (code-IsLocal 1)))))))))))

  read_args-IsLocal :
      (args : List String) (o : Options) → o.use_local ≡ true → IsLocal (read_args eth0 args o)
  unfolding read_args RoundIsLocal IsLocal
  read_args-IsLocal [] o h = h
  read_args-IsLocal (arg ∷ []) o h = last (read_arg eth0 arg none o) (read_arg-IsLocal arg none o h)
    where
      last :
          (r : Round Options)
          → RoundIsLocal r
          → IsLocal (elim r [
            | Round.ends outcome ↦ outcome
            | Round.takes_one o' ↦ Outcome.runs o'
            | Round.takes_two o' ↦ Outcome.runs o'
          ])
      last (Round.ends outcome) k = k
      last (Round.takes_one o') k = k
      last (Round.takes_two o') k = k
  read_args-IsLocal (arg ∷ next ∷ rest) o h =
      elim (read_arg eth0 arg (some next) o)
          as (λ r.
            RoundIsLocal r
            → IsLocal (elim r [
              | Round.ends outcome ↦ outcome
              | Round.takes_one o' ↦ read_args eth0 (next ∷ rest) o'
              | Round.takes_two o' ↦ read_args eth0 rest o'
            ])) [
              | Round.ends outcome ↦ λ k. k
              | Round.takes_one o' ↦ λ k. read_args-IsLocal (next ∷ rest) o' k
              | Round.takes_two o' ↦ λ k. read_args-IsLocal rest o' k
            ]
        (read_arg-IsLocal arg (some next) o h)

  checked-IsLocal : (outcome : Outcome Options) → IsLocal outcome → IsLocal (checked outcome)
  unfolding checked IsLocal
  checked-IsLocal (Outcome.exits code) h = tt
  checked-IsLocal Outcome.throws h = tt
  checked-IsLocal (Outcome.runs o) h =
      if_rule IsLocal (str_eq o.connection_type "ethernet" && str_eq o.rtsp_ip "") tt h

  -- No command line chooses the RPC client, one that gives its port included: the client is local
  -- wherever the program runs.
  pub local_client_always :
      (args : List String) (o : Options)
      → command_line eth0 args ≡ Outcome.runs o
      → o.use_local ≡ true
  unfolding command_line IsLocal
  local_client_always args o h = subst IsLocal h (
      checked-IsLocal (read_args eth0 args default_options)
        (read_args-IsLocal args default_options refl))
