-- ===== src/Server.antt =====
-- The server program: MavServer of src/mav_server/mav_server.cpp, and main with its signal handler in
-- src/mav_server/mav_server_bin.cpp. gRPC, which builds the server and waits in it, is a Boolean for
-- each address: whether the server could be built there. Its Shutdown, which stop_runloop calls, waits
-- for the handlers that run; those that can run for long are the subscriptions of the camera service,
-- each of which waits for its promise. Nothing calls CameraServiceImpl::stop, so they end by themselves
-- or not at all.
pub mod Options
mod Interrupts
mod Tests
use mavcam.Prelude.{ℕ, ◌+◌, ◌-◌, ◌==◌, Bool, true, false, String, List, [], ◌∷◌, if◌then◌else◌}
use mavcam.Prelude.Int.{ℤ}
use mavcam.Prelude.Text.{append_text, to_string}
use mavcam.CommandLine.{Outcome}
use mavcam.Server.Options.{ServerOptions, command_line}

-- MavServer; `has_server` says that `_server` is not null.
pub record MavServer : Type 0 where
  pub rpc_port : ℤ
  pub has_server : Bool

-- The process, from the moment on that the signal handler is installed: main is about to start the
-- server; it waits in it, with a number of open subscriptions; the signal handler waits in Shutdown for
-- some; or the process has ended with a code, or by a call through a null pointer.
pub data Process : Type 0 where
  starting : MavServer → Process
  waiting : MavServer → ℕ → Process
  stopping : ℕ → Process
  ended : ℕ → Process
  crashed : Process

-- A step of main, an interrupt, or a subscription that is opened or ends.
pub data Event : Type 0 where
  main_thread interrupt opens ends : Event

unfoldable pub init : ℤ → MavServer → Bool × MavServer
init port m = (true, record m { rpc_port = port })

unfoldable pub server_address : MavServer → String
unfolding to_string
server_address m = append_text "127.0.0.1:" (to_string m.rpc_port)

module _ (built : String → Bool) (signum : ℕ) where
  -- start_runloop; main drops its answer and returns 0.
  unfoldable pub start_runloop : MavServer → Process
  unfolding server_address
  start_runloop m =
      if built (server_address m)
      then Process.waiting (record m { has_server = true }) 0
      else Process.ended 0

  -- Shutdown returns when no subscription is open, and the process exits.
  unfoldable pub shut_down : ℕ → Process
  shut_down streams = if streams == 0 then Process.ended signum else Process.stopping streams

  -- The signal handler: stop_runloop, and then the process exits.
  unfoldable pub signal_handler : MavServer → ℕ → Process
  unfolding shut_down
  signal_handler m streams = if m.has_server then shut_down streams else Process.crashed

  -- A second interrupt is held back while the signal handler runs, and a new subscription is refused.
  unfoldable pub step : Event → Process → Process
  unfolding start_runloop signal_handler shut_down
  step Event.main_thread (Process.starting m) = start_runloop m
  step Event.interrupt (Process.starting m) = signal_handler m 0
  step Event.interrupt (Process.waiting m streams) = signal_handler m streams
  step Event.opens (Process.waiting m streams) = Process.waiting m (streams + 1)
  step Event.ends (Process.waiting m streams) = Process.waiting m (streams - 1)
  step Event.ends (Process.stopping streams) = shut_down (streams - 1)
  step event p = p

  unfoldable pub run : List Event → Process → Process
  unfolding step
  run [] p = p
  run (e ∷ es) p = run es (step e p)

  -- main: an exception of std::stoi ends the process too.
  unfoldable pub main : List String → List Event → Process
  unfolding command_line init run
  main args es = elim (command_line args) [
    | Outcome.exits code ↦ Process.ended code
    | Outcome.throws ↦ Process.crashed
    | Outcome.runs o ↦
        let fresh : MavServer = record { rpc_port = o.rpc_port; has_server = false } in
        let (ok, m) = init o.rpc_port fresh in
        if ok then run es (Process.starting m) else Process.ended 1
  ]
