-- ===== src/Server/Interrupts.antt =====
-- How the server's process ends.
use mathlib.Core.List.{append-nil}
use mavcam.Prelude.{
  ◌≡◌, ◌∙◌, refl, sym, ap, ℕ, ◌+◌, ◌-◌, Bool, true, false, String, List, [], ◌∷◌, ◌++◌, leb,
  if◌then◌else◌, arith,
}
use mavcam.Prelude.Int.{ℤ}
use mavcam.Server.{
  MavServer, Process, Event, server_address, start_runloop, shut_down, signal_handler, step, run,
}

unfoldable pub interrupted : List Event → Bool
interrupted [] = false
interrupted (Event.interrupt ∷ es) = true
interrupted (_ ∷ es) = interrupted es

-- The subscriptions that are open after some events, and those that end in them.
unfoldable pub open_after : List Event → ℕ → ℕ
open_after [] n = n
open_after (Event.opens ∷ es) n = open_after es (n + 1)
open_after (Event.ends ∷ es) n = open_after es (n - 1)
open_after (_ ∷ es) n = open_after es n

unfoldable pub ended_in : List Event → ℕ
ended_in [] = 0
ended_in (Event.ends ∷ es) = ended_in es + 1
ended_in (_ ∷ es) = ended_in es

module _ (built : String → Bool) (signum : ℕ) where
  ended-run :
      (code : ℕ) (es : List Event) → run built signum es (Process.ended code) ≡ Process.ended code
  unfolding run step
  ended-run code [] = refl
  ended-run code (Event.main_thread ∷ es) = ended-run code es
  ended-run code (Event.interrupt ∷ es) = ended-run code es
  ended-run code (Event.opens ∷ es) = ended-run code es
  ended-run code (Event.ends ∷ es) = ended-run code es

  crashed-run : (es : List Event) → run built signum es Process.crashed ≡ Process.crashed
  unfolding run step
  crashed-run [] = refl
  crashed-run (Event.main_thread ∷ es) = crashed-run es
  crashed-run (Event.interrupt ∷ es) = crashed-run es
  crashed-run (Event.opens ∷ es) = crashed-run es
  crashed-run (Event.ends ∷ es) = crashed-run es

  -- Where the signal handler is, once the server was told to shut down with some subscriptions open.
  abbrev pub after_shut_down : ℕ → List Event → Process
  after_shut_down streams es =
      if leb streams (ended_in es)
      then Process.ended signum
      else Process.stopping (streams - ended_in es)

  shut_down-run :
      (es : List Event) (streams : ℕ)
      → run built signum es (shut_down built signum streams) ≡ after_shut_down streams es
  unfolding run step shut_down ended_in
  shut_down-run [] streams = ground arith
  shut_down-run (Event.main_thread ∷ es) streams =
      let rest = shut_down-run es streams in let ended = ended-run signum es in ground arith
  shut_down-run (Event.interrupt ∷ es) streams =
      let rest = shut_down-run es streams in let ended = ended-run signum es in ground arith
  shut_down-run (Event.opens ∷ es) streams =
      let rest = shut_down-run es streams in let ended = ended-run signum es in ground arith
  shut_down-run (Event.ends ∷ es) streams =
      let rest = shut_down-run es (streams - 1) in let ended = ended-run signum es in ground arith

  waiting-run :
      (es later : List Event) (m : MavServer) (streams : ℕ)
      → interrupted es ≡ false
      → run built signum (es ++ later) (Process.waiting m streams)
        ≡ run built signum later (Process.waiting m (open_after es streams))
  unfolding run step interrupted open_after
  waiting-run [] later m streams h = refl
  waiting-run (Event.main_thread ∷ es) later m streams h = waiting-run es later m streams h
  waiting-run (Event.interrupt ∷ es) later m streams h = absurd (ground arith)
  waiting-run (Event.opens ∷ es) later m streams h = waiting-run es later m (streams + 1) h
  waiting-run (Event.ends ∷ es) later m streams h = waiting-run es later m (streams - 1) h

  -- The server is started, and then the events come.
  abbrev pub started : List Event → MavServer → Process
  started es m = run built signum (Event.main_thread ∷ es) (Process.starting m)

  -- Once the signal handler is installed, an interrupt before the server is started crashes the process.
  -- If the server cannot be built, the process ends with 0, as if it had served. If it is built, the
  -- process waits as long as no interrupt comes. After the first interrupt it ends with the signal's
  -- number only when as many subscriptions have ended as were then open; until then the signal handler
  -- waits, whatever other interrupts come.
  pub server_ends :
      (port : ℤ) (es later : List Event)
      → interrupted es ≡ false
      → let m : MavServer = record { rpc_port = port; has_server = false } in
        let serving = Process.waiting (record m { has_server = true }) (open_after es 0) in
        (run built signum (Event.interrupt ∷ es) (Process.starting m) ≡ Process.crashed)
        × (started es m ≡ (if built (server_address m) then serving else Process.ended 0))
        × (started (es ++ Event.interrupt ∷ later) m ≡ (
            if built (server_address m)
            then after_shut_down (open_after es 0) later
            else Process.ended 0))
  unfolding run step start_runloop signal_handler
  server_ends port es later quiet =
      let m : MavServer = record { rpc_port = port; has_server = false } in
      let up : MavServer = record m { has_server = true } in
      let waits =
        ap (λ l. run built signum l (Process.waiting up 0)) (sym (append-nil es))
        ∙ waiting-run es [] up 0 quiet in
      let stops = waiting-run es (Event.interrupt ∷ later) up 0 quiet in
      let shuts = shut_down-run later (open_after es 0) in
      let unbuilt = ended-run 0 es in
      let unbuilt' = ended-run 0 (es ++ Event.interrupt ∷ later) in
      (crashed-run es, ground arith, ground arith)
