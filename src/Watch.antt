-- ===== src/Watch.antt =====
-- The watchdog of the MAVLink client: src/mav_watch/mav_watch.cc. A round of its loop is what
-- std::system returns for pgrep; the watchdog runs for as many rounds as there are such answers.
mod Rounds
mod Tests
use mavcam.Prelude.{ℕ, ◌≡◌, Bool, true, false, List, [], ◌∷◌, String, if◌then◌else◌}
use mavcam.Prelude.Int.{ℤ, pos, negsuc, eqb}
use mavcam.Prelude.Text.{append_text}
use mavcam.Local.State.{LedMode}

-- What a round does: it asks for an LED mode, or sleeps for some seconds.
pub data Action : Type 0 where
  switch_led_mode : LedMode → Action
  sleep_for : ℕ → Action

abbrev pub check_interval : ℕ
check_interval = 5

-- The command that asks for a process by its name.
abbrev pub pgrep : String → String
pgrep process_name = append_text "pgrep -x " (append_text process_name " > /dev/null 2>&1")

-- isProcessRunning: -1 is a command that could not be run.
unfoldable pub is_process_running : ℤ → Bool
is_process_running ret = if eqb ret (negsuc 0) then false else eqb ret (pos 0)

-- The `continue` leaves out the sleep.
unfoldable pub watch : List ℤ → List Action
unfolding is_process_running
watch [] = []
watch (ret ∷ rets) =
    (if is_process_running ret
      then Action.sleep_for check_interval
      else Action.switch_led_mode LedMode.dead)
    ∷ watch rets
