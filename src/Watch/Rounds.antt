-- ===== src/Watch/Rounds.antt =====
-- What the rounds of the watchdog come to.
use mavcam.Prelude.{◌≡◌, refl, ℕ, suc, ◌+◌, ◌*◌, List, [], ◌∷◌, if◌then◌else◌, arith}
use mavcam.Prelude.Int.{ℤ, pos, eqb}
use mavcam.Local.State.{LedMode}
use mavcam.Watch.{Action, is_process_running, watch}

unfoldable pub seconds_slept : List Action → ℕ
seconds_slept [] = 0
seconds_slept (Action.sleep_for n ∷ rest) = n + seconds_slept rest
seconds_slept (Action.switch_led_mode mode ∷ rest) = seconds_slept rest

unfoldable pub modes_asked : List Action → List LedMode
modes_asked [] = []
modes_asked (Action.sleep_for n ∷ rest) = modes_asked rest
modes_asked (Action.switch_led_mode mode ∷ rest) = mode ∷ modes_asked rest

-- The rounds in which pgrep answers 0, and those in which it does not.
unfoldable pub present : List ℤ → ℕ
present [] = 0
present (ret ∷ rets) = if eqb ret (pos 0) then suc (present rets) else present rets

unfoldable pub dead_for_absent : List ℤ → List LedMode
dead_for_absent [] = []
dead_for_absent (ret ∷ rets) =
    let rest = dead_for_absent rets in if eqb ret (pos 0) then rest else LedMode.dead ∷ rest

-- Over any rounds, the watchdog asks once for the mode `dead` in each round in which the process is not
-- found, and for no other mode; and it sleeps five seconds in each of the others, and at no other time.
-- So while the process is gone it does not sleep at all between one command and the next.
pub watch_accounts :
    (rets : List ℤ)
    → (modes_asked (watch rets) ≡ dead_for_absent rets)
      × (seconds_slept (watch rets) ≡ 5 * present rets)
unfolding watch is_process_running seconds_slept modes_asked present dead_for_absent
watch_accounts [] = (refl, refl)
watch_accounts (ret ∷ rets) =
    let (modes, slept) = watch_accounts rets in (ground arith, ground arith)
