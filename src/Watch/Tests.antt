-- ===== src/Watch/Tests.antt =====
-- The watchdog at work: the process runs, then is gone for two rounds.
use mavcam.Prelude.{◌≡◌, ◌*◌, List, [], ◌∷◌}
use mavcam.Prelude.Int.{ℤ, pos}
use mavcam.Watch.{watch}
use mavcam.Watch.Rounds.{seconds_slept, modes_asked, present, dead_for_absent, watch_accounts}

abbrev rounds : List ℤ
rounds = pos 0 ∷ pos 256 ∷ pos 256 ∷ []

watch_accounts_example :
    (modes_asked (watch rounds) ≡ dead_for_absent rounds)
    × (seconds_slept (watch rounds) ≡ 5 * present rounds)
watch_accounts_example = watch_accounts rounds
