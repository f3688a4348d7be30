-- ===== src/Service/Tests.antt =====
-- A subscription at work, on a plugin that calls back at once.
use mavcam.Prelude.{◌≡◌, refl, ℕ, ◌+◌, false, Option, some, [], ◌∷◌}
use mavcam.Service.Streams.{Service, Stream, subscribe, stop, subscription_ends}

abbrev running : Service ℕ
running = record {
  plugin = 7;
  stopped = false;
  stream_stop_promises = 0 ∷ 1 ∷ [];
  next_promise = 2;
}

abbrev at_once : ℕ → Option ℕ × ℕ
at_once n = (some n, n + 1)

abbrev write : ℕ → ℕ
write n = n + 100

subscription_ends_example :
    let (stream, v') = subscribe at_once write running in
    (stream ≡ Stream.sent 107) × ((stop v').0 ≡ 0 ∷ 1 ∷ []) × (v'.plugin ≡ 8)
subscription_ends_example = subscription_ends at_once write running refl
