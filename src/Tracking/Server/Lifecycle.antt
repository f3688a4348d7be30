-- ===== src/Tracking/Server/Lifecycle.antt =====
-- Starting and stopping the tracking server, and its thread.
use mavcam.Prelude.{
  ℕ, ◌≡◌, ◌⊎◌, inl, inr, Bool, true, ◌||◌, none, some, String, arith, Option-cases,
}
use mavcam.Prelude.Int.{ℤ, is_pos}
use mavcam.Tracking.Server.{TrackingServer, start, stop, listened, destroy}

-- What the owner of the server and the server's thread do to its life.
pub data LifeStep : TrackingServer → TrackingServer → Type 0 where
  starts :
      (address : String) (port : ℤ) {t u : TrackingServer} (ok : Bool)
      → start address port t ≡ some (ok, u)
      → LifeStep t u
  stops : (t : TrackingServer) → LifeStep t (stop t)
  listens : (fd : ℕ) (t : TrackingServer) → t.running ≡ true → LifeStep t (listened (some fd) t)

pub data Life (t : TrackingServer) : TrackingServer → Type 0 where
  born : Life t t
  next : {u v : TrackingServer} → Life t u → LifeStep u v → Life t v

-- The thread is there exactly while the server runs, and a stopped server listens nowhere.
pub record IsSound (t : TrackingServer) : Type 0 where
  pub threaded : t.joinable ≡ t.running
  pub silent : (t.running ≡ true) ⊎ (t.server_fd ≡ none)

start-IsSound :
    (address : String) (port : ℤ) (t u : TrackingServer) (ok : Bool)
    → start address port t ≡ some (ok, u)
    → IsSound t
    → IsSound u
unfolding start
start-IsSound address port t u ok h s = ground arith

stop-IsSound : (t : TrackingServer) → IsSound t → IsSound (stop t)
unfolding stop
stop-IsSound t s = ground arith

listened-IsSound :
    (fd : ℕ) (t : TrackingServer) → t.running ≡ true → IsSound t → IsSound (listened (some fd) t)
unfolding listened
listened-IsSound fd t r s = ground arith

pub Life-IsSound : {t u : TrackingServer} → Life t u → IsSound t → IsSound u
Life-IsSound born s = s
Life-IsSound (next l (starts address port {t} {u} ok h)) s =
    start-IsSound address port t u ok h (Life-IsSound l s)
Life-IsSound (next l (stops t)) s = stop-IsSound t (Life-IsSound l s)
Life-IsSound (next l (listens fd t r)) s = listened-IsSound fd t r (Life-IsSound l s)

start_of_IsSound :
    (address : String) (port : ℤ) (t : TrackingServer)
    → IsSound t
    → (ok : Bool) × (u : TrackingServer) × (start address port t ≡ some (ok, u))
      × (ok ≡ (t.running || is_pos port))
      × (u.running ≡ ok)
unfolding start
start_of_IsSound address port t s = elim (Option-cases (start address port t)) [
  | inl e ↦ absurd (ground arith)
  | inr ((ok, u), e) ↦ (ok, u, e, ground arith, ground arith)
]

destroy_of_IsSound : (t : TrackingServer) → IsSound t → destroy t ≡ some tt
unfolding destroy
destroy_of_IsSound t s = ground arith

-- However a sound server was started, stopped and set listening, as long as its socket could always
-- be set up: starting it again never terminates the process, answers yes exactly if it runs already or
-- the port is positive, and leaves it running exactly then; nor does destroying it terminate the
-- process.
pub start_never_terminates :
    {t u : TrackingServer} (address : String) (port : ℤ)
    → IsSound t
    → Life t u
    → ((ok : Bool) × (v : TrackingServer) × (start address port u ≡ some (ok, v))
        × (ok ≡ (u.running || is_pos port))
        × (v.running ≡ ok))
      × (destroy u ≡ some tt)
start_never_terminates {u} address port s l =
    (start_of_IsSound address port u (Life-IsSound l s), destroy_of_IsSound u (Life-IsSound l s))

-- Once the socket of a running server with its thread cannot be set up, the thread is never joined:
-- stopping the server does nothing, and starting it on a positive port and destroying it both
-- terminate the process.
pub listen_failure_terminates :
    (address : String) (port : ℤ) (t : TrackingServer)
    → t.joinable ≡ true
    → is_pos port ≡ true
    → let u = listened none t in (stop u ≡ u) × (start address port u ≡ none) × (destroy u ≡ none)
unfolding start stop destroy listened
listen_failure_terminates address port t j p = ground arith
