-- ===== src/MavClient/Runloop.antt =====
-- The life of the MAVLink client: MavClient::init, start_runloop and stop_runloop of
-- src/mav_client/mav_client.cpp, with CreateRpcCameraClient of src/mav_client/camera_client.cpp. An
-- interrupt comes from the signal handler of src/mav_client/mav_client_bin.cpp. The connection, which
-- MAVSDK makes, is two Booleans: whether it stands, and whether there is a camera component.
pub mod Interrupts
use mavcam.Prelude.{
  Bool, true, false, Option, none, some, String, List, [], ◌∷◌, if◌then◌else◌, ◌&&◌,
}
use mavcam.Prelude.Int.{ℤ}
use mavcam.Local.State.{LedMode}
use mavcam.MavClient.Options.{Options}

-- The client that init has chosen.
pub data Chosen (S T : Type 0) : Type 0 where
  local : S → Chosen S T
  remote : T → Chosen S T

-- MavClient, but for `_running`. `leds` are the commands to the LED, newest first.
pub record MavClient (S T : Type 0) : Type 0 where
  pub connection_url : String
  pub rpc_port : ℤ
  pub ftp_root_path : String
  pub work_as_autopilot : Bool
  pub camera_client : Option (Chosen S T)
  pub leds : List LedMode

-- A client whose init fails is deleted.
unfoldable pub create_rpc_client : {T : Type 0} → (ℤ → Bool × T) → ℤ → Option T
create_rpc_client init port = let (ok, t) = init port in if ok then some t else none

module _ {S T : Type 0} (create_local : String → Option (Option S)) (init_rpc : ℤ → Bool × T) where
  abbrev chosen : Options → Option (Option (Chosen S T))
  chosen o =
      if o.use_local
      then elim (create_local o.rtsp_ip) as (λ _. Option (Option (Chosen S T))) [
        | none ↦ none
        | some none ↦ some none
        | some (some s) ↦ some (some (Chosen.local s))
      ]
      else elim (create_rpc_client init_rpc o.rpc_port) as (λ _. Option (Option (Chosen S T))) [
        | none ↦ some none
        | some t ↦ some (some (Chosen.remote t))
      ]

  -- `none` where the local client cannot be deleted.
  unfoldable pub init : Options → List LedMode → Option (Bool × MavClient S T)
  unfolding create_rpc_client
  init o leds = elim (chosen o) [
    | none ↦ none
    | some client ↦ some (
      elim client [ none ↦ false | some _ ↦ true ],
      record {
        connection_url = o.connection_url;
        rpc_port = o.rpc_port;
        ftp_root_path = o.ftp_path;
        work_as_autopilot = o.work_as_autopilot;
        camera_client = client;
        leds = LedMode.normal ∷ leds;
      },
    )
  ]

-- Where start_runloop is: it connects, it sleeps, or it has answered.
pub data Stage : Type 0 where
  connecting looping : Stage
  answered : Bool → Stage

pub record Runloop : Type 0 where
  pub stage : Stage
  pub running : Bool

-- The next step of the main thread, which ends with a sleep of the loop; or an interrupt.
pub data Event : Type 0 where
  main_thread interrupt : Event

unfoldable pub stop_runloop : Runloop → Runloop
stop_runloop r = record r { running = false }

module _ (connected has_component : Bool) where
  abbrev advance : Stage → Runloop → Runloop
  advance Stage.connecting r =
      if connected && has_component
      then record { stage = Stage.looping; running = true }
      else record r { stage = Stage.answered false }
  advance Stage.looping r = if r.running then r else record r { stage = Stage.answered true }
  advance (Stage.answered _) r = r

  unfoldable pub start_runloop : Runloop → Runloop
  start_runloop r = advance r.stage r

  unfoldable pub run : List Event → Runloop → Runloop
  unfolding start_runloop stop_runloop
  run [] r = r
  run (Event.main_thread ∷ es) r = run es (start_runloop r)
  run (Event.interrupt ∷ es) r = run es (stop_runloop r)
