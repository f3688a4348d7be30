-- ===== src/MavClient/Runloop/Interrupts.antt =====
-- Which interrupts end the run loop.
use mavcam.Prelude.{
  ◌≡◌, refl, Bool, true, false, ◌&&◌, Option, none, some, List, [], ◌∷◌, if◌then◌else◌, arith,
}
use mavcam.MavClient.Runloop.{Stage, Event, stop_runloop, start_runloop, run}

-- What start_runloop has answered.
abbrev pub answer_of : Stage → Option Bool
answer_of (Stage.answered b) = some b
answer_of _ = none

abbrev same : Event → Event → Bool
same Event.main_thread Event.main_thread = true
same Event.interrupt Event.interrupt = true
same _ _ = false

-- The wanted events occur in this order, with any others between them.
unfoldable pub in_order : List Event → List Event → Bool
in_order [] es = true
in_order (w ∷ wanted) [] = false
in_order (w ∷ wanted) (e ∷ es) = in_order (if same w e then wanted else w ∷ wanted) es

module _ (connected has_component : Bool) where
  abbrev pub answer : List Event → Stage → Bool → Option Bool
  answer es stage running =
      answer_of (run connected has_component es (record { stage = stage; running = running })).stage

  answered-run :
      (b running : Bool) (es : List Event) → answer es (Stage.answered b) running ≡ some b
  unfolding run start_runloop stop_runloop
  answered-run b running [] = refl
  answered-run b running (Event.main_thread ∷ es) = answered-run b running es
  answered-run b running (Event.interrupt ∷ es) = answered-run b false es

  stopped-run :
      (es : List Event)
      → answer es Stage.looping false
        ≡ (if in_order (Event.main_thread ∷ []) es then some true else none)
  unfolding run start_runloop stop_runloop in_order
  stopped-run [] = refl
  stopped-run (Event.main_thread ∷ es) = answered-run true false es
  stopped-run (Event.interrupt ∷ es) = stopped-run es

  looping-run :
      (es : List Event)
      → answer es Stage.looping true
        ≡ (if in_order (Event.interrupt ∷ Event.main_thread ∷ []) es then some true else none)
  unfolding run start_runloop stop_runloop in_order
  looping-run [] = refl
  looping-run (Event.main_thread ∷ es) = looping-run es
  looping-run (Event.interrupt ∷ es) = stopped-run es

  -- Whatever the schedule of the main thread and the interrupts, start_runloop, if the connection stands
  -- and there is a camera component, has answered true exactly if an interrupt came after the step that
  -- enters the loop and the main thread ran again after it, and has answered nothing otherwise: an
  -- interrupt before the loop is lost. Without a connection or a component it answers false at its first
  -- step.
  pub runloop_ends :
      (running : Bool) (es : List Event)
      → answer es Stage.connecting running ≡ (
          if connected && has_component
          then (if in_order (Event.main_thread ∷ Event.interrupt ∷ Event.main_thread ∷ []) es
              then some true
              else none)
          else (if in_order (Event.main_thread ∷ []) es then some false else none))
  unfolding run start_runloop stop_runloop in_order
  runloop_ends running [] = ground arith
  runloop_ends running (Event.main_thread ∷ es) =
      ground (arith, looping-run es, answered-run false running es)
  runloop_ends running (Event.interrupt ∷ es) = runloop_ends false es
