-- ===== src/Local/Preview/Tests.antt =====
-- A preview at work: a tracker that has found one object, and the first mode of the AI function.
use mavcam.Prelude.{
  ◌≡◌, refl, ℕ, Bool, true, not, ◌&&◌, Option, none, some, [], ◌∷◌, map, at, str_eq, if◌then◌else◌,
}
use mavcam.Prelude.Int.{pos}
use mavcam.Tracking.Frame.{TrackingFrame}
use mavcam.Local.State.{Local}
use mavcam.Local.Settings.Ai.{set_ai_function, tracking_callback}
use mavcam.Local.Tests.{small, ready, small_sets_up}
use mavcam.Local.Settings.Ai.Meanwhile.{Silent, is_silent, SendsOnly, OnlyReports}
use mavcam.Local.Preview.{RgbFrame, box_of, capture_callback}
use mavcam.Local.Device.{Device}
use mavcam.Tracking.Server.{ThreadAct}
use mavcam.Local.Preview.Boxes.{shown, preview_shows_tracked_objects, late_frame_is_shown}

abbrev rendering : Local ℕ ℕ
rendering = record ready { has_render_bridge = true }

abbrev one_object : TrackingFrame
one_object = record {
  stream_id = pos 0;
  frame_id = pos 7;
  object_count = pos 1;
  objects = (record { name = "car"; x = pos 10; y = pos 20; width = pos 30; height = pos 40 }) ∷ [];
}

abbrev picture : RgbFrame
picture = record { vaddr = 4096; width = 1920; height = 1080; stride = 1920; slice = 1080 }

small_is_silent : Silent small
unfolding is_silent
small_is_silent w = refl

preview_shows_tracked_objects_example :
    (ok : Bool) × (s' : Local ℕ ℕ) × (set_ai_function small "1" rendering ≡ some (ok, s'))
    × (shown (capture_callback (some picture) none s').0
        ≡ (if s'.has_render_bridge && (ok && not (str_eq "1" "0")) then some [] else none))
    × (shown (capture_callback (some picture) none (tracking_callback one_object s')).0 ≡ (
        if s'.has_render_bridge && (ok && not (str_eq "1" "0"))
        then some (map box_of one_object.objects)
        else none))
preview_shows_tracked_objects_example =
    preview_shows_tracked_objects small "1" rendering one_object (some picture) none small_sets_up
      small_is_silent refl refl

-- A tracker that sends its object whenever the client waits.
abbrev busy : Device ℕ ℕ
busy = record small {
  host = record small.host { thread_acts = λ w. (ThreadAct.reports one_object ∷ [], w) };
}

abbrev detecting : Local ℕ ℕ
detecting = record rendering {
  tracking_server = record rendering.tracking_server { running = true; joinable = true };
}

abbrev answered : Option (Bool × Local ℕ ℕ) → Local ℕ ℕ
answered none = detecting
answered (some (_, s)) = s

abbrev switched : Local ℕ ℕ
switched = answered (set_ai_function busy "2" detecting)

switches : set_ai_function busy "2" detecting ≡ some (true, switched)
unfolding set_ai_function
switches = refl

busy-SendsOnly : SendsOnly busy one_object
unfolding OnlyReports
busy-SendsOnly w = (refl, tt)

late_frame_is_shown_example : shown (capture_callback (some picture) none switched).0 ≡ (
    if switched.has_render_bridge && not (str_eq (at "CAM_AI_FUNC" switched.settings) "0")
    then some (map box_of one_object.objects)
    else none)
late_frame_is_shown_example =
    late_frame_is_shown busy detecting switched true one_object [] (some picture) none
      busy-SendsOnly refl refl switches
