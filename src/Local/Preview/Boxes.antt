-- ===== src/Local/Preview/Boxes.antt =====
-- The boxes that the preview shows: capture_callback together with set_ai_function and tracking_callback.
use mavcam.Prelude.{
  ◌≡◌, ◌∙◌, refl, ap, ap₂, Bool, true, false, not, ◌&&◌, ◌||◌, Option, none, some, String, List, [],
  ◌∷◌, ◌++◌, map, at, str_eq, if_rule, if◌then◌else◌, arith,
}
use mavcam.Prelude.Int.{ℤ, pos, eqb}
use mavcam.Tracking.Frame.{TrackingFrame}
use mavcam.Local.Device.{Device}
use mavcam.Local.State.{Local, RenderMode}
use mavcam.Local.Settings.Ai.{set_ai_function, tracking_callback}
use mavcam.Tracking.Server.{ThreadAct}
use mavcam.Local.Settings.Ai.Meanwhile.{SetsUp, Silent, SendsOnly}
use mavcam.Local.Settings.Ai.Frames.{set_ai_function-silent, late_frame_stays}
use mavcam.Local.Settings.Functions.{ai_function_result}
use mavcam.Local.Preview.{
  RgbFrame, IrFrame, BoundingBox, Drawing, box_of, draw_frames, tracked_boxes, capture_callback,
}

-- The boxes among the drawings, where there are any.
unfoldable pub shown : List Drawing → Option (List BoundingBox)
shown [] = none
shown (Drawing.bounding_boxes boxes ∷ rest) = some boxes
shown (_ ∷ rest) = shown rest

-- Drawings without boxes: boxes that follow are the ones shown.
record HasNoBoxes (ds : List Drawing) : Type 0 where
  alone : shown ds ≡ none
  followed :
      (boxes : List BoundingBox) → shown (ds ++ Drawing.bounding_boxes boxes ∷ []) ≡ some boxes

-- One case for each preview type, and one for no type at all.
by_preview :
    (preview : ℤ) {d0 d1 d2 d3 d4 d5 other : List Drawing}
    → HasNoBoxes d0
    → HasNoBoxes d1
    → HasNoBoxes d2
    → HasNoBoxes d3
    → HasNoBoxes d4
    → HasNoBoxes d5
    → HasNoBoxes other
    → HasNoBoxes (
        if eqb preview (pos 0)
        then d0
        else if eqb preview (pos 1)
        then d1
        else if eqb preview (pos 2)
        then d2
        else if eqb preview (pos 3)
        then d3
        else if eqb preview (pos 4)
        then d4
        else if eqb preview (pos 5)
        then d5
        else other)
by_preview preview h0 h1 h2 h3 h4 h5 h = if_rule HasNoBoxes (eqb preview (pos 0)) h0 (
    if_rule HasNoBoxes (eqb preview (pos 1)) h1 (
      if_rule HasNoBoxes (eqb preview (pos 2)) h2 (
        if_rule HasNoBoxes (eqb preview (pos 3)) h3 (
          if_rule HasNoBoxes (eqb preview (pos 4)) h4
            (if_rule HasNoBoxes (eqb preview (pos 5)) h5 h)))))

draw_frames-HasNoBoxes :
    (preview : ℤ) (mode : RenderMode) (rgb : Option RgbFrame) (ir : Option IrFrame)
    → HasNoBoxes (draw_frames preview mode rgb ir)
unfolding draw_frames shown
draw_frames-HasNoBoxes preview mode none none =
    by_preview preview record { alone = refl; followed = λ b. refl }
      record { alone = refl; followed = λ b. refl } record { alone = refl; followed = λ b. refl }
      record { alone = refl; followed = λ b. refl } record { alone = refl; followed = λ b. refl }
      record { alone = refl; followed = λ b. refl } record { alone = refl; followed = λ b. refl }
draw_frames-HasNoBoxes preview mode none (some ir) =
    by_preview preview record { alone = refl; followed = λ b. refl }
      record { alone = refl; followed = λ b. refl } record { alone = refl; followed = λ b. refl }
      record { alone = refl; followed = λ b. refl } record { alone = refl; followed = λ b. refl }
      record { alone = refl; followed = λ b. refl } record { alone = refl; followed = λ b. refl }
draw_frames-HasNoBoxes preview mode (some rgb) none =
    by_preview preview record { alone = refl; followed = λ b. refl }
      record { alone = refl; followed = λ b. refl } record { alone = refl; followed = λ b. refl }
      record { alone = refl; followed = λ b. refl } record { alone = refl; followed = λ b. refl }
      record { alone = refl; followed = λ b. refl } record { alone = refl; followed = λ b. refl }
draw_frames-HasNoBoxes preview mode (some rgb) (some ir) =
    by_preview preview record { alone = refl; followed = λ b. refl }
      record { alone = refl; followed = λ b. refl } record { alone = refl; followed = λ b. refl }
      record { alone = refl; followed = λ b. refl } record { alone = refl; followed = λ b. refl }
      record { alone = refl; followed = λ b. refl } record { alone = refl; followed = λ b. refl }

on_after :
    (ok : Bool) (mode value : String)
    → value ≡ (if ok then mode else "0")
    → not (str_eq value "0") ≡ (ok && not (str_eq mode "0"))
on_after true mode value e = ap (λ v. not (str_eq v "0")) e
on_after false mode value e = ap (λ v. not (str_eq v "0")) e

module _ {W F : Type 0} where
  shown-capture_callback :
      (rgb : Option RgbFrame) (ir : Option IrFrame) (s : Local W F)
      → shown (capture_callback rgb ir s).0 ≡ (
          if s.has_render_bridge && not (str_eq (at "CAM_AI_FUNC" s.settings) "0")
          then some (tracked_boxes s)
          else none)
  unfolding capture_callback tracked_boxes shown
  shown-capture_callback rgb ir s =
      let quiet = draw_frames-HasNoBoxes s.preview_type s.render_mode rgb ir in
      let last = quiet.followed (tracked_boxes s) in ground (arith, quiet.alone, last)

  -- Under the conditions of ai_function_result (a mode that exists, a thread of the tracking server that is
  -- to be joined only while it runs, and a socket that can be set up) and where no frame comes while
  -- set_ai_function waits, it returns, and a preview with a render bridge shows boxes exactly if a mode
  -- other than off was entered: none until the tracker reports, and then one box for each object of the
  -- frame that it reported, in its order. Without a render bridge it shows none.
  pub preview_shows_tracked_objects :
      (d : Device W F) (mode : String) (s : Local W F) (frame : TrackingFrame)
      (rgb : Option RgbFrame) (ir : Option IrFrame)
      → SetsUp d
      → Silent d
      → (str_eq mode "0" || str_eq mode "1" || str_eq mode "2") ≡ true
      → s.tracking_server.joinable ≡ s.tracking_server.running
      → (ok : Bool) × (s' : Local W F) × (set_ai_function d mode s ≡ some (ok, s'))
        × (shown (capture_callback rgb ir s').0
            ≡ (if s'.has_render_bridge && (ok && not (str_eq mode "0")) then some [] else none))
        × (shown (capture_callback rgb ir (tracking_callback frame s')).0 ≡ (
            if s'.has_render_bridge && (ok && not (str_eq mode "0"))
            then some (map box_of frame.objects)
            else none))
  unfolding tracked_boxes tracking_callback
  preview_shows_tracked_objects d mode s frame rgb ir up quiet known j =
      let ((ok, s'), e, ends) = ai_function_result d up mode s known j in
      let (setting, running, joinable) = ends in
      let cleared = set_ai_function-silent d mode s s' ok quiet known e in
      let on = on_after ok mode (at "CAM_AI_FUNC" s'.settings) setting in
      let none_yet : tracked_boxes s' ≡ [] =
        ap (λ t. if t then map box_of s'.tracking_frame.objects else []) cleared in
      (
        ok,
        s',
        e,
        shown-capture_callback rgb ir s'
            ∙ ap (λ on. if s'.has_render_bridge && on then some (tracked_boxes s') else none) on
            ∙ ap
                (λ boxes.
                  if s'.has_render_bridge && (ok && not (str_eq mode "0"))
                  then some boxes
                  else none)
                none_yet,
        shown-capture_callback rgb ir (tracking_callback frame s')
            ∙ ap
                (λ on. if s'.has_render_bridge && on then some (map box_of frame.objects) else none)
                on,
      )

  -- Switching the AI function to tracking can show a box of the old function: if the running server gets
  -- a frame while the detection service is told to stop, no other frame comes while set_ai_function
  -- waits, and it answers, then a preview with a render bridge and an AI function shows the
  -- boxes of that frame, although no frame has come after the answer.
  pub late_frame_is_shown :
      (d : Device W F) (s t : Local W F) (ok : Bool) (frame : TrackingFrame) (rest : List ThreadAct)
      (rgb : Option RgbFrame) (ir : Option IrFrame)
      → SendsOnly d frame
      → s.tracking_server.running ≡ true
      → let (_, w) = d.host.system "systemctl stop object_detection.service" s.world in
        (d.host.thread_acts w).0 ≡ ThreadAct.reports frame ∷ rest
        → set_ai_function d "2" s ≡ some (ok, t)
        → shown (capture_callback rgb ir t).0 ≡ (
            if t.has_render_bridge && not (str_eq (at "CAM_AI_FUNC" t.settings) "0")
            then some (map box_of frame.objects)
            else none)
  unfolding tracked_boxes
  late_frame_is_shown d s t ok frame rest rgb ir only runs comes h =
      let kept = late_frame_stays d frame rest s t ok only runs comes h in
      shown-capture_callback rgb ir t
      ∙ ap₂
          (λ has (f : TrackingFrame).
            if t.has_render_bridge && not (str_eq (at "CAM_AI_FUNC" t.settings) "0")
            then some (if has then map box_of f.objects else [])
            else none)
          kept.there kept.same
