-- ===== src/Local/Preview.antt =====
-- The preview: CameraLocalClient::capture_callback of src/mav_client/camera_local_client.cpp, which draws a
-- frame of each camera and the boxes of the tracker. The calls of the render bridge are a list, in order.
mod Boxes
mod Tests
use mavcam.Prelude.{
  ℕ, Bool, true, false, not, ◌&&◌, Option, none, some, String, List, [], ◌∷◌, ◌++◌, map, at, str_eq,
  if◌then◌else◌,
}
use mavcam.Prelude.Int.{ℤ, pos, eqb}
use mavcam.Tracking.Frame.{TrackingObject, TrackingFrame, empty_frame}
use mavcam.Local.State.{Local, RenderMode, touch}

-- mav_camera::MAVFrame and ir_camera::IRFrame, the fields that are drawn.
pub record RgbFrame : Type 0 where
  pub vaddr : ℕ
  pub width : ℕ
  pub height : ℕ
  pub stride : ℕ
  pub slice : ℕ

pub record IrFrame : Type 0 where
  pub vaddr : ℕ
  pub width : ℕ
  pub height : ℕ

pub record BoundingBox : Type 0 where
  pub x : ℤ
  pub y : ℤ
  pub width : ℤ
  pub height : ℤ
  pub label : String

-- The calls draw_rgb_frame_in_X and draw_ir_frame_in_X, and draw_bounding_boxes.
pub data Drawing : Type 0 where
  rgb_full_screen rgb_left rgb_pip : RgbFrame → Drawing
  rgb_superimpose rgb_mix : RgbFrame → RenderMode → Drawing
  ir_full_screen ir_right ir_pip ir_superimpose ir_mix : IrFrame → Drawing
  bounding_boxes : List BoundingBox → Drawing

abbrev pub box_of : TrackingObject → BoundingBox
box_of object = record {
  x = object.x;
  y = object.y;
  width = object.width;
  height = object.height;
  label = object.name;
}

-- `if (frame != NULL)`
abbrev pub drawn {ℓ} : {A : Type ℓ} → (A → Drawing) → Option A → List Drawing
drawn draw none = []
drawn draw (some frame) = draw frame ∷ []

-- What the preview type asks for; a type that is none of PreivewStreamType draws nothing.
unfoldable pub draw_frames : ℤ → RenderMode → Option RgbFrame → Option IrFrame → List Drawing
draw_frames preview mode rgb ir =
    if eqb preview (pos 0)
    then drawn Drawing.rgb_full_screen rgb
    else if eqb preview (pos 1)
    then drawn Drawing.ir_full_screen ir
    else if eqb preview (pos 2)
    then drawn Drawing.rgb_left rgb ++ drawn Drawing.ir_right ir
    else if eqb preview (pos 3)
    then drawn Drawing.rgb_pip rgb ++ drawn Drawing.ir_pip ir
    else if eqb preview (pos 4)
    then drawn (λ frame. Drawing.rgb_superimpose frame mode) rgb ++ drawn Drawing.ir_superimpose ir
    else if eqb preview (pos 5)
    then drawn (λ frame. Drawing.rgb_mix frame mode) rgb ++ drawn Drawing.ir_mix ir
    else []

module _ {W F : Type 0} where
  unfoldable pub tracked_boxes : Local W F → List BoundingBox
  tracked_boxes s = if s.has_tracking_frame then map box_of s.tracking_frame.objects else []

  unfoldable pub capture_callback :
      Option RgbFrame → Option IrFrame → Local W F → List Drawing × Local W F
  unfolding draw_frames tracked_boxes
  capture_callback rgb ir s =
      let frames = draw_frames s.preview_type s.render_mode rgb ir in
      let asked = record s { settings = touch "CAM_AI_FUNC" s.settings } in
      if not s.has_render_bridge
      then ([], s)
      else if str_eq (at "CAM_AI_FUNC" s.settings) "0"
      then (frames, asked)
      else (frames ++ Drawing.bounding_boxes (tracked_boxes asked) ∷ [], asked)
