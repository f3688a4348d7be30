-- ===== src/Local/Settings/Defaults.antt =====
-- What reset_settings of src/mav_client/camera_local_client.cpp leaves behind.
use mavcam.Prelude.{
  Bool, true, false, not, ◌&&◌, Option, none, some, String, List, [], ◌∷◌, ◌++◌, Dict, insert,
  contains,
}
use mavcam.Prelude.Int.{pos}
use mavcam.Local.Device.{Device}
use mavcam.Local.State.{Local}
use mavcam.Local.Settings.Render.{init_render_mode}
use mavcam.Local.Settings.Ai.{clear_tracking_frame, ai_off}
use mavcam.Local.Settings.Reset.{stored_defaults, put, assign_defaults, reset_settings}

-- Every setting that a reset gives a value, with the value.
abbrev pub defaults : Dict
defaults =
    (("CAM_MODE", "0") ∷ stored_defaults) ++ (("CAM_AE_LOCK", "0") ∷ ("CAM_AI_FUNC", "0") ∷ [])

insert_all : List (String × String) → Dict → Dict
insert_all [] m = m
insert_all ((k, v) ∷ rest) m = insert_all rest (insert k v m)

all_different : Dict → Bool
all_different [] = true
all_different ((k, v) ∷ rest) = not (contains k rest) && all_different rest

-- The value of a key in one map, or else in another.
abbrev pub or_else : Option String → Option String → Option String
or_else none o = o
or_else (some v) o = some v

module _ {W F : Type 0} (d : Device W F) where
  -- The state after a reset that the camera carried out.
  after_reset : Local W F → Local W F
  after_reset s =
      let started = put d "CAM_MODE" "0" (record s { is_reseting = true }) in
      let camera = record started { world = (d.rgb.reset_settings started.world).1 } in
      record (init_render_mode (ai_off d (clear_tracking_frame d (assign_defaults d camera)))) {
        preview_type = pos 0;
        is_reseting = false;
      }
