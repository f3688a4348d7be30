-- ===== src/Local/Startup/Shutdown.antt =====
-- The end of a local client: CameraLocalClient::deinit, the free_ functions and the destructor of
-- src/mav_client/camera_local_client.cpp, and CreateLocalCameraClient of
-- src/mav_client/camera_client.cpp. `none` is a call into a library that has been closed, or
-- std::terminate.
use mavcam.Prelude.{Bool, true, false, Option, none, some, if◌then◌else◌}
use mavcam.Tracking.Server.{destroy}
use mavcam.Local.Device.{Device}
use mavcam.Local.State.{Local}
use mavcam.Local.Settings.Ai.{set_ai_function}
use mavcam.Local.Startup.{Startup}
use mavcam.Local.Startup.Init.{init}

module _ {W F : Type 0} (d : Device W F) (u : Startup W F) where
  unfoldable pub free_ir_camera : Local W F → Option (Local W F)
  free_ir_camera s =
      let unloaded = record s { handles = record s.handles { ir = false } } in
      let freed = record unloaded { has_ir_camera = false; world = u.ir_close s.world } in
      if s.has_ir_camera then (if s.handles.ir then some freed else none) else some unloaded

  unfoldable pub free_render_bridge : Local W F → Option (Local W F)
  free_render_bridge s =
      let unloaded = record s { handles = record s.handles { render = false } } in
      let freed = record unloaded { has_render_bridge = false; world = u.render_close s.world } in
      if s.has_render_bridge then (if s.handles.render then some freed else none) else some unloaded

  unfoldable pub free_storage_manager : Local W F → Option (Local W F)
  free_storage_manager s =
      let unloaded = record s { handles = record s.handles { storage = false } } in
      let freed = record unloaded {
        has_storage_manager = false;
        world = u.storage_close s.world;
      } in
      if s.has_storage_manager
      then (if s.handles.storage then some freed else none)
      else some unloaded

  -- `f(); g();`
  abbrev pub then_do : Option (Local W F) → (Local W F → Option (Local W F)) → Option (Local W F)
  then_do none next = none
  then_do (some s) next = next s

  -- The camera of the RGB sensor is not freed here.
  unfoldable pub deinit : Local W F → Option (Local W F)
  unfolding set_ai_function free_ir_camera free_render_bridge free_storage_manager
  deinit s = elim (set_ai_function d "0" s) [
    | none ↦ none
    | some (_, off) ↦
        then_do (free_ir_camera off) λ t. then_do (free_render_bridge t) free_storage_manager
  ]

  -- The destructor: deinit, then the members, of which the tracking server may terminate.
  unfoldable pub delete_client : Local W F → Option (Local W F)
  unfolding deinit destroy
  delete_client s =
      then_do (deinit s) λ t. elim (destroy t.tracking_server) [ none ↦ none | some _ ↦ some t ]

  -- CreateLocalCameraClient: false where it answers a null pointer.
  unfoldable pub create_local_client : Local W F → Option (Bool × Local W F)
  unfolding init delete_client
  create_local_client s = elim (init d u s) [
    | none ↦ none
    | some (true, s') ↦ some (true, s')
    | some (false, s') ↦ elim (delete_client s') [ none ↦ none | some t ↦ some (false, t) ]
  ]
