-- ===== src/Local/Startup/Lifecycle.antt =====
-- A local client from its start to its end: what init loads, what the destructor gives back, and what
-- happens to a client whose start fails half-way.
use mavcam.Prelude.{
  ◌≡◌, refl, inl, inr, ◌⊎◌, Bool, true, false, Option, none, some, Option-cases, arith,
}
use mavcam.Tracking.Server.{stop, destroy}
use mavcam.Local.Device.{Device}
use mavcam.Local.State.{Local, call, set_entry}
use mavcam.Local.Settings.Render.{init_render_mode}
use mavcam.Local.Settings.Handlers.{set_video_format}
use mavcam.Local.Settings.Ai.{set_ai_function}
use mavcam.Local.Settings.Ai.Meanwhile.{ai_off-TurnedOff, ai_off-idle}
use mavcam.Local.Startup.{Startup, Load}
use mavcam.Local.Startup.Camera.{choose_options, init_mav_camera}
use mavcam.Local.Startup.Init.{
  camera_settings, ir_settings, init_settings, init_ir_camera, init_render_bridge,
  init_storage_manager, init, and_then,
}
use mavcam.Local.Startup.Pointers.{
  pointers, camera_settings-pointers, ir_settings-pointers, choose_options-pointers,
}
use mavcam.Local.Startup.Shutdown.{
  free_ir_camera, free_render_bridge, free_storage_manager, deinit, delete_client,
  create_local_client,
}

module _ {W F : Type 0} where
  -- A client that has just been constructed: no library is loaded and no server is up.
  pub record IsFresh (s : Local W F) : Type 0 where
    pub no_camera : s.has_mav_camera ≡ false
    pub no_ir : s.has_ir_camera ≡ false
    pub no_render : s.has_render_bridge ≡ false
    pub no_storage : s.has_storage_manager ≡ false
    pub ir_unloaded : s.handles.ir ≡ false
    pub idle : s.tracking_server.running ≡ false
    pub joined : s.tracking_server.joinable ≡ false

  -- Every instance stands in a library that is loaded.
  pub record IsUp (s : Local W F) : Type 0 where
    pub camera : s.has_mav_camera ≡ true
    pub camera_loaded : s.handles.camera ≡ true
    pub render : s.has_render_bridge ≡ true
    pub render_loaded : s.handles.render ≡ true
    pub storage : s.has_storage_manager ≡ true
    pub storage_loaded : s.handles.storage ≡ true
    pub ir_loaded : s.handles.ir ≡ s.has_ir_camera
    pub idle : s.tracking_server.running ≡ false
    pub joined : s.tracking_server.joinable ≡ false

  -- After the destructor: what was loaded is given back, but for the camera of the RGB sensor.
  pub record IsDown (s : Local W F) : Type 0 where
    pub no_ir : s.has_ir_camera ≡ false
    pub no_render : s.has_render_bridge ≡ false
    pub no_storage : s.has_storage_manager ≡ false
    pub ir_unloaded : s.handles.ir ≡ false
    pub render_unloaded : s.handles.render ≡ false
    pub storage_unloaded : s.handles.storage ≡ false
    pub idle : s.tracking_server.running ≡ false
    pub camera_left : s.has_mav_camera ≡ true
    pub camera_loaded : s.handles.camera ≡ true

  and_then-true :
      (o : Option (Bool × Local W F)) (next : Local W F → Option (Bool × Local W F)) (t : Local W F)
      → and_then o next ≡ some (true, t)
      → (s : Local W F) × (o ≡ some (true, s)) × (next s ≡ some (true, t))
  and_then-true none next t h = absurd (ground arith)
  and_then-true (some (false, s)) next t h = absurd (ground arith)
  and_then-true (some (true, s)) next t h = (s, refl, h)

module _ {W F : Type 0} (d : Device W F) (u : Startup W F) where
  init_ir_camera-IsUp :
      (s : Local W F) → IsUp s → s.has_ir_camera ≡ false → IsUp (init_ir_camera d u s).1
  unfolding init_ir_camera set_video_format
  init_ir_camera-IsUp s up no_ir = ground arith

  init_settings-IsUp :
      (s t : Local W F) → IsUp s → s.has_ir_camera ≡ false → init_settings d u s ≡ some t → IsUp t
  unfolding init_settings init_render_mode
  init_settings-IsUp s t up no_ir h = elim (Option-cases (camera_settings d u s)) [
    | inl e ↦ absurd (ground arith)
    | inr (s', e) ↦
        let kept = camera_settings-pointers d u s s' up.idle e in
        let locked = set_entry "CAM_AE_LOCK" "0" (init_render_mode s') in
        let up' : IsUp locked = ground arith in
        let with_ir = init_ir_camera-IsUp locked up' (ground arith) in
        let last : ir_settings d u (init_ir_camera d u locked).1 ≡ some t = ground arith in
        let same = ir_settings-pointers d u (init_ir_camera d u locked).1 t with_ir.idle last in
        ground arith
  ]

  init_mav_camera-true :
      (s t : Local W F)
      → s.has_mav_camera ≡ false
      → init_mav_camera d u s ≡ some (true, t)
      → pointers t
        ≡ pointers
            (record s { has_mav_camera = true; handles = record s.handles { camera = true } })
  unfolding init_mav_camera
  init_mav_camera-true s t none_yet h =
      let created = record s {
        has_mav_camera = true;
        handles = record s.handles { camera = true };
      } in
      let (prepared, s') = call u.camera_prepare created in
      elim (Option-cases (choose_options d u s')) [
        | inl e ↦ absurd (ground arith)
        | inr ((o, c), e) ↦ let kept = choose_options-pointers d u o s' c e in ground arith
      ]

  init_render_bridge-true :
      (s t : Local W F)
      → s.has_render_bridge ≡ false
      → init_render_bridge d u s ≡ some (true, t)
      → pointers t
        ≡ pointers
            (record s { has_render_bridge = true; handles = record s.handles { render = true } })
  unfolding init_render_bridge
  init_render_bridge-true s t none_yet h = ground arith

  init_storage_manager-true :
      (s t : Local W F)
      → s.has_storage_manager ≡ false
      → init_storage_manager d u s ≡ some (true, t)
      → pointers t
        ≡ pointers
            (record s { has_storage_manager = true; handles = record s.handles { storage = true } })
  unfolding init_storage_manager
  init_storage_manager-true s t none_yet h = ground arith

  pub init-IsUp : (s t : Local W F) → IsFresh s → init d u s ≡ some (true, t) → IsUp t
  unfolding init
  init-IsUp s t fresh h =
      let (r, er, h1) = and_then-true (init_render_bridge d u s) _ t h in
      let (c, ec, h2) = and_then-true (init_mav_camera d u r) _ t h1 in
      let (m, em, h3) = and_then-true (init_storage_manager d u c) _ t h2 in
      let pr = init_render_bridge-true s r fresh.no_render er in
      let pc = init_mav_camera-true r c (ground arith) ec in
      let pm = init_storage_manager-true c m (ground arith) em in
      let up : IsUp m = ground arith in
      elim (Option-cases (init_settings d u m)) [
        | inl e ↦ absurd (ground arith)
        | inr (t', e) ↦ let up' = init_settings-IsUp m t' up (ground arith) e in ground arith
      ]

  -- The settings come last in a start that succeeds.
  pub init-settled :
      (s t : Local W F)
      → init d u s ≡ some (true, t)
      → (m : Local W F) × (init_settings d u m ≡ some t)
  unfolding init
  init-settled s t h =
      let (r, er, h1) = and_then-true (init_render_bridge d u s) _ t h in
      let (c, ec, h2) = and_then-true (init_mav_camera d u r) _ t h1 in
      let (m, em, h3) = and_then-true (init_storage_manager d u c) _ t h2 in
      elim (Option-cases (init_settings d u m)) [
        | inl e ↦ absurd (ground arith)
        | inr (t', e) ↦ (m, ground arith)
      ]

  delete_client-IsDown :
      (s : Local W F) → IsUp s → (t : Local W F) × (delete_client d u s ≡ some t) × IsDown t
  unfolding delete_client deinit free_ir_camera free_render_bridge free_storage_manager destroy
      set_ai_function stop
  delete_client-IsDown s up =
      let off = ai_off-TurnedOff d s in
      let server = ai_off-idle d s up.idle in
      elim (Option-cases (delete_client d u s)) [
        | inl e ↦ absurd (ground arith)
        | inr (t, e) ↦ (t, e, ground arith)
      ]

  -- A client that starts from nothing, and whose start succeeds, can be deleted: the destructor returns,
  -- no infrared camera, render bridge or storage manager is left, their libraries are unloaded, and the
  -- tracking server is down. The camera of the RGB sensor is left, with its library.
  pub delete_after_create :
      (s t : Local W F)
      → IsFresh s
      → create_local_client d u s ≡ some (true, t)
      → (gone : Local W F) × (delete_client d u t ≡ some gone) × IsDown gone
  unfolding create_local_client
  delete_after_create s t fresh h = elim (Option-cases (init d u s)) [
    | inl e ↦ absurd (ground arith)
    | inr ((false, s'), e) ↦ absurd (ground arith)
    | inr ((true, s'), e) ↦
        let e' : init d u s ≡ some (true, t) = ground arith in
        delete_client-IsDown t (init-IsUp s t fresh e')
  ]

  delete_unloaded :
      (s : Local W F)
      → ((s.has_render_bridge ≡ true) × (s.handles.render ≡ false))
        ⊎ ((s.has_storage_manager ≡ true) × (s.handles.storage ≡ false))
      → delete_client d u s ≡ none
  unfolding delete_client deinit free_ir_camera free_render_bridge free_storage_manager
      set_ai_function
  delete_unloaded s (inl (has, closed)) = let off = ai_off-TurnedOff d s in ground arith
  delete_unloaded s (inr (has, closed)) = let off = ai_off-TurnedOff d s in ground arith

  -- The render bridge, or the storage manager after the render bridge and the camera are up, is created
  -- and does not open.
  abbrev pub RefusesToOpen : Local W F → Type 0
  RefusesToOpen s =
      ((u.render_library s.world ≡ Load.loaded) × ((u.render_open s.world).0 ≡ false))
      ⊎ ((r : Local W F) × (c : Local W F) × (init_render_bridge d u s ≡ some (true, r))
          × (init_mav_camera d u r ≡ some (true, c))
          × (u.storage_library c.world ≡ Load.loaded)
          × ((u.storage_open c.world).0 ≡ false))

  -- If the render bridge of a new client is created and does not open, or its storage manager after the
  -- render bridge and the camera came up, CreateLocalCameraClient does not answer a null pointer: the
  -- client is deleted, and its destructor calls into a library that has been closed.
  pub refused_open_never_returns :
      (s : Local W F) → IsFresh s → RefusesToOpen s → create_local_client d u s ≡ none
  unfolding create_local_client init init_render_bridge init_storage_manager
  refused_open_never_returns s fresh (inl (loaded, closed)) =
      let (opened, s') = call u.render_open (record s { has_render_bridge = true }) in
      let left = record s' { handles = record s'.handles { render = false } } in
      let gone = delete_unloaded left (inl (refl, refl)) in ground arith
  refused_open_never_returns s fresh (inr (r, c, er, ec, loaded, closed)) =
      let pr = init_render_bridge-true s r fresh.no_render er in
      let pc = init_mav_camera-true r c (ground arith) ec in
      let (opened, s') = call u.storage_open (record c { has_storage_manager = true }) in
      let left = record s' { handles = record s'.handles { storage = false } } in
      let gone = delete_unloaded left (inr (refl, refl)) in ground arith
