-- ===== src/Local/Settings/InStep.antt =====
-- Whether the render mode of the preview agrees with the settings of the local camera client
-- (src/mav_client/camera_local_client.cpp, init_render_mode and its callers).
use mavcam.Prelude.{
  ◌≡◌, ◌≢◌, ◌⊎◌, ◌∙◌, refl, sym, ap, inl, inr, Bool, true, false, some, String, Dict, insert, at,
  or_empty, contains, lookup-insert, str_eq, if◌then◌else◌, if_rule, if_cases, Bool-cases,
  lookup-insert_self, arith,
}
use mavcam.Results.{ServerResult}
use mavcam.Local.Device.{Device}
use mavcam.Local.State.{Local, RenderMode, touch, store, set_entry}
use mavcam.Local.Capture.Photos.{at-touch}
use mavcam.Local.Settings.Keys.{Key, name, refreshes}
use mavcam.Local.Settings.Render.{render_mode_of, render_mode_for, touch_render, init_render_mode}
use mavcam.Local.Settings.Handlers.{handle}
use mavcam.Local.Settings.Operations.{remember, accept, set_setting}
use mavcam.Local.Settings.Written.{prepared, handle-prepared, set_setting-handled}

-- The render mode is the one that the settings ask for.
abbrev pub IsInStep : {W F : Type 0} → Local W F → Type 0
IsInStep s = s.render_mode ≡ render_mode_for s.settings

at-touch_two : (key k i : String) (m : Dict) → at key (touch k (touch i m)) ≡ at key m
at-touch_two key k i m = at-touch key k (touch i m) ∙ at-touch key i m

at-touch_render : (key : String) (m : Dict) → at key (touch_render m) ≡ at key m
unfolding touch_render
at-touch_render key m =
    if_rule P (str_eq (at "CAM_MODE" m) "0") (at-touch_two key "CAM_PHOTO_RES" "CAM_MODE" m) (
      if_rule P (str_eq (at "CAM_MODE" m) "1") (at-touch_two key "CAM_VIDRES" "CAM_MODE" m)
        (at-touch key "CAM_MODE" m))
  where
    P : Dict → Type 0
    P t = at key t ≡ at key m

-- The three settings that decide the render mode, unchanged.
render_mode_for-same :
    (m n : Dict)
    → at "CAM_MODE" m ≡ at "CAM_MODE" n
    → at "CAM_PHOTO_RES" m ≡ at "CAM_PHOTO_RES" n
    → at "CAM_VIDRES" m ≡ at "CAM_VIDRES" n
    → render_mode_for m ≡ render_mode_for n
render_mode_for-same m n a b c = rw (a, b, c)

module _ {W F : Type 0} where
  pub init_render_mode-IsInStep : (s : Local W F) → IsInStep (init_render_mode s)
  unfolding init_render_mode
  init_render_mode-IsInStep s = sym (
      render_mode_for-same (touch_render s.settings) s.settings
        (at-touch_render "CAM_MODE" s.settings) (at-touch_render "CAM_PHOTO_RES" s.settings)
        (at-touch_render "CAM_VIDRES" s.settings))

-- Any other setting decides nothing.
at-insert :
    (id key value : String) (m : Dict)
    → str_eq id key ≡ false
    → at key (insert id value m) ≡ at key m
at-insert id key value m h = ground (arith, lookup-insert id key value m)

pub render_mode_for-insert :
    (id value : String) (m : Dict)
    → str_eq id "CAM_MODE" ≡ false
    → str_eq id "CAM_PHOTO_RES" ≡ false
    → str_eq id "CAM_VIDRES" ≡ false
    → render_mode_for (insert id value m) ≡ render_mode_for m
render_mode_for-insert id value m a b c =
    render_mode_for-same (insert id value m) m (at-insert id "CAM_MODE" value m a)
      (at-insert id "CAM_PHOTO_RES" value m b) (at-insert id "CAM_VIDRES" value m c)

pub render_mode_for-touch :
    (key : String) (m : Dict) → render_mode_for (touch key m) ≡ render_mode_for m
render_mode_for-touch key m =
    render_mode_for-same (touch key m) m (at-touch "CAM_MODE" key m)
      (at-touch "CAM_PHOTO_RES" key m) (at-touch "CAM_VIDRES" key m)

raw_render_mode :
    (m : Dict)
    → at "CAM_MODE" m ≡ "0"
    → render_mode_for (insert "CAM_PHOTO_RES" "0" m) ≡ RenderMode.photo_full
unfolding render_mode_of
raw_render_mode m mode =
    let photo = ap or_empty (lookup-insert_self "CAM_PHOTO_RES" "0" m) in
    let same = at-insert "CAM_PHOTO_RES" "CAM_MODE" "0" m refl in rw (same, mode, photo)

module _ {W F : Type 0} (d : Device W F) where
  abbrev kept : Key → String → Local W F → Local W F
  kept k value s = remember d k (name k) value (set_entry (name k) value s)

  -- A setting that does not refresh the render mode is none of the three that decide it.
  pub accept-IsInStep :
      (k : Key) (value : String) (s : Local W F)
      → (refreshes k ≡ true) ⊎ IsInStep s
      → IsInStep (accept d k (name k) value s)
  unfolding accept remember store
  accept-IsInStep Key.mode value s h = init_render_mode-IsInStep (kept Key.mode value s)
  accept-IsInStep Key.photo_resolution value s h =
      init_render_mode-IsInStep (kept Key.photo_resolution value s)
  accept-IsInStep Key.video_resolution value s h =
      init_render_mode-IsInStep (kept Key.video_resolution value s)
  accept-IsInStep Key.photo_format value s h =
      init_render_mode-IsInStep (kept Key.photo_format value s)
  accept-IsInStep k value s (inl r) = absurd (ground arith)
  accept-IsInStep k value s (inr step) =
      step ∙ sym (render_mode_for-insert (name k) value s.settings refl refl refl)

  prepared-same :
      (k : Key) (value : String) (m : Dict) → k ≢ Key.photo_format → prepared k value m ≡ m
  unfolding prepared
  prepared-same Key.photo_format value m n = absurd (n refl)
  prepared-same _ value m n = refl

  handle-IsInStep :
      (k : Key) (value : String) (s s' : Local W F) (ok : Bool)
      → k ≢ Key.ai_function
      → k ≢ Key.photo_format
      → handle d k value s ≡ some (ok, s')
      → IsInStep s
      → IsInStep s'
  handle-IsInStep k value s s' ok n f h step =
      let (m, _, r) = handle-prepared d k value s s' ok n h in
      r ∙ step ∙ ap render_mode_for (sym (m ∙ prepared-same k value s.settings f))

  -- After set_setting, the render mode is the one that the settings ask for if it was before, for each
  -- known setting but the AI function, whatever its handler answered; except that the answer must have
  -- been yes if it is the photo format.
  pub set_setting-IsInStep :
      (k : Key) (value : String) (s s' : Local W F) (ok : Bool)
      → k ≢ Key.ai_function
      → (k ≢ Key.photo_format) ⊎ (ok ≡ true)
      → s.has_mav_camera ≡ true
      → contains (name k) s.settings ≡ true
      → handle d k value s ≡ some (ok, s')
      → IsInStep s
      → (s'' : Local W F) × (set_setting d (name k) value s ≡ some (ServerResult.success, s''))
        × IsInStep s''
  set_setting-IsInStep k value s s' ok n f camera known h step = (
    if ok then accept d k (name k) value s' else s',
    set_setting-handled d k value s s' ok camera known h,
    if_cases IsInStep ok (λ r. accept-IsInStep k value s' accepted) (λ e. refused f e),
  )
    where
      accepted : (refreshes k ≡ true) ⊎ IsInStep s'
      accepted = elim (Bool-cases (refreshes k)) [
        | inl r ↦ inl r
        | inr e ↦ inr (
            handle-IsInStep k value s s' ok n (λ q. absurd (ground (arith, ap refreshes q))) h step)
      ]

      refused : (k ≢ Key.photo_format) ⊎ (ok ≡ true) → ok ≡ false → IsInStep s'
      refused (inl other) e = handle-IsInStep k value s s' ok n other h step
      refused (inr r) e = absurd (ground arith)

  -- A camera in photo mode at the quarter resolution that refuses raw photos: set_setting answers
  -- Success, and from then on the settings say the full resolution and ask for its render mode, while
  -- the render mode is still the quarter one and the store is unchanged.
  pub refused_raw_out_of_step :
      (s s' : Local W F)
      → s.has_mav_camera ≡ true
      → contains "CAM_PHOTO_FMT" s.settings ≡ true
      → at "CAM_MODE" s.settings ≡ "0"
      → at "CAM_PHOTO_RES" s.settings ≡ "1"
      → IsInStep s
      → handle d Key.photo_format "1" s ≡ some (false, s')
      → (set_setting d "CAM_PHOTO_FMT" "1" s ≡ some (ServerResult.success, s'))
        × (at "CAM_PHOTO_RES" s'.settings ≡ "0")
        × (render_mode_for s'.settings ≡ RenderMode.photo_full)
        × (s'.render_mode ≡ RenderMode.photo_quarter)
        × (s'.param ≡ s.param)
  unfolding prepared render_mode_of
  refused_raw_out_of_step s s' camera known mode photo step h =
      let (m, p, r) =
        handle-prepared d Key.photo_format "1" s s' false (λ q. absurd (ground arith)) h in
      (
        set_setting-handled d Key.photo_format "1" s s' false camera known h,
        ap (at "CAM_PHOTO_RES") m ∙ ap or_empty (lookup-insert_self "CAM_PHOTO_RES" "0" s.settings),
        ap render_mode_for m ∙ raw_render_mode s.settings mode,
        r ∙ step ∙ rw (mode, photo),
        p,
      )
