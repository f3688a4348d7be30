-- ===== src/Local/Settings/Written.antt =====
-- What set_setting of src/mav_client/camera_local_client.cpp does to the settings and to the store.
use mavcam.Prelude.{
  ◌≡◌, ◌≢◌, refl, Bool, true, false, not, ◌&&◌, some, String, Dict, lookup, insert, contains,
  lookup-insert, str_eq, eq_iff, if◌then◌else◌, if_rule, ap, ◌∙◌, arith,
}
use mavcam.Param.{set_value}
use mavcam.Results.{ServerResult}
use mavcam.Local.Device.{Device}
use mavcam.Local.State.{Local, touch, store, set_entry}
use mavcam.Local.Settings.Render.{touch_render, init_render_mode}
use mavcam.Local.Settings.Operations.{remember, accept, apply_setting, set_setting}
use mavcam.Local.Settings.Keys.{Key, name, key_of-name, refreshes}
use mavcam.Local.Settings.Handlers.{
  handle, set_camera_mode, set_camera_sensor_mode, set_camera_display_mode, set_photo_resolution,
  set_video_resolution, set_video_format, set_photo_quality, set_photo_format,
  set_whitebalance_mode, set_exposure_mode, set_exposure_value, set_iso, set_shutter_speed,
  set_metering_mode, set_sharpness, set_ae_lock, set_ir_palette, set_ir_ffc_mode, set_ir_ffc,
}

-- What a handler does to the settings before it answers: raw photos force the full resolution, and
-- nothing else is touched.
unfoldable pub prepared : Key → String → Dict → Dict
prepared Key.photo_format value m =
    if not (str_eq value "0") && str_eq value "1" then insert "CAM_PHOTO_RES" "0" m else m
prepared _ value m = m

-- The settings, the store and the render mode are what they were.
abbrev Kept : {W F : Type 0} → Local W F → Local W F → Type 0
Kept s s' = (s'.settings ≡ s.settings) × (s'.param ≡ s.param) × (s'.render_mode ≡ s.render_mode)

module _ {W F : Type 0} (d : Device W F) where
  whitebalance-Kept : (mode : String) (s : Local W F) → Kept s (set_whitebalance_mode d mode s).1
  unfolding set_whitebalance_mode
  whitebalance-Kept mode s =
      if_rule P (str_eq mode "0") (refl, refl, refl)
        (if_rule P (str_eq mode "1") (refl, refl, refl)
          (if_rule P (str_eq mode "2") (refl, refl, refl)
            (if_rule P (str_eq mode "3") (refl, refl, refl)
              (if_rule P (str_eq mode "4") (refl, refl, refl)
                (if_rule P (str_eq mode "5") (refl, refl, refl) (refl, refl, refl))))))
    where
      P : Bool × Local W F → Type 0
      P r = Kept s r.1

  handle_whitebalance-Kept :
      (value : String) (s s' : Local W F) (ok : Bool)
      → handle d Key.white_balance value s ≡ some (ok, s')
      → Kept s s'
  unfolding handle
  handle_whitebalance-Kept value s s' ok h =
      let (m, p, r) = whitebalance-Kept value s in
      (ground (arith, m), ground (arith, p), ground (arith, r))

  pub handle-prepared :
      (k : Key) (value : String) (s s' : Local W F) (ok : Bool)
      → k ≢ Key.ai_function
      → handle d k value s ≡ some (ok, s')
      → (s'.settings ≡ prepared k value s.settings)
        × (s'.param ≡ s.param)
        × (s'.render_mode ≡ s.render_mode)
  unfolding handle prepared set_camera_mode set_camera_sensor_mode set_camera_display_mode
      set_photo_resolution set_video_resolution set_video_format set_photo_quality set_photo_format
      set_whitebalance_mode set_exposure_mode set_exposure_value set_iso set_shutter_speed
      set_metering_mode set_sharpness set_ae_lock set_ir_palette set_ir_ffc_mode set_ir_ffc
  handle-prepared Key.mode value s s' ok n h = (ground arith, ground arith, ground arith)
  handle-prepared Key.sensor_mode value s s' ok n h = (ground arith, ground arith, ground arith)
  handle-prepared Key.display_mode value s s' ok n h = (ground arith, ground arith, ground arith)
  handle-prepared Key.photo_resolution value s s' ok n h =
      (ground arith, ground arith, ground arith)
  handle-prepared Key.video_resolution value s s' ok n h =
      (ground arith, ground arith, ground arith)
  handle-prepared Key.video_format value s s' ok n h = (ground arith, ground arith, ground arith)
  handle-prepared Key.photo_quality value s s' ok n h = (ground arith, ground arith, ground arith)
  handle-prepared Key.photo_format value s s' ok n h = (ground arith, ground arith, ground arith)
  handle-prepared Key.white_balance value s s' ok n h = handle_whitebalance-Kept value s s' ok h
  handle-prepared Key.exposure_mode value s s' ok n h = (ground arith, ground arith, ground arith)
  handle-prepared Key.exposure_value value s s' ok n h = (ground arith, ground arith, ground arith)
  handle-prepared Key.iso value s s' ok n h = (ground arith, ground arith, ground arith)
  handle-prepared Key.shutter_speed value s s' ok n h = (ground arith, ground arith, ground arith)
  handle-prepared Key.metering value s s' ok n h = (ground arith, ground arith, ground arith)
  handle-prepared Key.sharpness value s s' ok n h = (ground arith, ground arith, ground arith)
  handle-prepared Key.ae_lock value s s' ok n h = (ground arith, ground arith, ground arith)
  handle-prepared Key.ir_palette value s s' ok n h = (ground arith, ground arith, ground arith)
  handle-prepared Key.ir_ffc_mode value s s' ok n h = (ground arith, ground arith, ground arith)
  handle-prepared Key.ir_ffc value s s' ok n h = (ground arith, ground arith, ground arith)
  handle-prepared Key.ai_function value s s' ok n h = absurd (n refl)

-- Reading a setting that is there after missing ones were put in.
pub lookup-touch :
    (j k : String) (m : Dict) → contains j m ≡ true → lookup j (touch k m) ≡ lookup j m
lookup-touch j k m h = ground (arith, lookup-insert k j "" m, eq_iff k j)

lookup-touch_two :
    (j k i : String) (m : Dict) → contains j m ≡ true → lookup j (touch k (touch i m)) ≡ lookup j m
lookup-touch_two j k i m h =
    let e = lookup-touch j i m h in lookup-touch j k (touch i m) (ground arith) ∙ e

pub lookup-touch_render :
    (j : String) (m : Dict) → contains j m ≡ true → lookup j (touch_render m) ≡ lookup j m
unfolding touch_render
lookup-touch_render j m h = ground (
  arith,
  lookup-touch j "CAM_MODE" m h,
  lookup-touch_two j "CAM_PHOTO_RES" "CAM_MODE" m h,
  lookup-touch_two j "CAM_VIDRES" "CAM_MODE" m h,
)

module _ {W F : Type 0} (d : Device W F) where
  remember-settings :
      (k : Key) (id value : String) (s : Local W F)
      → (remember d k id value s).settings ≡ s.settings
  unfolding remember store
  remember-settings Key.ai_function id value s = refl
  remember-settings _ id value s = refl

  init_render_mode-settings :
      (j : String) (s : Local W F)
      → contains j s.settings ≡ true
      → lookup j (init_render_mode s).settings ≡ lookup j s.settings
  unfolding init_render_mode
  init_render_mode-settings j s h = lookup-touch_render j s.settings h

  lookup-accept :
      (k : Key) (id value j : String) (s : Local W F)
      → contains j s.settings ≡ true
      → lookup j (accept d k id value s).settings
        ≡ (if str_eq id j then some value else lookup j s.settings)
  unfolding accept
  lookup-accept k id value j s h =
      let kept : Local W F = remember d k id value (set_entry id value s) in
      let e = remember-settings k id value (set_entry id value s) in
      let same : lookup j kept.settings
          ≡ (if str_eq id j then some value else lookup j s.settings) =
        ap (lookup j) e ∙ lookup-insert id j value s.settings in
      if_rule
        (λ (r : Local W F).
          lookup j r.settings ≡ (if str_eq id j then some value else lookup j s.settings))
        (refreshes k) (init_render_mode-settings j kept (ground arith) ∙ same) same

  param-accept :
      (k : Key) (id value : String) (s : Local W F)
      → k ≢ Key.ai_function
      → (accept d k id value s).param
        ≡ (set_value d.host.json (d.host.param_opens s.world) id value s.param).1
  unfolding accept remember store init_render_mode
  param-accept Key.ai_function id value s n = absurd (n refl)
  param-accept _ id value s n = refl

  prepared-contains :
      (k : Key) (value j : String) (m : Dict)
      → contains j m ≡ true
      → contains j (prepared k value m) ≡ true
  unfolding prepared
  prepared-contains Key.photo_format value j m h =
      ground (arith, lookup-insert "CAM_PHOTO_RES" j "0" m)
  prepared-contains _ value j m h = h

  -- set_setting on a known setting whose handler has answered.
  pub set_setting-handled :
      (k : Key) (value : String) (s s' : Local W F) (ok : Bool)
      → s.has_mav_camera ≡ true
      → contains (name k) s.settings ≡ true
      → handle d k value s ≡ some (ok, s')
      → set_setting d (name k) value s
        ≡ some (ServerResult.success, if ok then accept d k (name k) value s' else s')
  unfolding set_setting apply_setting
  set_setting-handled k value s s' ok camera known h = ground (arith, key_of-name k)

  -- When a camera is there, the setting is known and its handler answers, set_setting answers Success,
  -- whatever the handler answered. If that was yes, the setting has the new value, in the settings and,
  -- through the store's set_value, in the store; if not, the store is unchanged. Every other setting that
  -- was there keeps its value, but raw photos force the full photo resolution. (The AI function is
  -- another matter.)
  pub setting_written :
      (k : Key) (value j : String) (s s' : Local W F) (ok : Bool)
      → k ≢ Key.ai_function
      → s.has_mav_camera ≡ true
      → contains (name k) s.settings ≡ true
      → contains j s.settings ≡ true
      → handle d k value s ≡ some (ok, s')
      → (s'' : Local W F) × (set_setting d (name k) value s ≡ some (ServerResult.success, s''))
        × (lookup j s''.settings ≡ (
            if ok && str_eq (name k) j then some value else lookup j (prepared k value s.settings)))
        × (s''.param ≡ (
            if ok
            then (set_value d.host.json (d.host.param_opens s'.world) (name k) value s.param).1
            else s.param))
  setting_written k value j s s' true n camera known there h =
      let (m, p, _) = handle-prepared d k value s s' true n h in
      let there' = ap (contains j) m ∙ prepared-contains k value j s.settings there in
      (
        accept d k (name k) value s',
        set_setting-handled k value s s' true camera known h,
        lookup-accept k (name k) value j s' there'
            ∙ ap (λ r. if str_eq (name k) j then some value else lookup j r) m,
        param-accept k (name k) value s' n
            ∙ ap (λ q. (set_value d.host.json (d.host.param_opens s'.world) (name k) value q).1) p,
      )
  setting_written k value j s s' false n camera known there h =
      let (m, p, _) = handle-prepared d k value s s' false n h in
      (s', set_setting-handled k value s s' false camera known h, ap (lookup j) m, p)
