-- ===== src/Plugin/Stored.antt =====
-- What set_setting and reset_settings of the camera plugin leave in its list of settings.
use mavcam.Prelude.{
  ◌≡◌, ◌∙◌, refl, ap, subst, Bool, true, false, ◌&&◌, Option, none, some, String, List, [], ◌∷◌,
  map, str_eq, eq_iff, if◌then◌else◌, if_rule, arith,
}
use mavcam.Prelude.Int.{ℤ}
use mavcam.Prelude.Text.{stoi}
use mavcam.Results.{MavResult, CameraResult, is_mav_success}
use mavcam.Camera.Types.{Setting, SettingOption}
use mavcam.Plugin.{
  Plugin, PluginDevice, with_option, reset_setting, reset_value, find_option, parsed, succeeds,
  set_camera_mode, set_camera_display_mode, set_photo_resolution, set_whitebalance_mode,
  set_video_resolution, set_metering_mode,
}
use mavcam.Plugin.Operations.{
  set_ir_palette, set_ir_ffc, handle_setting, set_setting, reset_settings, get_setting,
}

-- What a call leaves of the settings, if it returns.
abbrev Keeps : {W F : Type 0} → Plugin W F → Option (Bool × Plugin W F) → Type 0
Keeps p none = Unit {0}
Keeps p (some r) = r.1.settings ≡ p.settings

-- What is found after an option was assigned.
find_option-assigned :
    (id other : String) (option : SettingOption) (settings : List Setting)
    → find_option other (map (with_option id option) settings) ≡ (
        if str_eq id other
        then elim (find_option other settings) [ none ↦ none | some _ ↦ some option ]
        else find_option other settings)
unfolding find_option
find_option-assigned id other option [] = ground arith
find_option-assigned id other option (s ∷ rest) = ground (
  arith,
  find_option-assigned id other option rest,
  eq_iff s.setting_id id,
  eq_iff id other,
  eq_iff s.setting_id other,
)

module _ {W F : Type 0} (d : PluginDevice W F) where
  parsed-Keeps :
      {A : Type 0} (v : Option A) (f : A → Option (Bool × Plugin W F)) (p : Plugin W F)
      → ((a : A) → Keeps p (f a))
      → Keeps p (parsed d v f)
  parsed-Keeps none f p h = tt
  parsed-Keeps (some a) f p h = h a

  succeeds-Keeps : (f : W → MavResult × W) (p : Plugin W F) → Keeps p (succeeds d f p)
  succeeds-Keeps f p = if_rule (Keeps p) p.has_camera refl tt

  display_mode-Keeps : (v : String) (p : Plugin W F) → Keeps p (set_camera_display_mode d v p)
  unfolding set_camera_display_mode
  display_mode-Keeps v p = ground arith

  whitebalance-Keeps : (v : String) (p : Plugin W F) → Keeps p (set_whitebalance_mode d v p)
  unfolding set_whitebalance_mode
  whitebalance-Keeps v p = if_rule P (str_eq v "0") (calls _) (
      if_rule P (str_eq v "1") (calls _) (
        if_rule P (str_eq v "2") (calls _) (
          if_rule P (str_eq v "3") (calls _)
            (if_rule P (str_eq v "4") (calls _) (if_rule P (str_eq v "5") (calls _) unset)))))
    where
      P : Option (Bool × Plugin W F) → Type 0
      P = Keeps p

      unset : Keeps p (some (is_mav_success (d.unset_result p.world), p))
      unset = refl

      calls : (n : ℤ) → Keeps p (succeeds d (d.set_white_balance n) p)
      calls n = succeeds-Keeps (d.set_white_balance n) p

  camera_mode-Keeps : (v : String) (p : Plugin W F) → Keeps p (set_camera_mode d v p)
  unfolding set_camera_mode
  camera_mode-Keeps v p = ground arith

  photo_resolution-Keeps : (v : String) (p : Plugin W F) → Keeps p (set_photo_resolution d v p)
  unfolding set_photo_resolution
  photo_resolution-Keeps v p = ground arith

  metering_mode-Keeps : (v : String) (p : Plugin W F) → Keeps p (set_metering_mode d v p)
  unfolding set_metering_mode
  metering_mode-Keeps v p = parsed-Keeps (stoi v) _ p λ n. ground arith

  video_resolution-Keeps : (v : String) (p : Plugin W F) → Keeps p (set_video_resolution d v p)
  unfolding set_video_resolution
  video_resolution-Keeps v p = ground arith

  ir_palette-Keeps : (v : String) (p : Plugin W F) → Keeps p (set_ir_palette d v p)
  unfolding set_ir_palette
  ir_palette-Keeps v p = parsed-Keeps (stoi v) _ p λ n. ground arith

  ir_ffc-Keeps : (v : String) (p : Plugin W F) → Keeps p (some (set_ir_ffc d v p))
  unfolding set_ir_ffc
  ir_ffc-Keeps v p = ground arith

  handle_setting-Keeps : (id v : String) (p : Plugin W F) → Keeps p (handle_setting d id v p)
  unfolding handle_setting
  handle_setting-Keeps id v p = if_rule P (str_eq id "CAM_MODE") (camera_mode-Keeps v p) (
      if_rule P (str_eq id "CAM_DIS_MODE") (display_mode-Keeps v p) (
        if_rule P (str_eq id "CAM_PHOTO_RES") (photo_resolution-Keeps v p) (
          if_rule P (str_eq id "CAM_WBMODE") (whitebalance-Keeps v p) (
            if_rule P (str_eq id "CAM_EXPMODE") refl (
              if_rule P (str_eq id "CAM_EV")
                (parsed-Keeps (d.stof v) _ p λ n. succeeds-Keeps (d.set_exposure_value n) p)
                (if_rule P (str_eq id "CAM_ISO")
                  (parsed-Keeps (stoi v) _ p λ n. succeeds-Keeps (d.set_iso n) p)
                  (if_rule P (str_eq id "CAM_SHUTTERSPD") (succeeds-Keeps (d.set_shutter_speed v) p)
                    (if_rule P (str_eq id "CAM_VIDRES") (video_resolution-Keeps v p) (
                      if_rule P (str_eq id "CAM_METER") (metering_mode-Keeps v p) (
                        if_rule P (str_eq id "IRCAM_PALETTE") (ir_palette-Keeps v p)
                          (if_rule P (str_eq id "IRCAM_FFC") (ir_ffc-Keeps v p) refl)))))))))))
    where
      P : Option (Bool × Plugin W F) → Type 0
      P = Keeps p

  -- When a setting's handler answers, set_setting answers Success, whatever the handler answered. Then
  -- get_setting finds what it found before, but for the setting that was set, if it is in the list and
  -- the handler answered yes: that one has the new option.
  pub plugin_set_then_get :
      (setting query : Setting) (p p' : Plugin W F) (ok : Bool)
      → handle_setting d setting.setting_id setting.option.option_id p ≡ some (ok, p')
      → (p'' : Plugin W F) × (set_setting d setting p ≡ some (CameraResult.success, p''))
        × (get_setting query p'' ≡ elim (find_option query.setting_id p.settings) [
          | none ↦ (CameraResult.wrong_argument, query)
          | some option ↦ (
            CameraResult.success,
            record query {
              option =
                  if ok && str_eq setting.setting_id query.setting_id
                  then setting.option
                  else option;
            },
          )
        ])
  unfolding set_setting get_setting
  plugin_set_then_get setting query p p' true h =
      let same : p'.settings ≡ p.settings =
        subst (Keeps p) h (handle_setting-Keeps setting.setting_id setting.option.option_id p) in
      let assign : List Setting → List Setting =
        map (with_option setting.setting_id setting.option) in
      let found : find_option query.setting_id (assign p'.settings) ≡ _ =
        ap (λ l. find_option query.setting_id (assign l)) same
        ∙ find_option-assigned setting.setting_id query.setting_id setting.option p.settings in
      (record p' { settings = assign p'.settings }, ground arith, ground (arith, found))
  plugin_set_then_get setting query p p' false h =
      let same : p'.settings ≡ p.settings =
        subst (Keeps p) h (handle_setting-Keeps setting.setting_id setting.option.option_id p) in
      (p', ground arith, ground (arith, ap (find_option query.setting_id) same))

  -- What is found after a reset has assigned the defaults.
  find_option-reset :
      (id : String) (settings : List Setting)
      → find_option id (map reset_setting settings) ≡ elim (find_option id settings) [
        | none ↦ none
        | some option ↦ some (elim (reset_value id) [
          | none ↦ option
          | some value ↦ record option { option_id = value }
        ])
      ]
  unfolding find_option
  find_option-reset id [] = refl
  find_option-reset id (s ∷ rest) =
      ground (arith, find_option-reset id rest, eq_iff s.setting_id id)

  -- With a camera, the plugin's reset_settings answers Success even when the camera refuses; it gives
  -- its defaults to exactly those settings of the list that have one, and only if the camera has agreed,
  -- and leaves every other setting and every description as it was.
  pub plugin_reset_defaults :
      (id : String) (p : Plugin W F)
      → p.has_camera ≡ true
      → let (result, p') = reset_settings d p in
        (result ≡ CameraResult.success)
        × (find_option id p'.settings ≡ elim (find_option id p.settings) [
          | none ↦ none
          | some option ↦ some (
              if is_mav_success (d.reset_settings p.world).0
              then elim (reset_value id) [
                | none ↦ option
                | some value ↦ record option { option_id = value }
              ]
              else option)
        ])
  unfolding reset_settings
  plugin_reset_defaults id p camera =
      (ground arith, ground (arith, find_option-reset id p.settings))
