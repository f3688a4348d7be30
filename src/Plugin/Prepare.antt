-- ===== src/Plugin/Prepare.antt =====
-- The start of the camera plugin: prepare, deinit, init_ir_camera and the get_ functions for the first
-- values of the settings, src/mav_server/plugins/camera/camera_impl.cpp. `none` is an exception or a
-- crash: of std::stoi or std::stof, of a text that is made of a null pointer, or of a null camera.
use mavcam.Prelude.{
  ◌≡◌, ℕ, ◌/◌, Bool, true, false, not, ◌&&◌, Option, none, some, String, [], ◌∷◌, ◌++◌, ltb,
  if◌then◌else◌, arith,
}
use mavcam.Prelude.Int.{ℤ, pos}
use mavcam.Prelude.Text.{codes, all_digits, split_at, stoi, to_string}
use mavcam.Results.{MavResult, CameraResult, is_mav_success}
use mavcam.Local.Startup.{Load}
use mavcam.Local.Startup.Camera.{starts_with}
use mavcam.Plugin.{
  Plugin, PluginDevice, CaptureMode, PreviewOutput, get_whitebalance_mode, get_video_resolution,
}
use mavcam.Plugin.Calls.{build_setting}

-- mav_camera::Options, the fields that are no constants.
pub record PluginOptions : Type 0 where
  pub init_mode : CaptureMode
  pub snapshot : ℕ × ℕ
  pub framerate : ℕ
  pub store_prefix : Option String

-- The environment, the libraries, the getters of the drivers, and what the variables hold that
-- get_camera_display_mode reads unset.
pub record PluginStartup (W F : Type 0) : Type 0 where
  pub env_camera_mode : Option String
  pub env_snapshot : Option String
  pub env_store_prefix : Option String
  pub unset_snapshot : ℕ × ℕ
  pub unset_display : W → MavResult × PreviewOutput
  pub camera_library : W → Load
  pub camera_prepare : W → MavResult × W
  pub camera_open : PluginOptions → W → MavResult × W
  pub camera_close : W → W
  pub get_snapshot_resolution : W → (ℕ × ℕ) × W
  pub ir_library : W → Load
  pub ir_open : W → Bool × W
  pub ir_close : W → W
  pub get_color_mode : W → ℤ
  pub get_exposure_value : W → MavResult × F
  pub get_iso : W → MavResult × ℤ
  pub get_shutter_speed : W → MavResult × String
  pub fixed1 : F → String
  pub float_text : F → String
  pub float_div : F → F → F

-- The photo mode, unless the text begins with "1".
unfoldable pub init_mode_of : Option String → CaptureMode
unfolding starts_with
init_mode_of none = CaptureMode.photo
init_mode_of (some text) =
    if starts_with "0" text
    then CaptureMode.photo
    else if starts_with "1" text
    then CaptureMode.video
    else CaptureMode.photo

abbrev natural : Option ℤ → Option ℕ
natural (some (pos n)) = some n
natural _ = none

abbrev both : Option ℕ → Option ℕ → Option (Option (ℕ × ℕ))
both (some a) (some b) = some (some (a, b))
both _ _ = none

abbrev some_digits : String → Bool
some_digits String.[] = false
some_digits text = all_digits (codes text)

-- What ^(\d+)x(\d+)$ finds in a text: `some none` where it does not match.
unfoldable pub size_of : String → Option (Option (ℕ × ℕ))
unfolding split_at all_digits stoi
size_of text = elim (split_at "x" text) [
  | none ↦ some none
  | some (width, height) ↦
      if some_digits width && some_digits height
      then both (natural (stoi width)) (natural (stoi height))
      else some none
]

module _ {W F : Type 0} (d : PluginDevice W F) (u : PluginStartup W F) where
  unfoldable pub get_camera_display_mode : W → Option String
  get_camera_display_mode w =
      let (result, preview) = u.unset_display w in
      if is_mav_success result
      then elim preview [
        | PreviewOutput.rgb ↦ some "0"
        | PreviewOutput.infrared ↦ some "1"
        | PreviewOutput.side_by_side ↦ some "2"
        | PreviewOutput.pip ↦ some "3"
      ]
      else none

  unfoldable pub get_ev_value : W → String
  get_ev_value w =
      let (result, value) = u.get_exposure_value w in
      if is_mav_success result then u.fixed1 value else "0.0"

  unfoldable pub get_iso_value : W → String
  unfolding to_string
  get_iso_value w =
      let (result, value) = u.get_iso w in if is_mav_success result then to_string value else "100"

  unfoldable pub get_shutter_speed_value : W → Option String
  unfolding split_at
  get_shutter_speed_value w =
      let (result, value) = u.get_shutter_speed w in
      if not (is_mav_success result) then some "0.01" else elim (split_at "/" value) [
        | none ↦ some value
        | some (before, after) ↦ elim (d.stof before) [
          | none ↦ none
          | some x ↦ elim (d.stof after) [
            | none ↦ none
            | some y ↦ some (u.float_text (u.float_div x y))
          ]
        ]
      ]

  -- A camera that cannot be opened stays in `_ir_camera`; one that is null is used.
  unfoldable pub init_ir_camera : Plugin W F → Option (Bool × Plugin W F)
  init_ir_camera p =
      let (opened, w) = u.ir_open p.world in
      if p.has_ir_camera then some (true, p) else elim (u.ir_library p.world) [
        | Load.no_library ↦ some (false, p)
        | Load.no_symbol ↦ some (false, p)
        | Load.no_instance ↦ none
        | Load.loaded ↦ some (opened, record p { has_ir_camera = true; world = w })
      ]

  abbrev half : ℕ × ℕ → ℕ × ℕ
  half (width, height) = (width / 2, height / 2)

  abbrev added : String → String → Plugin W F → Plugin W F
  added key value p = record p { settings = p.settings ++ build_setting key value ∷ [] }

  -- The size of a photo, with the setting that stands for it.
  unfoldable pub choose_snapshot : Plugin W F → Option ((ℕ × ℕ) × Plugin W F)
  unfolding size_of
  choose_snapshot p = elim u.env_snapshot [
    | some text ↦ elim (size_of text) [
      | none ↦ none
      | some none ↦ some (u.unset_snapshot, p)
      | some (some size) ↦ some (
        size,
        added "CAM_PHOTO_RES" "0" (record p { snapshot = size; half_snapshot = half size }),
      )
    ]
    | none ↦
        let (size, w) = u.get_snapshot_resolution p.world in
        let known = record p { snapshot = size; half_snapshot = half size; world = w } in
        let chosen : (ℕ × ℕ) × Plugin W F =
          if ltb 8000 size.0
          then (half size, added "CAM_PHOTO_RES" "1" known)
          else (size, added "CAM_PHOTO_RES" "0" known) in
        some chosen
  ]

  -- The settings after the camera is open, in the order of the list.
  unfoldable pub init_settings : Plugin W F → Option (Plugin W F)
  unfolding get_camera_display_mode get_whitebalance_mode get_ev_value get_iso_value
      get_shutter_speed_value get_video_resolution init_ir_camera to_string
  init_settings p =
      let w = p.world in
      elim (get_camera_display_mode w) [
        | none ↦ none
        | some display ↦ elim (get_shutter_speed_value w) [
          | none ↦ none
          | some speed ↦
              let filled = record p {
                settings =
                    p.settings
                    ++ build_setting "CAM_DIS_MODE" display
                      ∷ build_setting "CAM_WBMODE" (get_whitebalance_mode d w)
                      ∷ build_setting "CAM_EXPMODE" "0"
                      ∷ build_setting "CAM_EV" (get_ev_value w)
                      ∷ build_setting "CAM_ISO" (get_iso_value w)
                      ∷ build_setting "CAM_SHUTTERSPD" speed
                      ∷ build_setting "CAM_VIDFMT" "1"
                      ∷ build_setting "CAM_VIDRES" (get_video_resolution d w)
                      ∷ build_setting "CAM_METER" "0"
                      ∷ [];
              } in
              elim (init_ir_camera filled) [
                | none ↦ none
                | some (ok, p') ↦ some (
                    if ok && p'.has_ir_camera
                    then added "IRCAM_FFC" "0"
                        (added "IRCAM_PALETTE" (to_string (u.get_color_mode p'.world)) p')
                    else p')
              ]
        ]
      ]

  -- The camera is opened, and its answer is not looked at.
  unfoldable pub open_camera : Plugin W F → Option (Plugin W F)
  unfolding init_mode_of choose_snapshot init_settings
  open_camera p = elim (choose_snapshot p) [
    | none ↦ none
    | some (size, p') ↦
        let mode = init_mode_of u.env_camera_mode in
        let options : PluginOptions = record {
          init_mode = mode;
          snapshot = size;
          framerate = p'.framerate;
          store_prefix = u.env_store_prefix;
        } in
        init_settings (
          added "CAM_MODE" (elim mode [ CaptureMode.photo ↦ "0" | CaptureMode.video ↦ "1" ])
            (record p' { world = (u.camera_open options p'.world).1 }))
  ]

  -- prepare(): a camera that cannot be prepared stays in `_mav_camera`.
  unfoldable pub prepare : Plugin W F → Option (CameraResult × Plugin W F)
  unfolding open_camera
  prepare p =
      let (result, w) = u.camera_prepare p.world in
      let created = record p { has_camera = true; world = w } in
      if p.has_camera then some (CameraResult.success, p) else elim (u.camera_library p.world) [
        | Load.loaded ↦
            if not (is_mav_success result)
            then some (CameraResult.error, created)
            else elim (open_camera created) [
              | none ↦ none
              | some p' ↦ some (CameraResult.success, p')
            ]
        | _ ↦ some (CameraResult.error, p)
      ]

  -- deinit()
  unfoldable pub deinit : Plugin W F → Plugin W F
  deinit p =
      let closed = if p.has_camera then u.camera_close p.world else p.world in
      record p {
        has_camera = false;
        has_ir_camera = false;
        world = if p.has_ir_camera then u.ir_close closed else closed;
      }

  -- A camera that is loaded but cannot be prepared: prepare answers Error, and keeps it; so prepare then
  -- answers Success, as often as it is called, and does nothing more.
  pub prepare_after_error :
      (p : Plugin W F)
      → p.has_camera ≡ false
      → u.camera_library p.world ≡ Load.loaded
      → is_mav_success (u.camera_prepare p.world).0 ≡ false
      → let created = record p { has_camera = true; world = (u.camera_prepare p.world).1 } in
        (prepare p ≡ some (CameraResult.error, created))
        × (prepare created ≡ some (CameraResult.success, created))
  unfolding prepare
  prepare_after_error p absent loads refused = (ground arith, ground arith)
