-- ===== src/MavClient/Params.antt =====
-- The parameters that the MAVLink client gives the parameter server, and those it takes from it.
use mathlib.Core.Option.{map as map_option}
use mavcam.Prelude.{
  ◌≡◌, ap, refl, Bool, true, ◌&&◌, Option, none, some, is_some, String, List, [], ◌∷◌, map, Dict,
  at, contains, if_rule, lookup-insert_self, arith, if◌then◌else◌,
}
use mavcam.Prelude.Int.{ℤ}
use mavcam.Prelude.Text.{stoi, to_string}
use mavcam.Prelude.Text.RoundTrip.{is_int, stoi-to_string}
use mavcam.Results.{MavResult, is_mav_success}
use mavcam.Plugin.{LensInformation}
use mavcam.Local.Device.{Device}
use mavcam.Local.State.{Local, store}
use mavcam.Local.SdCard.{CaptureStatus, ServerStorage}
use mavcam.Local.Information.{DeviceText, PreviewStream}
use mavcam.Local.Settings.Operations.{set_setting, apply_setting, accept, remember}
use mavcam.Local.Settings.Keys.{key_of}
use mavcam.Local.Settings.Handlers.{handle, set_iso}
use mavcam.MavClient.{ServerParam, Sent}
use mavcam.MavClient.Handlers.{param_of, provided, added, is_float_setting, on_changed_param_int}
use mavcam.MavClient.Clients.{local_client}

module _ {F : Type 0} (stof : String → Option F) where
  abbrev name_of : ServerParam F → String
  name_of (ServerParam.float_param id _) = id
  name_of (ServerParam.int_param id _) = id

  abbrev key : String × String → String
  key (id, value) = id

  abbrev readable : Dict → Bool
  readable [] = true
  readable ((id, value) ∷ rest) = is_some (param_of stof id value) && readable rest

  abbrev names : Option (List (ServerParam F)) → List String
  names none = []
  names (some ps) = map name_of ps

  -- A parameter that is read has the setting's name.
  abbrev HasName : String → Option (ServerParam F) → Type 0
  HasName id none = Unit {0}
  HasName id (some p) = name_of p ≡ id

  param_of-HasName : (id value : String) → HasName id (param_of stof id value)
  unfolding param_of
  param_of-HasName id value =
      if_rule (HasName id) (is_float_setting id) (named_float (stof value)) (named_int (stoi value))
    where
      named_float : (o : Option F) → HasName id (map_option (ServerParam.float_param id) o)
      named_float none = tt
      named_float (some x) = refl

      named_int : (o : Option ℤ) → HasName id (map_option (ServerParam.int_param id) o)
      named_int none = tt
      named_int (some n) = refl

  added_lem :
      (id : String) (ids : List String) (ok : Bool) (p : Option (ServerParam F))
      (ps : Option (List (ServerParam F)))
      → HasName id p
      → is_some ps ≡ ok
      → names ps ≡ (if ok then ids else [])
      → (is_some (added p ps) ≡ is_some p && ok)
        × (names (added p ps) ≡ (if is_some p && ok then id ∷ ids else []))
  added_lem id ids ok none ps n h k = (refl, refl)
  added_lem id ids ok (some p) none n h k = (h, ground arith)
  added_lem id ids ok (some p) (some ps) n h k = (h, ground arith)

  -- fill_param provides one parameter for each setting, in the order of the settings and under their
  -- names, if every value reads as its kind of number; if one does not, it throws.
  pub fill_param_provides_all :
      (dict : Dict)
      → (is_some (provided stof dict) ≡ readable dict)
        × (names (provided stof dict) ≡ (if readable dict then map key dict else []))
  unfolding provided
  fill_param_provides_all [] = (refl, refl)
  fill_param_provides_all ((id, value) ∷ rest) =
      let (counted, named) = fill_param_provides_all rest in
      added_lem id (map key rest) (readable rest) (param_of stof id value) (provided stof rest)
        (param_of-HasName id value) counted named

module _ {W F : Type 0} where
  abbrev pub iso_and_world :
      Option (List (Sent F (CaptureStatus F) (ServerStorage F)) × Local W F) → Option (String × W)
  iso_and_world none = none
  iso_and_world (some (_, s)) = some (at "CAM_ISO" s.settings, s.world)

module _ {W F : Type 0} (d : Device W F) (brand : String) (text : DeviceText)
    (preview : PreviewStream F) (get_information : W → (MavResult × LensInformation F) × W) where
  -- An int that the ground station sets as CAM_ISO reaches the camera as that very int, over the text
  -- of the setting. If the camera takes it, it is the value that the setting then has, and the one that
  -- the parameter server is given when the parameters are provided again; else the value stays.
  pub int_param_reaches_camera :
      (stof : String → Option F) (v : ℤ) (s : Local W F)
      → s.has_mav_camera ≡ true
      → contains "CAM_ISO" s.settings ≡ true
      → is_int v ≡ true
      → let client = local_client d brand text preview get_information in
        let (result, w) = d.rgb.set_iso v s.world in
        (iso_and_world (on_changed_param_int client "CAM_ISO" v s)
          ≡ some ((if is_mav_success result then to_string v else at "CAM_ISO" s.settings), w))
        × (param_of stof "CAM_ISO" (to_string v) ≡ some (ServerParam.int_param "CAM_ISO" v))
  unfolding param_of on_changed_param_int set_setting key_of apply_setting accept remember handle
      set_iso store
  int_param_reaches_camera stof v s camera known fits = (
    ground (arith, stoi-to_string v fits, lookup-insert_self "CAM_ISO" (to_string v) s.settings),
    ap (map_option (ServerParam.int_param "CAM_ISO")) (stoi-to_string v fits),
  )
