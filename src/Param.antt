-- ===== src/Param.antt =====
-- The store of the camera's parameters: src/camera_param/camera_param.cc. The JSON text of the file is
-- jsoncpp's: a parameter.
pub mod Persist
mod Tests
use mavcam.Prelude.{
  ◌≡◌, Bool, true, false, Option, none, some, String, List, [], ◌∷◌, ℕ, Dict, insert, at,
  if◌then◌else◌,
}

-- jsoncpp's writer and reader of an object of texts; the reader fails on a text that is no object.
pub record JsonText : Type 0 where
  pub write : Dict → List ℕ
  pub read : List ℕ → Option Dict

-- CameraParam: `_root`, with the bytes of the file at kDefaultStorePath.
pub record Param : Type 0 where
  pub root : Dict
  pub file : List ℕ

-- CameraParam::get_value: a missing key reads as the empty text, and so does the null that jsoncpp's
-- operator[] then leaves under it.
unfoldable pub get_value : String → Param → String
get_value key p = at key p.root

-- CameraParam::set_value. `opens` says whether the file could be opened for writing.
unfoldable pub set_value : JsonText → Bool → String → String → Param → Bool × Param
set_value json opens key value p =
    if opens then (true, record p { root = root; file = json.write root }) else (false, p)
  where
    root : Dict
    root = insert key value p.root

or_nothing : Option Dict → Dict
or_nothing none = []
or_nothing (some root) = root

-- The constructor, on a file that could be opened or not.
unfoldable pub load : JsonText → Bool → List ℕ → Param
unfolding or_nothing
load json opens file =
    if opens
    then record { root = or_nothing (json.read file); file = file }
    else record { root = []; file = file }
