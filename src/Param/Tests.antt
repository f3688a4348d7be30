-- ===== src/Param/Tests.antt =====
-- The parameter store at work. This JSON library writes a text of one byte per key.
use mavcam.Prelude.{
  ◌≡◌, refl, true, ◌&&◌, some, [], ◌∷◌, Dict, insert, length, str_eq, if◌then◌else◌,
}
use mavcam.Param.{JsonText, Param, get_value, set_value, load}
use mavcam.Param.Persist.{set_value_persists}

abbrev two_keys : Dict
two_keys = ("CAM_ISO", "125") ∷ ("CAM_EV", "0") ∷ []

abbrev small_json : JsonText
small_json = record { write = λ m. length m ∷ []; read = λ bytes. some two_keys }

abbrev stored : Param
stored = record { root = ("CAM_ISO", "100") ∷ ("CAM_EV", "0") ∷ []; file = [] }

read_back :
    small_json.read (small_json.write (insert "CAM_ISO" "125" stored.root))
    ≡ some (insert "CAM_ISO" "125" stored.root)
unfolding insert
read_back = refl

set_value_persists_example :
    let (ok, q) = set_value small_json true "CAM_ISO" "125" stored in
    (ok ≡ true)
    × (get_value "CAM_EV" q
        ≡ (if true && str_eq "CAM_ISO" "CAM_EV" then "125" else get_value "CAM_EV" stored))
    × (get_value "CAM_EV" (load small_json true q.file) ≡ (
        if true
        then get_value "CAM_EV" q
        else get_value "CAM_EV" (load small_json true stored.file)))
set_value_persists_example =
    set_value_persists small_json true "CAM_ISO" "125" "CAM_EV" stored read_back
