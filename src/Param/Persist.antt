-- ===== src/Param/Persist.antt =====
-- What is stored survives a restart.
use mavcam.Prelude.{
  ◌≡◌, refl, Bool, true, false, ◌&&◌, some, String, insert, lookup-insert, str_eq, if◌then◌else◌,
  arith,
}
use mavcam.Param.{JsonText, Param, get_value, set_value, load}

-- set_value answers whether the file could be opened. If so, the key has the value and every other key
-- keeps its own, and a restart that reads the file finds the same values; if not, every key keeps its
-- value, and a restart finds what it found before. The JSON reader is taken to read back the
-- text that the writer makes of the new values.
pub set_value_persists :
    (json : JsonText) (opens : Bool) (key value other : String) (p : Param)
    → json.read (json.write (insert key value p.root)) ≡ some (insert key value p.root)
    → let (ok, q) = set_value json opens key value p in
      (ok ≡ opens)
      × (get_value other q ≡ (if opens && str_eq key other then value else get_value other p))
      × (get_value other (load json true q.file)
          ≡ (if opens then get_value other q else get_value other (load json true p.file)))
unfolding set_value get_value load
set_value_persists json true key value other p law =
    (refl, ground (arith, lookup-insert key other value p.root), rw law)
set_value_persists json false key value other p law = (refl, refl, refl)
