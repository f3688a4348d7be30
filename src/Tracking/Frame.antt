-- ===== src/Tracking/Frame.antt =====
-- Tracking frames and TrackingServer::parse_line of src/tracking/tracking_server.cpp. The JSON reader
-- is the jsoncpp library: a parameter, whose accessors give `none` where jsoncpp throws.
use mavcam.Prelude.{
  ℕ, ◌%◌, ◌-◌, ◌^◌, ◌≡◌, Bool, Option, none, some, String, List, [], ◌∷◌, ltb, if◌then◌else◌,
  length, arith,
}
use mavcam.Prelude.Int.{ℤ, pos, negsuc, eqb}

pub record TrackingObject : Type 0 where
  pub name : String
  pub x : ℤ
  pub y : ℤ
  pub width : ℤ
  pub height : ℤ

pub record TrackingFrame : Type 0 where
  pub stream_id : ℤ
  pub frame_id : ℤ
  pub object_count : ℤ
  pub objects : List TrackingObject

-- `TrackingFrame{}`
abbrev pub empty_frame : TrackingFrame
empty_frame = record { stream_id = pos 0; frame_id = pos 0; object_count = pos 0; objects = [] }

-- Json::Value and its reader. `parse` is CharReader::parse; `member` is operator[] with a name, and
-- `is_member`, `as_int` and `as_string` are the accessors of the same names.
pub record Json (V : Type 0) : Type 0 where
  pub parse : List ℕ → Option V
  pub member : V → String → Option V
  pub is_member : V → String → Option Bool
  pub as_int : V → Option ℤ
  pub as_string : V → Option String
  pub is_array : V → Bool
  pub elements : V → List V

-- A computation that an exception may end.
infixl 5 ◌>>=◌
abbrev pub ◌>>=◌ {ℓ κ} : {A : Type ℓ} {B : Type κ} → Option A → (A → Option B) → Option B
none >>= f = none
some a >>= f = f a

-- static_cast<int32_t>(n) of a size_t.
abbrev pub int32_of_size : ℕ → ℤ
int32_of_size n =
    let low = n % 2 ^ 32 in if ltb low (2 ^ 31) then pos low else negsuc (2 ^ 32 - 1 - low)

module _ {V : Type 0} (j : Json V) where
  -- `value[name].asInt()`
  unfoldable pub int_member : V → String → Option ℤ
  int_member v name = do w ← j.member v name; j.as_int w

  unfoldable pub read_dimension : V → String → String → Option ℤ
  unfolding int_member
  read_dimension position short_key long_key = do
    short ← j.is_member position short_key
    if short then int_member position short_key else int_member position long_key

  -- One round of the loop over `root["objects"]`.
  unfoldable pub parse_object : V → Option TrackingObject
  unfolding int_member read_dimension
  parse_object object = do
    position ← j.member object "position"
    name_value ← j.member object "name"
    name ← j.as_string name_value
    x ← int_member position "x"
    y ← int_member position "y"
    width ← read_dimension position "w" "width"
    height ← read_dimension position "h" "height"
    some (record { name = name; x = x; y = y; width = width; height = height })

  unfoldable pub parse_objects : List V → Option (List TrackingObject)
  parse_objects [] = some []
  parse_objects (object ∷ objects) =
      parse_object object >>= λ o. parse_objects objects >>= λ os. some (o ∷ os)

  -- `root["objects"]` is an array: the frame has its objects, and counts them.
  unfoldable pub array_frame : ℤ → ℤ → List V → Option (Option TrackingFrame)
  unfolding parse_objects
  array_frame stream_id frame_id objects = do
    parsed ← parse_objects objects
    some (
        some (record {
          stream_id = stream_id;
          frame_id = frame_id;
          object_count = int32_of_size (length parsed);
          objects = parsed;
        }))

  -- After a successful `reader->parse`: `none` is an exception, `some none` is `false`.
  unfoldable pub parse_root : V → Option (Option TrackingFrame)
  unfolding int_member array_frame
  parse_root root = do
    stream_id ← int_member root "stream_id"
    frame_id ← int_member root "frame_id"
    object_count ← int_member root "object_count"
    objects ← j.member root "objects"
    let bare : TrackingFrame = record {
      stream_id = stream_id;
      frame_id = frame_id;
      object_count = object_count;
      objects = [];
    }
    let no_array : Option TrackingFrame = if eqb object_count (pos 0) then some bare else none
    if j.is_array objects
        then array_frame stream_id frame_id (j.elements objects)
        else some no_array

  -- parse_line: `some none` also where the reader finds no JSON.
  unfoldable pub parse_line : List ℕ → Option (Option TrackingFrame)
  unfolding parse_root
  parse_line line = elim (j.parse line) [ none ↦ some none | some root ↦ parse_root root ]

-- How many objects a parsed frame has is what its `object_count` says.
abbrev pub IsCounted : TrackingFrame → Type 0
IsCounted f = f.object_count ≡ int32_of_size (length f.objects)

module _ {V : Type 0} (j : Json V) where
  -- Whatever line and JSON reader, a frame that parse_line accepts counts its objects exactly (as an
  -- int32_t), also where the line has no array of objects.
  pub parse_line-IsCounted :
      (line : List ℕ) (f : TrackingFrame) → parse_line j line ≡ some (some f) → IsCounted f
  unfolding parse_line
  parse_line-IsCounted line f h = ground arith
