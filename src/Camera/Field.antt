-- ===== src/Camera/Field.antt =====
-- How operator== of src/mav_server/plugins/camera/camera.cpp compares the fields of a record.
use mavcam.Prelude.{ℕ, Bool, true, false, ◌&&◌, ◌||◌, String, List, [], ◌∷◌, ◌==◌, str_eq}
use mavcam.Prelude.Int.{ℤ, eqb}

-- == and std::isnan of a type of floats.
pub record FloatOps (F : Type 0) : Type 0 where
  pub equal : F → F → Bool
  pub is_nan : F → Bool

abbrev pub same : {F : Type 0} → FloatOps F → F → F → Bool
same ops rhs lhs = (ops.is_nan rhs && ops.is_nan lhs) || ops.equal rhs lhs

abbrev pub same_bool : Bool → Bool → Bool
same_bool true b = b
same_bool false true = false
same_bool false false = true

-- Values of an enum class are compared by their numbers.
abbrev pub same_enum : {A : Type 0} → (A → ℕ) → A → A → Bool
same_enum number a b = number a == number b

-- == of std::vector.
abbrev pub same_list : {A : Type 0} → (A → A → Bool) → List A → List A → Bool
same_list eq [] [] = true
same_list eq (a ∷ rest) (b ∷ others) = eq a b && same_list eq rest others
same_list eq _ _ = false

-- How one field is compared, `rhs.field == lhs.field`; `part` is any other comparison.
pub data Field (F A : Type 0) : Type 0 where
  number : (A → ℕ) → Field F A
  integer : (A → ℤ) → Field F A
  flag : (A → Bool) → Field F A
  text : (A → String) → Field F A
  float : (A → F) → Field F A
  part : (A → A → Bool) → Field F A

abbrev pub by : {A B : Type 0} → (A → B) → (B → B → Bool) → A → A → Bool
by field eq lhs rhs = eq (field rhs) (field lhs)

abbrev pub same_field : {F A : Type 0} → FloatOps F → Field F A → A → A → Bool
same_field ops (Field.number field) = by field ◌==◌
same_field ops (Field.integer field) = by field eqb
same_field ops (Field.flag field) = by field same_bool
same_field ops (Field.text field) = by field str_eq
same_field ops (Field.float field) = by field (same ops)
same_field ops (Field.part eq) = eq

abbrev pub all_of : {F A : Type 0} → FloatOps F → List (Field F A) → A → A → Bool
all_of ops [] lhs rhs = true
all_of ops (f ∷ fs) lhs rhs = same_field ops f lhs rhs && all_of ops fs lhs rhs
