-- ===== src/Camera/Tests.antt =====
-- Comparing and printing at work; a float is a number, or none where it is not a number.
use mavcam.Prelude.{◌≡◌, refl, ℕ, Bool, true, false, Option, none, some, [], ◌==◌}
use mavcam.Camera.Types.{Setting, SettingOptions, EulerAngle}
use mavcam.Camera.Field.{FloatOps}
use mavcam.Camera.Compare.{equal_euler_angle}
use mavcam.Camera.Print.{print_setting, print_setting_options}

abbrev equal_numbers : Option ℕ → Option ℕ → Bool
equal_numbers (some a) (some b) = a == b
equal_numbers _ _ = false

abbrev nan : Option ℕ → Bool
nan none = true
nan (some a) = false

abbrev numbers : FloatOps (Option ℕ)
numbers = record { equal = equal_numbers; is_nan = nan }

abbrev level : EulerAngle (Option ℕ)
level = record { roll_deg = none; pitch_deg = some 0; yaw_deg = some 90 }

level_equals_itself : equal_euler_angle numbers level level ≡ true
unfolding equal_euler_angle
level_equals_itself = refl

abbrev iso : Setting
iso = record {
  setting_id = "CAM_ISO";
  setting_description = "";
  option = record { option_id = "100"; option_description = "" };
  is_range = false;
}

iso_printed :
    print_setting iso
    ≡ "setting:\n{\n    setting_id: CAM_ISO\n    setting_description: \n    option: option:\n{\n    option_id: 100\n    option_description: \n}\n    is_range: 0\n}"
unfolding print_setting
iso_printed = refl

abbrev no_options : SettingOptions
no_options = record { setting_id = "A"; setting_description = ""; options = []; is_range = false }

-- The bracket stays open.
no_options_printed :
    print_setting_options no_options
    ≡ "setting_options:\n{\n    setting_id: A\n    setting_description: \n    options: [    is_range: 0\n}"
unfolding print_setting_options
no_options_printed = refl
