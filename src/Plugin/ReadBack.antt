-- ===== src/Plugin/ReadBack.antt =====
-- What the camera plugin reads back of the white balance and the video resolution that it has set.
use mavcam.Prelude.{
  ◌≡◌, ℕ, Bool, true, false, ◌||◌, String, some, str_eq, if◌then◌else◌, inl, inr, Bool-cases, arith,
  refl, eq_iff,
}
use mavcam.Prelude.Int.{ℤ, pos, eqb}
use mavcam.Results.{MavResult}
use mavcam.Plugin.{
  Plugin, PluginDevice, set_whitebalance_mode, whitebalance_text, get_whitebalance_mode, video_size,
  video_text, set_video_resolution, get_video_resolution,
}

-- The values that the menu offers.
abbrev pub is_whitebalance : String → Bool
is_whitebalance mode =
    str_eq mode "0"
    || str_eq mode "1"
    || str_eq mode "2"
    || str_eq mode "3"
    || str_eq mode "4"
    || str_eq mode "5"

abbrev pub is_video_resolution : String → Bool
is_video_resolution value =
    str_eq value "0" || str_eq value "1" || str_eq value "2" || str_eq value "3"

-- The automatic white balance is none of the temperatures.
abbrev pub is_temperature : ℤ → Bool
is_temperature n =
    eqb n (pos 5500) || eqb n (pos 6500) || eqb n (pos 7500) || eqb n (pos 2700) || eqb n (pos 4000)

-- To show a property of a value of the menu: show it of the first, or else of the rest.
first_or : (P : String → Type 0) (v mode : String) → P v → (str_eq mode v ≡ false → P mode) → P mode
first_or P v mode p rest = elim (Bool-cases (str_eq mode v)) [
  | inl e ↦ (let q : mode ≡ v = ground (arith, eq_iff mode v) in rw q p)
  | inr e ↦ rest e
]

module _ {W F : Type 0} (d : PluginDevice W F) where
  -- The camera gives back the white balance that it has just taken.
  abbrev pub ReportsWhitebalance : Type 0
  ReportsWhitebalance =
      (n : ℤ) (w : W) → (d.get_white_balance (d.set_white_balance n w).1).0 ≡ (MavResult.success, n)

  -- The camera gives back the size and the frame rate that it has just taken.
  abbrev pub ReportsVideo : Type 0
  ReportsVideo =
      (width height framerate : ℕ) (w : W)
      → let w' = (d.set_framerate framerate (d.set_video_resolution width height w).1).1 in
        ((d.get_video_resolution w').0 ≡ (MavResult.success, width, height))
        × ((d.get_framerate (d.get_video_resolution w').1).0 ≡ (MavResult.success, framerate))

  abbrev balance_of : String → ℤ
  balance_of mode =
      if str_eq mode "0"
      then d.auto_whitebalance
      else if str_eq mode "1"
      then pos 5500
      else if str_eq mode "2"
      then pos 6500
      else if str_eq mode "3"
      then pos 7500
      else if str_eq mode "4"
      then pos 2700
      else pos 4000

  set_whitebalance_mode-world :
      (mode : String) (p p' : Plugin W F) (ok : Bool)
      → is_whitebalance mode ≡ true
      → set_whitebalance_mode d mode p ≡ some (ok, p')
      → p'.world ≡ (d.set_white_balance (balance_of mode) p.world).1
  unfolding set_whitebalance_mode
  set_whitebalance_mode-world mode p p' ok h sets = ground arith

  eqb_refl : (n : ℤ) → eqb n n ≡ true
  eqb_refl (pos a) = ground arith
  eqb_refl (ℤ.negsuc a) = ground arith

  whitebalance_text-balance_of :
      (mode : String)
      → is_whitebalance mode ≡ true
      → is_temperature d.auto_whitebalance ≡ false
      → whitebalance_text d (balance_of mode) ≡ mode
  unfolding whitebalance_text
  whitebalance_text-balance_of mode h t =
      first_or P "0" mode (ground (arith, eqb_refl d.auto_whitebalance)) λ a.
        first_or P "1" mode (ground arith) λ b. first_or P "2" mode (ground arith) λ c.
          first_or P "3" mode (ground arith) λ e.
            first_or P "4" mode (ground arith)
              λ f. first_or P "5" mode (ground arith) λ g. absurd (ground arith)
    where
      P : String → Type 0
      P m = whitebalance_text d (balance_of m) ≡ m

  -- Each mode of the white balance that the menu offers is read back after it was set, if the camera
  -- gives back what it has taken and its automatic value is none of the temperatures.
  pub whitebalance_read_back :
      (mode : String) (p p' : Plugin W F) (ok : Bool)
      → is_whitebalance mode ≡ true
      → is_temperature d.auto_whitebalance ≡ false
      → ReportsWhitebalance
      → set_whitebalance_mode d mode p ≡ some (ok, p')
      → get_whitebalance_mode d p'.world ≡ mode
  unfolding get_whitebalance_mode
  whitebalance_read_back mode p p' ok h t law sets =
      let e = set_whitebalance_mode-world mode p p' ok h sets in
      let r = law (balance_of mode) p.world in
      let w = whitebalance_text-balance_of mode h t in rw e (rw r w)

  video_text-video_size :
      (value : String)
      → is_video_resolution value ≡ true
      → let (width, height, framerate) = video_size d value in
        video_text d width height framerate ≡ value
  unfolding video_size video_text
  video_text-video_size value h = first_or P "0" value refl λ a.
      first_or P "1" value refl
        λ b. first_or P "2" value refl λ c. first_or P "3" value refl λ e. absurd (ground arith)
    where
      P : String → Type 0
      P v =
          let (width, height, framerate) = video_size d v in video_text d width height framerate ≡ v

  -- Each video resolution that the menu offers is read back after it was set, if the camera gives back
  -- the size and the frame rate that it has taken.
  pub video_resolution_read_back :
      (value : String) (p p' : Plugin W F) (ok : Bool)
      → is_video_resolution value ≡ true
      → ReportsVideo
      → set_video_resolution d value p ≡ some (ok, p')
      → get_video_resolution d p'.world ≡ value
  unfolding get_video_resolution set_video_resolution
  video_resolution_read_back value p p' ok h law sets =
      let (width, height, framerate) = video_size d value in
      let (sized, rated) = law width height framerate p.world in
      let reached : p'.world
          ≡ (d.set_framerate framerate (d.set_video_resolution width height p.world).1).1 =
        ground arith in
      rw reached (rw (sized, rated) (video_text-video_size value h))
