-- ===== src/Tracking/Control.antt =====
-- The control packet that TrackingServer::send_control_command of src/tracking/tracking_server.cpp
-- builds, and a reader of its layout.
use mavcam.Prelude.{
  ℕ, zero, suc, ◌+◌, ◌*◌, ◌/◌, ◌%◌, ◌^◌, ◌<◌, ◌≡◌, refl, Bool, Option, none, some, List, [], ◌∷◌,
  ◌++◌, if◌then◌else◌, ◌==◌, length, replicate, arith,
}

-- `enable ? 1 : 0`
abbrev pub flag : Bool → ℕ
flag b = if b then 1 else 0

-- The low and the high byte of a uint16_t: `x & 0xff` and `(x >> 8) & 0xff`.
abbrev pub low_byte : ℕ → ℕ
low_byte x = x % 2 ^ 8

abbrev pub high_byte : ℕ → ℕ
high_byte x = (x / 2 ^ 8) % 2 ^ 8

-- The array `packet` of kControlPacketSize bytes.
unfoldable pub control_packet : ℕ → Bool → Bool → ℕ → ℕ → List ℕ
control_packet index detection tracking x y =
    replicate 16 0
    ++ (index
        ∷ low_byte x
        ∷ high_byte x
        ∷ low_byte y
        ∷ high_byte y
        ∷ flag detection
        ∷ flag tracking
        ∷ [])

-- What the packet says: its number, the two switches and the point.
pub record Command : Type 0 where
  pub index : ℕ
  pub detection : Bool
  pub tracking : Bool
  pub x : ℕ
  pub y : ℕ

abbrev read_tail : List ℕ → Option Command
read_tail (i ∷ x0 ∷ x1 ∷ y0 ∷ y1 ∷ d ∷ t ∷ []) = some (record {
  index = i;
  detection = d == 1;
  tracking = t == 1;
  x = x0 + 256 * x1;
  y = y0 + 256 * y1;
})
read_tail _ = none

abbrev skip {ℓ} : {A : Type ℓ} → ℕ → List A → List A
skip zero xs = xs
skip (suc n) [] = []
skip (suc n) (x ∷ xs) = skip n xs

-- A reader of the layout: 16 bytes unused, then the number, the point as two little-endian uint16_t,
-- and the two switches.
abbrev pub read_packet : List ℕ → Option Command
read_packet packet = read_tail (skip 16 packet)

abbrev pub AllBytes : List ℕ → Type 0
AllBytes [] = Unit {0}
AllBytes (b ∷ bs) = (b < 256) × AllBytes bs

-- A control packet of a uint8_t number and a point of two uint16_t is 23 bytes, and the reader finds
-- in it the number, the switches and the point that it was built from.
pub control_packet_round_trip :
    (index : ℕ) (detection tracking : Bool) (x y : ℕ)
    → index < 2 ^ 8
    → x < 2 ^ 16
    → y < 2 ^ 16
    → let packet = control_packet index detection tracking x y in
      (length packet ≡ 23)
      × AllBytes packet
      × (read_packet packet
          ≡ some
              (record { index = index; detection = detection; tracking = tracking; x = x; y = y }))
unfolding control_packet
control_packet_round_trip index detection tracking x y i hx hy = (refl, ground arith, ground arith)
