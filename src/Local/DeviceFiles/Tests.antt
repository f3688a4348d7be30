-- ===== src/Local/DeviceFiles/Tests.antt =====
-- A device's files at work.
use mavcam.Prelude.{◌≡◌, refl, ℕ, some, none, List, String, [], ◌∷◌, ◌++◌, ltb, arith}
use mavcam.Prelude.Int.{pos, negsuc}
use mavcam.Local.Information.{PreviewStream}
use mavcam.Local.DeviceFiles.{
  property_value, product_brand_from_device, product_name_from_device, sdk_version,
  definition_version, parse_int32,
}
use mavcam.Local.DeviceFiles.Stream.{stream_mode, read_preview_stream_from_device}
use mavcam.Local.DeviceFiles.InRange.{IsStreamable, preview_stream_stays-IsStreamable}
use mavcam.Local.DeviceFiles.ReadBack.{HasNoValue, product_text_read_back}

version_two : sdk_version "SDK_VERSION=v1.12\r" ≡ some "1.12"
unfolding sdk_version
version_two = refl

version_three : sdk_version "SDK_VERSION=2.0.7" ≡ some "2.0.7"
unfolding sdk_version
version_three = refl

version_none : sdk_version "SDK_VERSION=2.0.7-rc1" ≡ none
unfolding sdk_version
version_none = refl

definition_found : definition_version "  <definition version=\"17\" a=\"b\"> " ≡ some (pos 17)
unfolding definition_version
definition_found = refl

int_smallest : parse_int32 "-2147483648" ≡ some (negsuc 2147483647)
unfolding parse_int32
int_smallest = refl

int_too_large : parse_int32 "2147483648" ≡ none
unfolding parse_int32
int_too_large = refl

mode_found : stream_mode " 1920x1080@29.97\n" ≡ some ("1920", "1080", "29.97")
unfolding stream_mode
mode_found = refl

no_brand : HasNoValue "PRODUCTBRAND=" ("# device" ∷ [])
unfolding HasNoValue property_value
no_brand = (refl, tt)

no_name :
    HasNoValue "PRODUCTNAME=" (("# device" ∷ []) ++ "PRODUCTBRAND=Acme\r" ∷ "PRODUCTNAME=" ∷ [])
unfolding HasNoValue property_value
no_name = (refl, (refl, (refl, tt)))

abbrev product_file : List String
product_file =
    (("# device" ∷ []) ++ "PRODUCTBRAND=Acme\r" ∷ "PRODUCTNAME=" ∷ [])
    ++ "PRODUCTNAME=C10\r" ∷ "PRODUCTNAME=C11" ∷ []

product_text_read_back_example :
    (product_brand_from_device (some product_file) ≡ "Acme")
    × (product_name_from_device (some product_file) ≡ "C10")
product_text_read_back_example =
    product_text_read_back "Acme" "C10" ("# device" ∷ []) ("PRODUCTNAME=" ∷ [])
      ("PRODUCTNAME=C11" ∷ []) refl refl no_brand no_name

abbrev stream : PreviewStream ℕ
stream = record {
  frame_rate = 30;
  width = 1280;
  height = 720;
  bitrate = 2000000;
  rtsp_ip = "192.168.1.1";
}

abbrev rate : String → ℕ
rate text = 60

stream-IsStreamable : IsStreamable rate (ltb 0) stream
unfolding IsStreamable
stream-IsStreamable =
    ((omega arith, omega arith), (omega arith, omega arith), (omega arith, omega arith), refl)

preview_stream_stays-IsStreamable_example :
    IsStreamable rate
      (ltb 0)
      (read_preview_stream_from_device rate (ltb 0) (some "1920x1080@60") (some "0\n") stream)
preview_stream_stays-IsStreamable_example =
    preview_stream_stays-IsStreamable rate (ltb 0) (some "1920x1080@60") (some "0\n") stream
      stream-IsStreamable
