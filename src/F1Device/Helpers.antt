-- ===== src/F1Device/Helpers.antt =====
-- The static helpers of `F1Device`: coordinates, colours, the 7-segment coding and the test for the
-- device's ids (driver/src/tkf1/F1Device.{hpp,cpp}).
pub mod Laws
use Prim.Native.String.{String}
use ni_traktor_kontrol_f.Base.{
  ℕ, ◌+◌, ◌-◌, ◌*◌, ◌/◌, ◌%◌, ◌==◌, leb, if◌then◌else◌, Bool, ◌&&◌, Result, ok, err, out_of_range,
  assert_failed, ◌>>=◌,
}
use ni_traktor_kontrol_f.F1Device.SegmentChar.{SegmentChar, d0, d1, d2, d3, d4, d5, d6, d7, d8, d9}
use ni_traktor_kontrol_f.F1Device.Types.{Brightness, ButtonColor, max_segment_num}

-- `hidraw_devinfo`'s ids, as the bit patterns of its `__s16` members.
pub record DevInfo : Type 0 where
  pub vendor : ℕ
  pub product : ℕ

unfoldable pub is_f1_device : DevInfo → Bool
is_f1_device d = d.product == 0x1120 && d.vendor == 0x17cc

unfoldable pub matrix_pos : ℕ → ℕ → ℕ
matrix_pos x y = (y * 4 + x) % 256

unfoldable pub special_btn_name : ℕ → String
special_btn_name i =
    if i == 0
    then "WHEEL"
    else if i == 1
    then "BROWSE"
    else if i == 2
    then "SIZE"
    else if i == 3
    then "TYPE"
    else if i == 4
    then "REVERSE"
    else if i == 5
    then "SHIFT"
    else if i == 6
    then "CAPTURE"
    else if i == 7
    then "QUANT"
    else if i == 8
    then "SYNC"
    else "UNKNOWN"

unfoldable pub color2rgb : ButtonColor → Brightness × Brightness × Brightness
color2rgb (b, r, g) = (r, g, b)

unfoldable pub rgb2color : Brightness → Brightness → Brightness → ButtonColor
rgb2color r g b = (b, r, g)

unfoldable pub digit_to_segment : ℕ → Result SegmentChar
digit_to_segment d =
    if d == 0
    then ok d0
    else if d == 1
    then ok d1
    else if d == 2
    then ok d2
    else if d == 3
    then ok d3
    else if d == 4
    then ok d4
    else if d == 5
    then ok d5
    else if d == 6
    then ok d6
    else if d == 7
    then ok d7
    else if d == 8
    then ok d8
    else if d == 9
    then ok d9
    else err assert_failed

unfoldable pub num_to_segments : ℕ → Result (SegmentChar × SegmentChar)
num_to_segments num = if leb max_segment_num num then err out_of_range else do
  let hi_digit = num / 10
  let lo_digit = num - hi_digit * 10
  hi ← digit_to_segment hi_digit
  lo ← digit_to_segment lo_digit
  ok (hi, lo)
