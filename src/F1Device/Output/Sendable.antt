-- ===== src/F1Device/Output/Sendable.antt =====
-- The output states that may be sent: what the assertions of update_out_report check.
use ni_traktor_kontrol_f.Base.{refl, arith, ◌<◌, ◌≡◌, length, All}
use ni_traktor_kontrol_f.F1Device.Types.{
  initial_output, ButtonColor, Brightness, OutputState, max_brightness, matrix_buttons_num,
  stop_buttons_num, special_buttons_num,
}

abbrev pub IsBright : Brightness → Type 0
IsBright b = b < max_brightness

abbrev pub IsBrightColor : ButtonColor → Type 0
IsBrightColor c = IsBright c.0 × IsBright c.1 × IsBright c.2

-- The output states that may be sent: arrays of the C++ extents, all brightness in 7 bits. The
-- first special button has no light, but its value is bounded too.
pub record IsSendable (o : OutputState) : Type 0 where
  pub matrix_16 : length o.matrix_btns ≡ matrix_buttons_num
  pub stop_4 : length o.stop_btns ≡ stop_buttons_num
  pub special_9 : length o.special_btns ≡ special_buttons_num
  pub matrix_bright : All IsBrightColor o.matrix_btns
  pub stop_bright : All IsBright o.stop_btns
  pub special_bright : All IsBright o.special_btns
  pub left_bright : IsBright o.segment_left_brightness
  pub right_bright : IsBright o.segment_right_brightness
  pub left_dot_bright : IsBright o.segment_left_dot
  pub right_dot_bright : IsBright o.segment_right_dot

pub initial_output-IsSendable : IsSendable initial_output
unfolding initial_output
initial_output-IsSendable = record {
  matrix_16 = refl;
  stop_4 = refl;
  special_9 = refl;
  matrix_bright = omega arith;
  stop_bright = omega arith;
  special_bright = omega arith;
  left_bright = omega arith;
  right_bright = omega arith;
  left_dot_bright = omega arith;
  right_dot_bright = omega arith;
}
