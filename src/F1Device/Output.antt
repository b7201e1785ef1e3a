-- ===== src/F1Device/Output.antt =====
-- `F1Device::Impl::update_out_report` of driver/src/tkf1/F1Device.cpp: from the output state to the
-- bytes of an output report, and the constructor.
pub mod Sendable
pub mod Layout
pub mod Lights
use ni_traktor_kontrol_f.Base.{
  ℕ, ◌+◌, ◌-◌, ◌*◌, ◌%◌, Bool, List, Result, ok, ◌>>=◌, ◌>>◌, at, set_at, check, ltb, [], replicate,
}
use ni_traktor_kontrol_f.Base.Bits.{bit_of}
use ni_traktor_kontrol_f.Base.Loops.{for_range}
use ni_traktor_kontrol_f.F1Device.SegmentChar.{to_byte}
use ni_traktor_kontrol_f.F1Device.Types.{
  ButtonColor, Brightness, OutputState, Impl, matrix_buttons_num, stop_buttons_num,
  segments_per_display, special_buttons_num, max_brightness, InputState, initial_output,
  input_report_size, output_report_size,
}

-- `out_offsets`.
abbrev pub matrix_offset : ℕ
matrix_offset = 0x19

abbrev pub special_offset : ℕ
special_offset = 0x10

abbrev pub stop1_offset : ℕ
stop1_offset = 0x49

abbrev pub stop2_offset : ℕ
stop2_offset = 0x4a

abbrev pub segment_right_offset : ℕ
segment_right_offset = 0x01

abbrev pub segment_left_offset : ℕ
segment_left_offset = 0x09

-- `assert(b < MAX_BRIGHTNESS)`.
abbrev pub check_brightness : Brightness → Result (Unit {0})
check_brightness b = check (ltb b max_brightness)

pub write_matrix : List ButtonColor → List ℕ → Result (List ℕ)
write_matrix btns = for_range matrix_buttons_num 0 λ i report. do
  color ← at btns i
  let (b, r, g) = color
  check_brightness r
  check_brightness g
  check_brightness b
  report ← set_at report (i * 3 + matrix_offset) b
  report ← set_at report (i * 3 + 1 + matrix_offset) r
  set_at report (i * 3 + 2 + matrix_offset) g

pub write_stop : List Brightness → List ℕ → Result (List ℕ)
write_stop btns = for_range stop_buttons_num 0 λ i report. do
  brightness ← at btns (3 - i)
  check_brightness brightness
  report ← set_at report (i * 2 + stop1_offset) brightness
  set_at report (i * 2 + stop2_offset) brightness

-- The first special button has no light.
pub write_special : List Brightness → List ℕ → Result (List ℕ)
write_special btns = for_range (special_buttons_num - 1) 1 λ i report. do
  brightness ← at btns i
  check_brightness brightness
  set_at report (i + special_offset) brightness

-- Both displays, segment by segment; the dot is bit 0 and is written apart.
pub write_segments : OutputState → List ℕ → Result (List ℕ)
write_segments o = for_range (segments_per_display - 1) 1 λ i report. do
  let left = bit_of (to_byte o.segment_left_char) i * o.segment_left_brightness % 256
  let right = bit_of (to_byte o.segment_right_char) i * o.segment_right_brightness % 256
  report ← set_at report (segment_left_offset + i) left
  set_at report (segment_right_offset + i) right

unfoldable pub write_report : OutputState → List ℕ → Result (List ℕ)
unfolding write_matrix write_stop write_special write_segments
write_report o report = do
  report ← set_at report 0 o.report_id
  report ← write_matrix o.matrix_btns report
  report ← write_stop o.stop_btns report
  report ← write_special o.special_btns report
  check_brightness o.segment_left_brightness
  check_brightness o.segment_right_brightness
  report ← write_segments o report
  check_brightness o.segment_left_dot
  check_brightness o.segment_right_dot
  report ← set_at report segment_left_offset o.segment_left_dot
  set_at report segment_right_offset o.segment_right_dot

unfoldable pub update_out_report : Impl → Result Impl
update_out_report s = do
  out_report ← write_report s.output_state s.out_report
  ok (record s { out_report = out_report })

-- The constructor. The members `input_state` and `old_input_state` have no initialisers: they hold
-- whatever is there.
unfoldable pub construct : (input_state old_input_state : InputState) → Result Impl
unfolding update_out_report
construct input_state old_input_state = update_out_report (record {
  input_state = input_state;
  old_input_state = old_input_state;
  output_state = initial_output;
  in_report = replicate input_report_size 0;
  out_report = replicate output_report_size 0;
  input_events = [];
})
