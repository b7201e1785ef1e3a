-- ===== src/F1Device/Types.antt =====
-- The data of driver/src/tkf1/F1Device.hpp. Arrays and bitsets are lists, whose lengths `HasShape`
-- states; bytes and 16-bit words are numbers.
use ni_traktor_kontrol_f.Base.{ℕ, ◌≡◌, ◌<◌, Bool, List, length, replicate, All, ℤ}
use ni_traktor_kontrol_f.F1Device.SegmentChar.{SegmentChar, blank}

abbrev pub Brightness : Type 0
Brightness = ℕ

-- In the order of the device: blue, red, green.
abbrev pub ButtonColor : Type 0
ButtonColor = Brightness × Brightness × Brightness

abbrev pub output_report_id : ℕ
output_report_id = 0x80

abbrev pub input_report_id : ℕ
input_report_id = 0x01

abbrev pub output_report_size : ℕ
output_report_size = 81

abbrev pub input_report_size : ℕ
input_report_size = 22

abbrev pub matrix_buttons_num : ℕ
matrix_buttons_num = 16

abbrev pub special_buttons_num : ℕ
special_buttons_num = 9

abbrev pub stop_buttons_num : ℕ
stop_buttons_num = 4

abbrev pub knobs_num : ℕ
knobs_num = 4

abbrev pub faders_num : ℕ
faders_num = 4

abbrev pub segments_per_display : ℕ
segments_per_display = 8

abbrev pub knobs_max : ℕ
knobs_max = 0xfff

abbrev pub faders_max : ℕ
faders_max = 0xfff

abbrev pub max_segment_num : ℕ
max_segment_num = 100

abbrev pub max_brightness : ℕ
max_brightness = 128

abbrev pub dark : Brightness
dark = 0x00

abbrev pub full_brightness : Brightness
full_brightness = 0x7f

abbrev pub black : ButtonColor
black = (dark, dark, dark)

abbrev pub white : ButtonColor
white = (full_brightness, full_brightness, full_brightness)

pub record InputState : Type 0 where
  pub report_id : ℕ
  pub matrix_btns : List Bool
  pub special_btns : List Bool
  pub stop_btns : List Bool
  pub wheel : ℕ
  pub knobs : List ℕ
  pub faders : List ℕ

-- The extents of the members, which C++ fixes in their types.
pub record HasShape (s : InputState) : Type 0 where
  pub matrix_16 : length s.matrix_btns ≡ matrix_buttons_num
  pub special_9 : length s.special_btns ≡ special_buttons_num
  pub stop_4 : length s.stop_btns ≡ stop_buttons_num
  pub knobs_4 : length s.knobs ≡ knobs_num
  pub faders_4 : length s.faders ≡ faders_num

-- The ranges of the members' types, `std::uint16_t` and `std::uint8_t`.
pub record InRange (s : InputState) : Type 0 where
  pub wheel_byte : s.wheel < 256
  pub knob_words : All (λ v. v < 65536) s.knobs
  pub fader_words : All (λ v. v < 65536) s.faders

pub data EventType : Type 0 where
  button_event encoder_event : EventType

pub data InputType : Type 0 where
  matrix stop special knob fader wheel : InputType

pub record ButtonEvent : Type 0 where
  pub index : ℕ
  pub button_press : Bool

pub record EncoderEvent : Type 0 where
  pub index : ℕ
  pub value : ℕ

pub record WheelEvent : Type 0 where
  pub direction : ℤ
  pub value : ℕ

-- `std::variant<ButtonEvent, EncoderEvent, WheelEvent>`.
pub data EventData : Type 0 where
  of_button : ButtonEvent → EventData
  of_encoder : EncoderEvent → EventData
  of_wheel : WheelEvent → EventData

pub record InputEvent : Type 0 where
  pub event_type : EventType
  pub input_type : InputType
  pub event_data : EventData

pub record OutputState : Type 0 where
  pub report_id : ℕ
  pub matrix_btns : List ButtonColor
  pub stop_btns : List Brightness
  pub special_btns : List Brightness
  pub segment_left_char : SegmentChar
  pub segment_right_char : SegmentChar
  pub segment_left_dot : Brightness
  pub segment_right_dot : Brightness
  pub segment_left_brightness : Brightness
  pub segment_right_brightness : Brightness

-- `OutputState{}`, by the members' initialisers.
unfoldable pub initial_output : OutputState
initial_output = record {
  report_id = output_report_id;
  matrix_btns = replicate matrix_buttons_num black;
  stop_btns = replicate stop_buttons_num dark;
  special_btns = replicate special_buttons_num dark;
  segment_left_char = blank;
  segment_right_char = blank;
  segment_left_dot = dark;
  segment_right_dot = dark;
  segment_left_brightness = dark;
  segment_right_brightness = dark;
}

-- `F1Device::Impl`, without the file descriptor.
pub record Impl : Type 0 where
  pub input_state : InputState
  pub old_input_state : InputState
  pub output_state : OutputState
  pub in_report : List ℕ
  pub out_report : List ℕ
  pub input_events : List InputEvent
