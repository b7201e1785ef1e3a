-- ===== src/IoMapper/Safety/Config.antt =====
-- Safe configurations of the mapper, and what it may hand on.
use ni_traktor_kontrol_f.Base.{ℕ, ◌<◌, if◌then◌else◌, Bool, true, false, Option, none, some, All}
use ni_traktor_kontrol_f.F1Device.Output.Sendable.{IsSendable, IsBright, IsBrightColor}
use ni_traktor_kontrol_f.MidiEvent.Types.{MidiEvent}
use ni_traktor_kontrol_f.MidiEvent.Parse.RoundTrip.{IsVoice}
use ni_traktor_kontrol_f.IoMapper.Floats.{Floats, FloatLaws}
use ni_traktor_kontrol_f.IoMapper.Types.{LastInput}
use ni_traktor_kontrol_f.IoMapper.Hid.{Mapper, HidResult}
use ni_traktor_kontrol_f.IoMapper.Hid.Valid.{IsValid, HasLast, remember-IsValid}

abbrev pub Is7Bit : ℕ → Type 0
Is7Bit v = v < 128

module _ (fl : Floats) (laws : FloatLaws fl) where
  -- A configuration within the ranges of the device and of MIDI: brightness and data in 7 bits,
  -- factors from 0 to 1, a channel in 4 bits.
  pub record IsSafe (m : Mapper fl) : Type 0 where
    pub valid : IsValid m
    pub colors : All IsBrightColor m.matrix_colors
    pub low_color : laws.IsUnit m.brightness_low_color
    pub high_color : laws.IsUnit m.brightness_high_color
    pub low : IsBright m.brightness_low
    pub high : IsBright m.brightness_high
    pub channel : m.out_channel < 16
    pub on_velocity : Is7Bit m.note_on_velocity
    pub off_velocity : Is7Bit m.note_off_velocity
    pub matrix_notes : All Is7Bit m.notes.matrix
    pub special_notes : All Is7Bit m.notes.special
    pub stop_notes : All Is7Bit m.notes.stop
    pub knob_controllers : All Is7Bit m.controllers.knobs
    pub fader_controllers : All Is7Bit m.controllers.faders
    pub wheel_controller : Is7Bit m.controllers.wheel
    pub wheel_dec : Is7Bit m.wheel_dec_value
    pub wheel_inc : Is7Bit m.wheel_inc_value

  abbrev pub IsSent : Option MidiEvent → Type 0
  IsSent none = Unit
  IsSent (some e) = IsVoice e

  -- What is handed on: a proper event or none, a safe mapper, and an output state for the device.
  abbrev pub IsSafeResult : HidResult fl → Type 0
  IsSafeResult r = IsSent r.0 × IsSafe r.1 × IsSendable r.2

  -- A safe mapper stays safe when it remembers an input.
  pub remember-IsSafe :
      (m : Mapper fl) (l : LastInput) → IsSafe m → HasLast l → IsSafe (record m { last_input = l })
  remember-IsSafe m l s v = record {
    valid = remember-IsValid m l v s.valid;
    colors = s.colors;
    low_color = s.low_color;
    high_color = s.high_color;
    low = s.low;
    high = s.high;
    channel = s.channel;
    on_velocity = s.on_velocity;
    off_velocity = s.off_velocity;
    matrix_notes = s.matrix_notes;
    special_notes = s.special_notes;
    stop_notes = s.stop_notes;
    knob_controllers = s.knob_controllers;
    fader_controllers = s.fader_controllers;
    wheel_controller = s.wheel_controller;
    wheel_dec = s.wheel_dec;
    wheel_inc = s.wheel_inc;
  }

  pub factor :
      (m : Mapper fl) (on : Bool)
      → IsSafe m
      → laws.IsUnit (if on then m.brightness_high_color else m.brightness_low_color)
  factor m true s = s.high_color
  factor m false s = s.low_color

  pub level :
      (m : Mapper fl) (on : Bool)
      → IsSafe m
      → IsBright (if on then m.brightness_high else m.brightness_low)
  level m true s = s.high
  level m false s = s.low

  pub inc_or_dec :
      (m : Mapper fl) (b : Bool)
      → IsSafe m
      → Is7Bit (if b then m.wheel_inc_value else m.wheel_dec_value)
  inc_or_dec m true s = s.wheel_inc
  inc_or_dec m false s = s.wheel_dec
