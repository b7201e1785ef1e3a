-- ===== src/IoMapper/Types.antt =====
-- The configuration and the state of the mapper.
use ni_traktor_kontrol_f.Base.{ℕ, Bool, false, List, [], ◌∷◌, replicate, tabulate}
use ni_traktor_kontrol_f.F1Device.Types.{Brightness, ButtonColor, white}
use ni_traktor_kontrol_f.IoMapper.Floats.{Floats}

abbrev pub midi_max : ℕ
midi_max = 127

pub data BrightnessMode : Type 0 where
  midi_note midi_cc hid : BrightnessMode

-- One value for each button of the three groups.
pub record PerButton (A : Type 0) : Type 0 where
  pub matrix : List A
  pub special : List A
  pub stop : List A

pub record Controllers : Type 0 where
  pub knobs : List ℕ
  pub faders : List ℕ
  pub wheel : ℕ

pub record LastInput : Type 0 where
  pub matrix : List Bool
  pub special : List Bool
  pub stop : List Bool
  pub fader : List ℕ
  pub knob : List ℕ

pub record IoMapper (Float : Type 0) : Type 0 where
  pub button_toggle : PerButton Bool
  pub notes : PerButton ℕ
  pub controllers : Controllers
  pub wheel_dec_value : ℕ
  pub wheel_inc_value : ℕ
  pub brightness_mode : PerButton BrightnessMode
  pub brightness_controllers : PerButton ℕ
  pub matrix_colors : List ButtonColor
  pub brightness_low_color : Float
  pub brightness_high_color : Float
  pub brightness_low : Brightness
  pub brightness_high : Brightness
  pub out_channel : ℕ
  pub in_channel : ℕ
  pub note_on_velocity : ℕ
  pub note_off_velocity : ℕ
  pub last_input : LastInput

-- `IOMapper{}`. The notes run upwards in semitones.
unfoldable pub default_mapper : (fl : Floats) → IoMapper fl.Float
default_mapper fl = record {
  button_toggle = record {
    matrix = replicate 16 false;
    special = replicate 9 false;
    stop = replicate 4 false;
  };
  notes = record {
    matrix = tabulate 16 24 (λ n. n);
    special = tabulate 9 40 (λ n. n);
    stop = tabulate 4 49 (λ n. n);
  };
  controllers = record {
    knobs = 33 ∷ 34 ∷ 35 ∷ 36 ∷ [];
    faders = 37 ∷ 38 ∷ 39 ∷ 40 ∷ [];
    wheel = 41;
  };
  wheel_dec_value = 0x00;
  wheel_inc_value = 0x7f;
  brightness_mode = record {
    matrix = replicate 16 hid;
    special = replicate 9 hid;
    stop = replicate 4 hid;
  };
  brightness_controllers = record {
    matrix = tabulate 16 70 (λ n. n);
    special = tabulate 9 86 (λ n. n);
    stop = tabulate 4 102 (λ n. n);
  };
  matrix_colors = replicate 16 white;
  brightness_low_color = fl.one_fifth;
  brightness_high_color = fl.one;
  brightness_low = 0x29;
  brightness_high = 0x7f;
  out_channel = 0;
  in_channel = 1;
  note_on_velocity = 127;
  note_off_velocity = 0;
  last_input = record {
    matrix = replicate 16 false;
    special = replicate 9 false;
    stop = replicate 4 false;
    fader = replicate 4 0;
    knob = replicate 4 0;
  };
}
