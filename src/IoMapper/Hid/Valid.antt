-- ===== src/IoMapper/Hid/Valid.antt =====
-- The extents of the mapper's arrays, which C++ fixes in their types.
use ni_traktor_kontrol_f.Base.{◌≡◌, length}
use ni_traktor_kontrol_f.IoMapper.Types.{IoMapper, PerButton, LastInput}

abbrev pub HasGroups : {A : Type 0} → PerButton A → Type 0
HasGroups p = (length p.matrix ≡ 16) × (length p.special ≡ 9) × (length p.stop ≡ 4)

pub record IsValid {F : Type 0} (m : IoMapper F) : Type 0 where
  pub toggles : HasGroups m.button_toggle
  pub notes : HasGroups m.notes
  pub modes : HasGroups m.brightness_mode
  pub lights : HasGroups m.brightness_controllers
  pub colors_16 : length m.matrix_colors ≡ 16
  pub last_matrix : length m.last_input.matrix ≡ 16
  pub last_special : length m.last_input.special ≡ 9
  pub last_stop : length m.last_input.stop ≡ 4
  pub last_fader : length m.last_input.fader ≡ 4
  pub last_knob : length m.last_input.knob ≡ 4
  pub knobs_4 : length m.controllers.knobs ≡ 4
  pub faders_4 : length m.controllers.faders ≡ 4

abbrev pub HasLast : LastInput → Type 0
HasLast l =
    (length l.matrix ≡ 16)
    × (length l.special ≡ 9)
    × (length l.stop ≡ 4)
    × (length l.fader ≡ 4)
    × (length l.knob ≡ 4)

pub remember-IsValid :
    {F : Type 0} (m : IoMapper F) (l : LastInput)
    → HasLast l
    → IsValid m
    → IsValid (record m { last_input = l })
remember-IsValid m l n v = record {
  toggles = v.toggles;
  notes = v.notes;
  modes = v.modes;
  lights = v.lights;
  colors_16 = v.colors_16;
  last_matrix = n.0;
  last_special = n.1;
  last_stop = n.2;
  last_fader = n.3;
  last_knob = n.4;
  knobs_4 = v.knobs_4;
  faders_4 = v.faders_4;
}
