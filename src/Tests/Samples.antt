-- ===== src/Tests/Samples.antt =====
-- A device at rest, a state in which controls have moved, and the mapper that is used with them.
use ni_traktor_kontrol_f.Base.{true, false, [], ◌∷◌, replicate, refl, arith}
use ni_traktor_kontrol_f.F1Device.Types.{InputState, Impl, HasShape, InRange, initial_output}
use ni_traktor_kontrol_f.F1Device.Events.Device.{InScale}
use ni_traktor_kontrol_f.IoMapper.Types.{default_mapper}
use ni_traktor_kontrol_f.IoMapper.Hid.{Mapper}
use ni_traktor_kontrol_f.IoMapper.Hid.Valid.{IsValid}
use ni_traktor_kontrol_f.IoMapper.Safety.Config.{IsSafe}
use ni_traktor_kontrol_f.Tests.Rationals.{fractions, fraction_laws}

abbrev pub at_rest : InputState
at_rest = record {
  report_id = 1;
  matrix_btns = replicate 16 false;
  special_btns = replicate 9 false;
  stop_btns = replicate 4 false;
  wheel = 255;
  knobs = replicate 4 0;
  faders = replicate 4 0;
}

-- A matrix button and a stop button pressed, the wheel and a fader moved.
abbrev pub moved : InputState
moved = record {
  report_id = 1;
  matrix_btns = false ∷ true ∷ replicate 14 false;
  special_btns = replicate 9 false;
  stop_btns = true ∷ replicate 3 false;
  wheel = 1;
  knobs = replicate 4 0;
  faders = 0 ∷ 0 ∷ 4095 ∷ 0 ∷ [];
}

pub at_rest-HasShape : HasShape at_rest
at_rest-HasShape = record {
  matrix_16 = refl;
  special_9 = refl;
  stop_4 = refl;
  knobs_4 = refl;
  faders_4 = refl;
}

pub moved-HasShape : HasShape moved
moved-HasShape = record {
  matrix_16 = refl;
  special_9 = refl;
  stop_4 = refl;
  knobs_4 = refl;
  faders_4 = refl;
}

pub moved-InRange : InRange moved
moved-InRange = omega arith

pub at_rest-InRange : InRange at_rest
at_rest-InRange = omega arith

pub moved-InScale : InScale moved
moved-InScale = omega arith

abbrev pub some_device : Impl
some_device = record {
  input_state = at_rest;
  old_input_state = at_rest;
  output_state = initial_output;
  in_report = replicate 22 0;
  out_report = replicate 81 0;
  input_events = [];
}

abbrev pub some_mapper : Mapper fractions
some_mapper = default_mapper fractions

pub some_mapper-IsValid : IsValid some_mapper
unfolding default_mapper
some_mapper-IsValid = record {
  toggles = (refl, refl, refl);
  notes = (refl, refl, refl);
  modes = (refl, refl, refl);
  lights = (refl, refl, refl);
  colors_16 = refl;
  last_matrix = refl;
  last_special = refl;
  last_stop = refl;
  last_fader = refl;
  last_knob = refl;
  knobs_4 = refl;
  faders_4 = refl;
}

pub some_mapper-IsSafe : IsSafe fractions fraction_laws some_mapper
unfolding default_mapper
some_mapper-IsSafe = record {
  valid = some_mapper-IsValid;
  colors = omega arith;
  low_color = omega arith;
  high_color = omega arith;
  low = omega arith;
  high = omega arith;
  channel = omega arith;
  on_velocity = omega arith;
  off_velocity = omega arith;
  matrix_notes = omega arith;
  special_notes = omega arith;
  stop_notes = omega arith;
  knob_controllers = omega arith;
  fader_controllers = omega arith;
  wheel_controller = omega arith;
  wheel_dec = omega arith;
  wheel_inc = omega arith;
}
