-- ===== src/F1Device/Events.antt =====
-- `F1Device::Impl::generate_input_events` of driver/src/tkf1/F1Device.cpp: one event for each
-- control that differs between the old and the new input state.
pub mod Replay
pub mod Device
use ni_traktor_kontrol_f.Base.{
  ℕ, ◌+◌, ◌-◌, ◌%◌, ◌==◌, same_bool, if◌then◌else◌, not, Bool, List, [], ◌∷◌, ◌++◌, Result, ok,
  undefined, out_of_range, ◌>>=◌, int8,
}
use ni_traktor_kontrol_f.Base.Loops.{for_range}
use ni_traktor_kontrol_f.Base.Changes.{compare_round}
use ni_traktor_kontrol_f.F1Device.Types.{
  InputState, Impl, InputEvent, InputType, matrix, special, stop, fader, knob, wheel, button_event,
  encoder_event, of_button, of_encoder, of_wheel, matrix_buttons_num, special_buttons_num,
  stop_buttons_num, faders_num, knobs_num,
}

abbrev pub button : InputType → ℕ → Bool → InputEvent
button t i press = record {
  event_type = button_event;
  input_type = t;
  event_data = of_button (record { index = i; button_press = press });
}

abbrev pub encoder : InputType → ℕ → ℕ → InputEvent
encoder t i v = record {
  event_type = encoder_event;
  input_type = t;
  event_data = of_encoder (record { index = i; value = v });
}

-- The difference, cut to 16 and then to 8 bits, is the residue modulo 256.
abbrev pub wheel_turn : ℕ → ℕ → InputEvent
wheel_turn new old = record {
  event_type = encoder_event;
  input_type = wheel;
  event_data = of_wheel (record { direction = int8 ((new + 256 - old) % 256); value = new });
}

unfoldable pub wheel_events : ℕ → ℕ → List InputEvent → List InputEvent
wheel_events new old events =
    if not (new == old) then events ++ (wheel_turn new old ∷ []) else events

unfoldable pub compare_states : InputState → InputState → Result (List InputEvent)
unfolding wheel_events
compare_states new old = do
  events ←
      for_range matrix_buttons_num 0
        (compare_round same_bool undefined (button matrix) new.matrix_btns old.matrix_btns) []
  events ←
      for_range special_buttons_num 0
        (compare_round same_bool undefined (button special) new.special_btns old.special_btns)
        events
  events ←
      for_range stop_buttons_num 0
        (compare_round same_bool undefined (button stop) new.stop_btns old.stop_btns) events
  events ←
      for_range faders_num 0 (compare_round ◌==◌ out_of_range (encoder fader) new.faders old.faders)
        events
  events ←
      for_range knobs_num 0 (compare_round ◌==◌ out_of_range (encoder knob) new.knobs old.knobs)
        events
  ok (wheel_events new.wheel old.wheel events)

unfoldable pub generate_input_events : Impl → Result Impl
generate_input_events s = do
  events ← compare_states s.input_state s.old_input_state
  ok (record s { input_events = events })
