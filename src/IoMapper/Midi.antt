-- ===== src/IoMapper/Midi.antt =====
-- `IOMapper::process_MIDI_event`: the lights that an incoming MIDI event sets.
pub mod Painted
use ni_traktor_kontrol_f.Base.{
  ℕ, ◌==◌, if◌then◌else◌, Bool, true, false, ◌&&◌, ◌||◌, not, List, Result, ok, ◌>>=◌, at, set_at,
}
use ni_traktor_kontrol_f.Base.Loops.{for_range}
use ni_traktor_kontrol_f.F1Device.Types.{
  ButtonColor, Brightness, OutputState, matrix_buttons_num, full_brightness,
}
use ni_traktor_kontrol_f.F1Device.Helpers.{rgb2color, color2rgb}
use ni_traktor_kontrol_f.MidiEvent.Types.{MidiEvent, note_on, note_off, control_change, same_type}
use ni_traktor_kontrol_f.IoMapper.Floats.{Floats}
use ni_traktor_kontrol_f.IoMapper.Types.{BrightnessMode, hid, midi_note, midi_cc, midi_max}
use ni_traktor_kontrol_f.IoMapper.Hid.{Mapper, scale_byte}

module _ (fl : Floats) where
  -- An array of lights, and whether it has changed.
  abbrev pub LightResult : Type 0 → Type 0
  LightResult A = Result (List A × Bool)

  -- `process_MIDI_event_CC` on plain lights.
  unfoldable pub process_cc_brightness :
      MidiEvent → List Brightness → ℕ → List ℕ → LightResult Brightness
  process_cc_brightness event output idx brightness_controllers =
      if not (same_type event.type control_change) then ok (output, false) else do
        controller ← at brightness_controllers idx
        if not (event.data1 == controller) then ok (output, false) else do
          output' ← set_at output idx (scale_byte fl event.data2 midi_max full_brightness)
          ok (output', true)

  -- A colour under a controller's value: `scale<double>` of the value, and truncation.
  unfoldable pub cc_color : ℕ → ButtonColor → ButtonColor
  unfolding rgb2color color2rgb
  cc_color value color =
      let brightness = fl.mul (fl.of_ℕ value) (fl.div fl.double_one (fl.of_ℕ midi_max)) in
      let (o_r, o_g, o_b) = color2rgb color in
      rgb2color (fl.trunc_double (fl.mul brightness (fl.of_ℕ o_r)))
        (fl.trunc_double (fl.mul brightness (fl.of_ℕ o_g)))
        (fl.trunc_double (fl.mul brightness (fl.of_ℕ o_b)))

  -- `process_MIDI_event_CC` on coloured lights.
  unfoldable pub process_cc_color :
      Mapper fl → MidiEvent → List ButtonColor → ℕ → List ℕ → LightResult ButtonColor
  process_cc_color m event output idx brightness_controllers =
      if not (same_type event.type control_change) then ok (output, false) else do
        controller ← at brightness_controllers idx
        if not (event.data1 == controller) then ok (output, false) else do
          color ← at m.matrix_colors idx
          output' ← set_at output idx (cc_color event.data2 color)
          ok (output', true)

  -- `process_MIDI_event_note` on plain lights.
  unfoldable pub process_note_brightness :
      Mapper fl → MidiEvent → List Brightness → ℕ → List ℕ → LightResult Brightness
  process_note_brightness m event output idx notes =
      if not (same_type event.type note_on) && not (same_type event.type note_off)
      then ok (output, false)
      else do
        note ← at notes idx
        if not (event.data1 == note) then ok (output, false) else do
          output' ←
              set_at output idx
                (if same_type event.type note_on then m.brightness_high else m.brightness_low)
          ok (output', true)

  -- A colour under a note's factor, by `float` products and truncation.
  unfoldable pub note_color : fl.Float → ButtonColor → ButtonColor
  unfolding rgb2color color2rgb
  note_color factor color =
      let (o_r, o_g, o_b) = color2rgb color in
      rgb2color (fl.trunc_float (fl.scale_float factor o_r))
        (fl.trunc_float (fl.scale_float factor o_g)) (fl.trunc_float (fl.scale_float factor o_b))

  -- `process_MIDI_event_note` on coloured lights.
  unfoldable pub process_note_color :
      Mapper fl → MidiEvent → List ButtonColor → ℕ → List ℕ → LightResult ButtonColor
  process_note_color m event output idx notes =
      if not (same_type event.type note_on) && not (same_type event.type note_off)
      then ok (output, false)
      else do
        note ← at notes idx
        if not (event.data1 == note) then ok (output, false) else do
          color ← at m.matrix_colors idx
          output' ← set_at output idx (
              note_color
                (if same_type event.type note_on
                  then m.brightness_high_color
                  else m.brightness_low_color)
                color)
          ok (output', true)

  -- The `switch` on a button's mode.
  unfoldable pub by_mode :
      BrightnessMode → Mapper fl → MidiEvent → List ButtonColor → ℕ → LightResult ButtonColor
  unfolding process_cc_color process_note_color
  by_mode hid m event output i = ok (output, false)
  by_mode midi_cc m event output i =
      process_cc_color m event output i m.brightness_controllers.matrix
  by_mode midi_note m event output i = process_note_color m event output i m.notes.matrix

  -- The body of the loop over the matrix.
  unfoldable pub light_round :
      Mapper fl → MidiEvent → ℕ → List ButtonColor × Bool → LightResult ButtonColor
  unfolding by_mode
  light_round m event i (output, changed) = do
    mode ← at m.brightness_mode.matrix i
    r ← by_mode mode m event output i
    ok (r.0, changed || r.1)

  unfoldable pub process_midi_event :
      Mapper fl → MidiEvent → OutputState → Result (OutputState × Bool)
  unfolding light_round
  process_midi_event m event output =
      if not (event.channel == m.in_channel) then ok (output, false) else do
        r ← for_range matrix_buttons_num 0 (light_round m event) (output.matrix_btns, false)
        ok (record output { matrix_btns = r.0 }, r.1)
