-- ===== src/IoMapper/Hid.antt =====
-- `IOMapper::process_HID_input`: from an input event to the MIDI event that it causes, with the
-- lights that it changes.
pub mod Valid
pub mod Buttons
pub mod Encoders
use ni_traktor_kontrol_f.Base.{
  ℕ, ◌==◌, if◌then◌else◌, Bool, true, false, ◌&&◌, not, List, Option, none, some, Result, ok, err,
  undefined, bad_variant_access, ◌>>=◌, index, store, at, set_at, is_positive,
}
use ni_traktor_kontrol_f.F1Device.Types.{
  ButtonColor, Brightness, InputEvent, EventType, InputType, EventData, ButtonEvent, EncoderEvent,
  WheelEvent, OutputState, button_event, encoder_event, of_button, of_encoder, of_wheel, faders_max,
}
use ni_traktor_kontrol_f.F1Device.Helpers.{rgb2color}
use ni_traktor_kontrol_f.MidiEvent.Types.{
  MidiType, MidiEvent, midi_event, note_on, note_off, control_change, same_type,
}
use ni_traktor_kontrol_f.IoMapper.Floats.{Floats}
use ni_traktor_kontrol_f.IoMapper.Types.{
  IoMapper, BrightnessMode, hid, midi_note, midi_cc, midi_max,
}

-- `std::get<ButtonEvent>(event.data)` and its like.
abbrev get_button : EventData → Result ButtonEvent
get_button (of_button b) = ok b
get_button _ = err bad_variant_access

abbrev get_encoder : EventData → Result EncoderEvent
get_encoder (of_encoder e) = ok e
get_encoder _ = err bad_variant_access

abbrev get_wheel : EventData → Result WheelEvent
get_wheel (of_wheel w) = ok w
get_wheel _ = err bad_variant_access

abbrev pub is_hid : BrightnessMode → Bool
is_hid hid = true
is_hid _ = false

module _ (fl : Floats) where
  abbrev pub Mapper : Type 0
  Mapper = IoMapper fl.Float

  -- `scale<byte>`, `scale<Brightness>`.
  unfoldable pub scale_byte : ℕ → ℕ → ℕ → ℕ
  scale_byte value in_max out_max =
      fl.roundl_byte (fl.mul (fl.of_ℕ value) (fl.div (fl.of_ℕ out_max) (fl.of_ℕ in_max)))

  abbrev pub ButtonResult : Type 0
  ButtonResult = Option MidiEvent × Bool × List Bool

  -- The event of a button; its velocity goes by its type.
  unfoldable pub button_message : Mapper → MidiType → ℕ → MidiEvent
  button_message m event_type note =
      midi_event event_type m.out_channel note
        (if same_type event_type note_on then m.note_on_velocity else m.note_off_velocity)

  -- A press of a toggle button flips what was remembered of it.
  unfoldable pub toggle_press : Mapper → ℕ → List ℕ → List Bool → Result ButtonResult
  unfolding button_message
  toggle_press m idx notes last_input = do
    last ← index undefined last_input idx
    last_input' ← store undefined last_input idx (not last)
    note ← at notes idx
    last' ← index undefined last_input' idx
    ok (some (button_message m (if last then note_off else note_on) note), last', last_input')

  -- Any other button is remembered as it is.
  unfoldable pub follow_press : Mapper → ButtonEvent → List ℕ → List Bool → Result ButtonResult
  unfolding button_message
  follow_press m button notes last_input = do
    last_input' ← store undefined last_input button.index button.button_press
    note ← at notes button.index
    ok (
      some (button_message m (if button.button_press then note_on else note_off) note),
      button.button_press,
      last_input',
    )

  -- The event, whether the light goes on, and the new `last_input` of the group.
  unfoldable pub process_hid_input_button :
      Mapper
      → ButtonEvent
      → (button_toggle : List Bool) (notes : List ℕ) (last_input : List Bool) → Result ButtonResult
  unfolding toggle_press follow_press
  process_hid_input_button m button button_toggle notes last_input = do
    toggle ← index undefined button_toggle button.index
    if toggle && button.button_press
        then toggle_press m button.index notes last_input
        else if toggle && not button.button_press
        then ok (none, false, last_input)
        else follow_press m button notes last_input

  unfoldable pub process_hid_input_encoder :
      Mapper → EncoderEvent → (controllers last_input : List ℕ) → Result (Option MidiEvent × List ℕ)
  unfolding scale_byte
  process_hid_input_encoder m encoder controllers last_input = do
    let idx = encoder.index
    let val = scale_byte encoder.value faders_max midi_max
    last ← at last_input idx
    if val == last then ok (none, last_input) else do
      last_input' ← set_at last_input idx val
      controller ← at controllers idx
      ok (some (midi_event control_change m.out_channel controller val), last_input')

  -- A brightness factor applied to a colour, as the lights of pressed buttons show it.
  unfoldable pub dim_color : fl.Float → ButtonColor → ButtonColor
  unfolding rgb2color
  dim_color factor (orig_b, orig_r, orig_g) =
      let brightness = fl.widen factor in
      rgb2color (fl.lround_byte (fl.mul brightness (fl.of_ℕ orig_r)))
        (fl.lround_byte (fl.mul brightness (fl.of_ℕ orig_g)))
        (fl.lround_byte (fl.mul brightness (fl.of_ℕ orig_b)))

  unfoldable pub button_light_matrix_hid : Mapper → OutputState → ℕ → Bool → Result OutputState
  unfolding dim_color
  button_light_matrix_hid m output idx on = do
    mode ← at m.brightness_mode.matrix idx
    if not (is_hid mode) then ok output else do
      color ← at m.matrix_colors idx
      btns ←
          set_at output.matrix_btns idx
            (dim_color (if on then m.brightness_high_color else m.brightness_low_color) color)
      ok (record output { matrix_btns = btns })

  unfoldable pub button_light_special_hid : Mapper → OutputState → ℕ → Bool → Result OutputState
  button_light_special_hid m output idx on = do
    mode ← at m.brightness_mode.special idx
    if not (is_hid mode) then ok output else do
      btns ← set_at output.special_btns idx (if on then m.brightness_high else m.brightness_low)
      ok (record output { special_btns = btns })

  unfoldable pub button_light_stop_hid : Mapper → OutputState → ℕ → Bool → Result OutputState
  button_light_stop_hid m output idx on = do
    mode ← at m.brightness_mode.stop idx
    if not (is_hid mode) then ok output else do
      btns ← set_at output.stop_btns idx (if on then m.brightness_high else m.brightness_low)
      ok (record output { stop_btns = btns })

  abbrev pub HidResult : Type 0
  HidResult = Option MidiEvent × Mapper × OutputState

  -- Only an event that is sent changes a light.
  abbrev pub light_if :
      Option MidiEvent → (OutputState → Result OutputState) → OutputState → Result OutputState
  light_if none light output = ok output
  light_if (some e) light output = light output

  -- The six instances of `process_HID_input_impl`.
  unfoldable pub process_matrix : Mapper → EventData → OutputState → Result HidResult
  unfolding process_hid_input_button button_light_matrix_hid
  process_matrix m event_data output = do
    button ← get_button event_data
    r ← process_hid_input_button m button m.button_toggle.matrix m.notes.matrix m.last_input.matrix
    output' ← light_if r.0 (λ o. button_light_matrix_hid m o button.index r.1) output
    ok (r.0, record m { last_input = record (m.last_input) { matrix = r.2 } }, output')

  unfoldable pub process_special : Mapper → EventData → OutputState → Result HidResult
  unfolding process_hid_input_button button_light_special_hid
  process_special m event_data output = do
    button ← get_button event_data
    r ←
        process_hid_input_button m button m.button_toggle.special m.notes.special
          m.last_input.special
    output' ← light_if r.0 (λ o. button_light_special_hid m o button.index r.1) output
    ok (r.0, record m { last_input = record (m.last_input) { special = r.2 } }, output')

  unfoldable pub process_stop : Mapper → EventData → OutputState → Result HidResult
  unfolding process_hid_input_button button_light_stop_hid
  process_stop m event_data output = do
    button ← get_button event_data
    r ← process_hid_input_button m button m.button_toggle.stop m.notes.stop m.last_input.stop
    output' ← light_if r.0 (λ o. button_light_stop_hid m o button.index r.1) output
    ok (r.0, record m { last_input = record (m.last_input) { stop = r.2 } }, output')

  unfoldable pub process_fader : Mapper → EventData → OutputState → Result HidResult
  unfolding process_hid_input_encoder
  process_fader m event_data output = do
    encoder ← get_encoder event_data
    r ← process_hid_input_encoder m encoder m.controllers.faders m.last_input.fader
    ok (r.0, record m { last_input = record (m.last_input) { fader = r.1 } }, output)

  unfoldable pub process_knob : Mapper → EventData → OutputState → Result HidResult
  unfolding process_hid_input_encoder
  process_knob m event_data output = do
    encoder ← get_encoder event_data
    r ← process_hid_input_encoder m encoder m.controllers.knobs m.last_input.knob
    ok (r.0, record m { last_input = record (m.last_input) { knob = r.1 } }, output)

  unfoldable pub process_wheel : Mapper → EventData → OutputState → Result HidResult
  process_wheel m event_data output = do
    wheel ← get_wheel event_data
    let value = if is_positive wheel.direction then m.wheel_inc_value else m.wheel_dec_value
    ok (some (midi_event control_change m.out_channel m.controllers.wheel value), m, output)

  -- The chain of `PROCESS_HID_INPUT`.
  dispatch : EventType → InputType → Mapper → EventData → OutputState → Result HidResult
  unfolding process_matrix process_special process_stop process_fader process_knob process_wheel
  dispatch button_event InputType.matrix = process_matrix
  dispatch button_event InputType.special = process_special
  dispatch button_event InputType.stop = process_stop
  dispatch encoder_event InputType.fader = process_fader
  dispatch encoder_event InputType.knob = process_knob
  dispatch encoder_event InputType.wheel = process_wheel
  dispatch _ _ = λ m event_data output. ok (none, m, output)

  unfoldable pub process_hid_input : Mapper → InputEvent → OutputState → Result HidResult
  unfolding dispatch
  process_hid_input m event output =
      dispatch event.event_type event.input_type m event.event_data output
