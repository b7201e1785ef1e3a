-- ===== src/IoMapper/Safety.antt =====
-- The mapper keeps the output state sendable and sends only proper MIDI events.
pub mod Config
mod Colors
mod Presses
mod Encoders
use ni_traktor_kontrol_f.Base.{
  ℕ, All-tabulate, Bool-cases, inl, inr, ◌==◌, refl, ◌<◌, Returns, get_or, All-get_or,
}
use ni_traktor_kontrol_f.F1Device.Types.{InputEvent, OutputState, ButtonColor, black}
use ni_traktor_kontrol_f.F1Device.Output.Sendable.{IsSendable, IsBrightColor}
use ni_traktor_kontrol_f.F1Device.Output.Lights.{set_matrix-IsSendable}
use ni_traktor_kontrol_f.F1Device.Events.Device.{
  IsDeviceEvent, matrix_press, special_press, stop_press, fader_move, knob_move, wheel_move,
}
use ni_traktor_kontrol_f.MidiEvent.Types.{MidiEvent}
use ni_traktor_kontrol_f.IoMapper.Floats.{Floats, FloatLaws}
use ni_traktor_kontrol_f.IoMapper.Hid.{Mapper, process_hid_input}
use ni_traktor_kontrol_f.IoMapper.Midi.{process_midi_event}
use ni_traktor_kontrol_f.IoMapper.Midi.Painted.{process_midi_event_lem, event_color}
use ni_traktor_kontrol_f.IoMapper.Midi.Painted.Color.{painted}
use ni_traktor_kontrol_f.IoMapper.Safety.Config.{Is7Bit, IsSafe, IsSafeResult}
use ni_traktor_kontrol_f.IoMapper.Safety.Colors.{color-IsBright}
use ni_traktor_kontrol_f.IoMapper.Safety.Presses.{
  matrix_press-IsSafeResult, special_press-IsSafeResult, stop_press-IsSafeResult,
}
use ni_traktor_kontrol_f.IoMapper.Safety.Encoders.{
  fader_move-IsSafeResult, knob_move-IsSafeResult, wheel_move-IsSafeResult,
}

module _ (fl : Floats) (laws : FloatLaws fl) where
  -- Every event that the device can cause is processed without an exception. What is sent has four
  -- bits of channel and seven bits of data, and the output state can be written to the device.
  pub process_hid_input-IsSafeResult :
      (m : Mapper fl) (o : OutputState) {e : InputEvent}
      → IsSafe fl laws m
      → IsSendable o
      → IsDeviceEvent e
      → Returns (IsSafeResult fl laws) (process_hid_input fl m e o)
  process_hid_input-IsSafeResult m o s v (matrix_press i b h) =
      matrix_press-IsSafeResult fl laws m o i b s v h
  process_hid_input-IsSafeResult m o s v (special_press i b h) =
      special_press-IsSafeResult fl laws m o i b s v h
  process_hid_input-IsSafeResult m o s v (stop_press i b h) =
      stop_press-IsSafeResult fl laws m o i b s v h
  process_hid_input-IsSafeResult m o s v (fader_move i x h l) =
      fader_move-IsSafeResult fl laws m o i x s v h l
  process_hid_input-IsSafeResult m o s v (knob_move i x h l) =
      knob_move-IsSafeResult fl laws m o i x s v h l
  process_hid_input-IsSafeResult m o s v (wheel_move d x) =
      wheel_move-IsSafeResult fl laws m o d x s v

  event_color-IsBright :
      (m : Mapper fl) (e : MidiEvent) (i : ℕ) (old : ButtonColor)
      → IsSafe fl laws m
      → Is7Bit e.data2
      → i < 16
      → IsBrightColor old
      → IsBrightColor (painted (event_color fl m e i) old)
  event_color-IsBright m e i old s d h b = elim (Bool-cases (e.channel == m.in_channel)) [
    | inl same ↦ rw same (color-IsBright fl laws m e i old s d h b)
    | inr other ↦ rw other b
  ]

  -- Every MIDI event with seven bits of data is processed without an exception, and the output state
  -- can be written to the device.
  pub process_midi_event-IsSendable :
      (m : Mapper fl) (e : MidiEvent) (o : OutputState)
      → IsSafe fl laws m
      → IsSendable o
      → Is7Bit e.data2
      → Returns (λ r. IsSendable r.0) (process_midi_event fl m e o)
  process_midi_event-IsSendable m e o s v d = (
    _,
    process_midi_event_lem fl m e o s.valid v.matrix_16,
    set_matrix-IsSendable o _ refl
        (All-tabulate IsBrightColor 16 0
          (λ j. painted (event_color fl m e j) (get_or o.matrix_btns j black))
          (λ j p h.
            event_color-IsBright m e j (get_or o.matrix_btns j black) s d h
              (All-get_or IsBrightColor o.matrix_btns j black (rw v.matrix_16 h) v.matrix_bright)))
        v,
  )
