-- ===== src/IoMapper/Hid/Encoders.antt =====
-- What an encoder event does.
use ni_traktor_kontrol_f.Base.{
  ℕ, ◌<◌, ◌≡◌, refl, ◌==◌, if◌then◌else◌, List, none, some, ok, out_of_range, index-lt, store-lt,
  get_or, set, length, inl, inr, Bool-cases, ℤ, is_positive,
}
use ni_traktor_kontrol_f.F1Device.Types.{
  OutputState, fader, knob, wheel, encoder_event, of_wheel, faders_max,
}
use ni_traktor_kontrol_f.F1Device.Events.{encoder}
use ni_traktor_kontrol_f.MidiEvent.Types.{midi_event, control_change}
use ni_traktor_kontrol_f.IoMapper.Floats.{Floats}
use ni_traktor_kontrol_f.IoMapper.Types.{midi_max}
use ni_traktor_kontrol_f.IoMapper.Hid.{
  Mapper, scale_byte, process_hid_input_encoder, process_fader, process_knob, process_wheel,
  process_hid_input,
}
use ni_traktor_kontrol_f.IoMapper.Hid.Valid.{IsValid}

module _ (fl : Floats) where
  -- The 12-bit position on the scale of MIDI.
  abbrev pub midi_value : ℕ → ℕ
  midi_value v = scale_byte fl v faders_max midi_max

  encoder_lem :
      (m : Mapper fl) (idx v : ℕ) (controllers last : List ℕ)
      → idx < length controllers
      → idx < length last
      → process_hid_input_encoder fl m (record { index = idx; value = v }) controllers last
        ≡ ok (
            if midi_value v == get_or last idx 0 then (none, last) else (
              some (
                  midi_event control_change m.out_channel
                    (get_or controllers idx 0)
                    (midi_value v)),
              set last idx (midi_value v),
            ))
  unfolding process_hid_input_encoder
  encoder_lem m idx v controllers last p q =
      rw (index-lt out_of_range last idx 0 q)
        (elim (Bool-cases (scale_byte fl v 4095 127 == get_or last idx 0)) [
          | inl e ↦ rw e
          | inr e ↦ rw (
            e,
            store-lt out_of_range last idx (scale_byte fl v 4095 127) q,
            index-lt out_of_range controllers idx 0 p,
          )
        ])

  -- A moved fader sends its position on the scale of MIDI under its own controller number, and
  -- remembers it, if it is not the one sent last; otherwise nothing happens. No light changes.
  pub process_hid_input_fader :
      (m : Mapper fl) (o : OutputState) (idx v : ℕ)
      → IsValid m
      → idx < 4
      → process_hid_input fl m (encoder fader idx v) o
        ≡ ok (
            if midi_value v == get_or m.last_input.fader idx 0 then (none, m, o) else (
              some (
                  midi_event control_change m.out_channel
                    (get_or m.controllers.faders idx 0)
                    (midi_value v)),
              record m {
                last_input = record (m.last_input) {
                  fader = set m.last_input.fader idx (midi_value v);
                };
              },
              o,
            ))
  unfolding process_hid_input process_fader
  process_hid_input_fader m o idx v w h =
      rw
        (encoder_lem m idx v m.controllers.faders m.last_input.fader (rw w.faders_4 h)
          (rw w.last_fader h))
        (elim (Bool-cases (scale_byte fl v 4095 127 == get_or m.last_input.fader idx 0)) [
          | inl e ↦ rw e
          | inr e ↦ rw e
        ])

  -- A moved knob sends its position on the scale of MIDI under its own controller number, and
  -- remembers it, if it is not the one sent last; otherwise nothing happens. No light changes.
  pub process_hid_input_knob :
      (m : Mapper fl) (o : OutputState) (idx v : ℕ)
      → IsValid m
      → idx < 4
      → process_hid_input fl m (encoder knob idx v) o
        ≡ ok (
            if midi_value v == get_or m.last_input.knob idx 0 then (none, m, o) else (
              some (
                  midi_event control_change m.out_channel
                    (get_or m.controllers.knobs idx 0)
                    (midi_value v)),
              record m {
                last_input = record (m.last_input) {
                  knob = set m.last_input.knob idx (midi_value v);
                };
              },
              o,
            ))
  unfolding process_hid_input process_knob
  process_hid_input_knob m o idx v w h =
      rw
        (encoder_lem m idx v m.controllers.knobs m.last_input.knob (rw w.knobs_4 h)
          (rw w.last_knob h))
        (elim (Bool-cases (scale_byte fl v 4095 127 == get_or m.last_input.knob idx 0)) [
          | inl e ↦ rw e
          | inr e ↦ rw e
        ])

  -- A turn of the wheel always sends: one value for a clockwise turn and one for any other.
  pub process_hid_input_wheel :
      (m : Mapper fl) (o : OutputState) (d : ℤ) (position : ℕ)
      → process_hid_input fl m
          (record {
            event_type = encoder_event;
            input_type = wheel;
            event_data = of_wheel (record { direction = d; value = position });
          })
          o
        ≡ ok (
          some (
              midi_event control_change m.out_channel m.controllers.wheel
                (if is_positive d then m.wheel_inc_value else m.wheel_dec_value)),
          m,
          o,
        )
  unfolding process_hid_input process_wheel
  process_hid_input_wheel m o d position = refl
