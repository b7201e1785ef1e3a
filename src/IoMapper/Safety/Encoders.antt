-- ===== src/IoMapper/Safety/Encoders.antt =====
-- Events of encoders, for a safe mapper (`IOMapper::process_HID_input`).
use ni_traktor_kontrol_f.Base.{
  ℤ, ℕ, ◌<◌, ◌≤◌, refl, ◌∙◌, Returns, Returns-if, get_or, length-set, All-get_or, arith,
  is_positive, ◌==◌,
}
use ni_traktor_kontrol_f.F1Device.Events.{encoder}
use ni_traktor_kontrol_f.F1Device.Types.{
  fader, knob, wheel, encoder_event, of_wheel, OutputState, faders_max,
}
use ni_traktor_kontrol_f.F1Device.Output.Sendable.{IsSendable}
use ni_traktor_kontrol_f.IoMapper.Floats.{Floats, FloatLaws}
use ni_traktor_kontrol_f.IoMapper.Types.{midi_max}
use ni_traktor_kontrol_f.IoMapper.Hid.{Mapper, scale_byte, process_hid_input}
use ni_traktor_kontrol_f.IoMapper.Hid.Encoders.{
  midi_value, process_hid_input_fader, process_hid_input_knob, process_hid_input_wheel,
}
use ni_traktor_kontrol_f.IoMapper.Safety.Config.{
  Is7Bit, IsSafe, IsSafeResult, remember-IsSafe, inc_or_dec,
}

module _ (fl : Floats) (laws : FloatLaws fl) where
  midi_value-Is7Bit : (v : ℕ) → v ≤ faders_max → Is7Bit (midi_value fl v)
  unfolding scale_byte
  midi_value-Is7Bit v h =
      omega
        (arith, laws.roundl-le v faders_max midi_max h (omega arith) (omega arith) (omega arith))

  pub fader_move-IsSafeResult :
      (m : Mapper fl) (o : OutputState) (i x : ℕ)
      → IsSafe fl laws m
      → IsSendable o
      → i < 4
      → x ≤ faders_max
      → Returns (IsSafeResult fl laws) (process_hid_input fl m (encoder fader i x) o)
  fader_move-IsSafeResult m o i x s v h l =
      Returns-if (IsSafeResult fl laws) (midi_value fl x == get_or m.last_input.fader i 0)
        (process_hid_input_fader fl m o i x s.valid h) (tt, s, v)
        (
          record {
            voice = refl;
            channel_4 = s.channel;
            data1_7 =
                All-get_or Is7Bit m.controllers.faders i 0 (rw s.valid.faders_4 h)
                  s.fader_controllers;
            data2_7 = midi_value-Is7Bit x l;
          },
          remember-IsSafe fl laws m _ s (
            s.valid.last_matrix,
            s.valid.last_special,
            s.valid.last_stop,
            length-set m.last_input.fader i (midi_value fl x) ∙ s.valid.last_fader,
            s.valid.last_knob,
          ),
          v,
        )

  pub knob_move-IsSafeResult :
      (m : Mapper fl) (o : OutputState) (i x : ℕ)
      → IsSafe fl laws m
      → IsSendable o
      → i < 4
      → x ≤ faders_max
      → Returns (IsSafeResult fl laws) (process_hid_input fl m (encoder knob i x) o)
  knob_move-IsSafeResult m o i x s v h l =
      Returns-if (IsSafeResult fl laws) (midi_value fl x == get_or m.last_input.knob i 0)
        (process_hid_input_knob fl m o i x s.valid h) (tt, s, v)
        (
          record {
            voice = refl;
            channel_4 = s.channel;
            data1_7 =
                All-get_or Is7Bit m.controllers.knobs i 0 (rw s.valid.knobs_4 h) s.knob_controllers;
            data2_7 = midi_value-Is7Bit x l;
          },
          remember-IsSafe fl laws m _ s (
            s.valid.last_matrix,
            s.valid.last_special,
            s.valid.last_stop,
            s.valid.last_fader,
            length-set m.last_input.knob i (midi_value fl x) ∙ s.valid.last_knob,
          ),
          v,
        )

  pub wheel_move-IsSafeResult :
      (m : Mapper fl) (o : OutputState) (d : ℤ) (x : ℕ)
      → IsSafe fl laws m
      → IsSendable o
      → Returns (IsSafeResult fl laws) (
          process_hid_input fl m
            (record {
              event_type = encoder_event;
              input_type = wheel;
              event_data = of_wheel (record { direction = d; value = x });
            })
            o)
  wheel_move-IsSafeResult m o d x s v = (
    _,
    process_hid_input_wheel fl m o d x,
    (
      record {
        voice = refl;
        channel_4 = s.channel;
        data1_7 = s.wheel_controller;
        data2_7 = inc_or_dec fl laws m (is_positive d) s;
      },
      s,
      v,
    ),
  )
