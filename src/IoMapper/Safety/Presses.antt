-- ===== src/IoMapper/Safety/Presses.antt =====
-- Events of buttons, for a safe mapper (`IOMapper::process_HID_input`).
use ni_traktor_kontrol_f.Base.{
  ℕ, ◌<◌, refl, ◌∙◌, Bool, true, false, Returns, Returns-if, get_or, length-set, All-get_or,
  All-set, inl, inr, Bool-cases,
}
use ni_traktor_kontrol_f.F1Device.Events.{button}
use ni_traktor_kontrol_f.F1Device.Types.{matrix, special, stop, OutputState, black}
use ni_traktor_kontrol_f.F1Device.Output.Sendable.{IsSendable, IsBright, IsBrightColor}
use ni_traktor_kontrol_f.F1Device.Output.Lights.{
  set_matrix-IsSendable, set_special-IsSendable, set_stop-IsSendable,
}
use ni_traktor_kontrol_f.MidiEvent.Types.{same_type, type_byte}
use ni_traktor_kontrol_f.MidiEvent.Parse.RoundTrip.{IsVoice}
use ni_traktor_kontrol_f.IoMapper.Floats.{Floats, FloatLaws}
use ni_traktor_kontrol_f.IoMapper.Types.{hid}
use ni_traktor_kontrol_f.IoMapper.Hid.{Mapper, is_hid, button_message, process_hid_input}
use ni_traktor_kontrol_f.IoMapper.Hid.Buttons.{
  process_hid_input_matrix, process_hid_input_special, process_hid_input_stop,
}
use ni_traktor_kontrol_f.IoMapper.Hid.Buttons.Lights.{lit_matrix, lit_special, lit_stop}
use ni_traktor_kontrol_f.IoMapper.Hid.Buttons.Press.{counts, now_on, message}
use ni_traktor_kontrol_f.IoMapper.Safety.Config.{
  Is7Bit, IsSafe, IsSafeResult, remember-IsSafe, factor, level,
}
use ni_traktor_kontrol_f.IoMapper.Safety.Colors.{dim-IsBright}

module _ (fl : Floats) (laws : FloatLaws fl) where
  message-IsVoice :
      (m : Mapper fl) (on : Bool) (note : ℕ)
      → IsSafe fl laws m
      → Is7Bit note
      → IsVoice (message fl m on note)
  unfolding button_message same_type type_byte
  message-IsVoice m true note s h = record {
    voice = refl;
    channel_4 = s.channel;
    data1_7 = h;
    data2_7 = s.on_velocity;
  }
  message-IsVoice m false note s h = record {
    voice = refl;
    channel_4 = s.channel;
    data1_7 = h;
    data2_7 = s.off_velocity;
  }

  lit_matrix-IsSendable :
      (m : Mapper fl) (o : OutputState) (idx : ℕ) (on : Bool)
      → idx < 16
      → IsSafe fl laws m
      → IsSendable o
      → IsSendable (lit_matrix fl m o idx on)
  lit_matrix-IsSendable m o idx on h s v =
      elim (Bool-cases (is_hid (get_or m.brightness_mode.matrix idx hid))) [
        | inl e ↦ rw e (
            set_matrix-IsSendable o _ (length-set o.matrix_btns idx _ ∙ v.matrix_16)
              (All-set IsBrightColor o.matrix_btns idx _
                (dim-IsBright fl laws _ _ (factor fl laws m on s) (
                  All-get_or IsBrightColor m.matrix_colors idx black (rw s.valid.colors_16 h)
                    s.colors))
                v.matrix_bright)
              v)
        | inr e ↦ rw e v
      ]

  lit_special-IsSendable :
      (m : Mapper fl) (o : OutputState) (idx : ℕ) (on : Bool)
      → IsSafe fl laws m
      → IsSendable o
      → IsSendable (lit_special fl m o idx on)
  lit_special-IsSendable m o idx on s v =
      elim (Bool-cases (is_hid (get_or m.brightness_mode.special idx hid))) [
        | inl e ↦ rw e (
            set_special-IsSendable o _ (length-set o.special_btns idx _ ∙ v.special_9)
              (All-set IsBright o.special_btns idx _ (level fl laws m on s) v.special_bright) v)
        | inr e ↦ rw e v
      ]

  lit_stop-IsSendable :
      (m : Mapper fl) (o : OutputState) (idx : ℕ) (on : Bool)
      → IsSafe fl laws m
      → IsSendable o
      → IsSendable (lit_stop fl m o idx on)
  lit_stop-IsSendable m o idx on s v =
      elim (Bool-cases (is_hid (get_or m.brightness_mode.stop idx hid))) [
        | inl e ↦ rw e (
            set_stop-IsSendable o _ (length-set o.stop_btns idx _ ∙ v.stop_4)
              (All-set IsBright o.stop_btns idx _ (level fl laws m on s) v.stop_bright) v)
        | inr e ↦ rw e v
      ]

  pub matrix_press-IsSafeResult :
      (m : Mapper fl) (o : OutputState) (i : ℕ) (b : Bool)
      → IsSafe fl laws m
      → IsSendable o
      → i < 16
      → Returns (IsSafeResult fl laws) (process_hid_input fl m (button matrix i b) o)
  matrix_press-IsSafeResult m o i b s v h =
      let toggle = get_or m.button_toggle.matrix i false in
      let on = now_on toggle (get_or m.last_input.matrix i false) b in
      Returns-if (IsSafeResult fl laws) (counts toggle b)
        (process_hid_input_matrix fl m o i b s.valid v.matrix_16 h)
        (
          message-IsVoice m on _ s
              (All-get_or Is7Bit m.notes.matrix i 0 (rw s.valid.notes.0 h) s.matrix_notes),
          remember-IsSafe fl laws m _ s (
            length-set m.last_input.matrix i on ∙ s.valid.last_matrix,
            s.valid.last_special,
            s.valid.last_stop,
            s.valid.last_fader,
            s.valid.last_knob,
          ),
          lit_matrix-IsSendable m o i on h s v,
        )
        (tt, s, v)

  pub special_press-IsSafeResult :
      (m : Mapper fl) (o : OutputState) (i : ℕ) (b : Bool)
      → IsSafe fl laws m
      → IsSendable o
      → i < 9
      → Returns (IsSafeResult fl laws) (process_hid_input fl m (button special i b) o)
  special_press-IsSafeResult m o i b s v h =
      let toggle = get_or m.button_toggle.special i false in
      let on = now_on toggle (get_or m.last_input.special i false) b in
      Returns-if (IsSafeResult fl laws) (counts toggle b)
        (process_hid_input_special fl m o i b s.valid v.special_9 h)
        (
          message-IsVoice m on _ s
              (All-get_or Is7Bit m.notes.special i 0 (rw s.valid.notes.1 h) s.special_notes),
          remember-IsSafe fl laws m _ s (
            s.valid.last_matrix,
            length-set m.last_input.special i on ∙ s.valid.last_special,
            s.valid.last_stop,
            s.valid.last_fader,
            s.valid.last_knob,
          ),
          lit_special-IsSendable m o i on s v,
        )
        (tt, s, v)

  pub stop_press-IsSafeResult :
      (m : Mapper fl) (o : OutputState) (i : ℕ) (b : Bool)
      → IsSafe fl laws m
      → IsSendable o
      → i < 4
      → Returns (IsSafeResult fl laws) (process_hid_input fl m (button stop i b) o)
  stop_press-IsSafeResult m o i b s v h =
      let toggle = get_or m.button_toggle.stop i false in
      let on = now_on toggle (get_or m.last_input.stop i false) b in
      Returns-if (IsSafeResult fl laws) (counts toggle b)
        (process_hid_input_stop fl m o i b s.valid v.stop_4 h)
        (
          message-IsVoice m on _ s
              (All-get_or Is7Bit m.notes.stop i 0 (rw s.valid.notes.2 h) s.stop_notes),
          remember-IsSafe fl laws m _ s (
            s.valid.last_matrix,
            s.valid.last_special,
            length-set m.last_input.stop i on ∙ s.valid.last_stop,
            s.valid.last_fader,
            s.valid.last_knob,
          ),
          lit_stop-IsSendable m o i on s v,
        )
        (tt, s, v)
