-- ===== src/IoMapper/Hid/Buttons.antt =====
-- What a button event does: message, remembered state and light.
pub mod Press
pub mod Lights
use ni_traktor_kontrol_f.Base.{
  ℕ, ◌<◌, ◌≡◌, if◌then◌else◌, Bool, false, none, some, ok, get_or, set, length, inl, inr,
  Bool-cases,
}
use ni_traktor_kontrol_f.F1Device.Types.{OutputState, matrix, special, stop}
use ni_traktor_kontrol_f.F1Device.Events.{button}
use ni_traktor_kontrol_f.IoMapper.Floats.{Floats}
use ni_traktor_kontrol_f.IoMapper.Hid.{
  Mapper, process_matrix, process_special, process_stop, process_hid_input,
}
use ni_traktor_kontrol_f.IoMapper.Hid.Valid.{IsValid}
use ni_traktor_kontrol_f.IoMapper.Hid.Buttons.Press.{
  counts, now_on, message, process_hid_input_button_lem,
}
use ni_traktor_kontrol_f.IoMapper.Hid.Buttons.Lights.{
  lit_matrix, lit_special, lit_stop, light_matrix_lem, light_special_lem, light_stop_lem,
}

module _ (fl : Floats) where
  -- An event of a matrix button. The release of a toggle button changes nothing and sends nothing.
  -- Any other event sends a note whose type tells the new state of the button, remembers that
  -- state, and, if the button's light follows the device, lights it brightly or dimly.
  pub process_hid_input_matrix :
      (m : Mapper fl) (o : OutputState) (idx : ℕ) (press : Bool)
      → IsValid m
      → length o.matrix_btns ≡ 16
      → idx < 16
      → let toggle = get_or m.button_toggle.matrix idx false in
        let on = now_on toggle (get_or m.last_input.matrix idx false) press in
        process_hid_input fl m (button matrix idx press) o
        ≡ ok (
            if counts toggle press
            then (
              some (message fl m on (get_or m.notes.matrix idx 0)),
              record m {
                last_input = record (m.last_input) { matrix = set m.last_input.matrix idx on };
              },
              lit_matrix fl m o idx on,
            )
            else (none, m, o))
  unfolding process_hid_input process_matrix
  process_hid_input_matrix m o idx press v n h =
      rw
        (process_hid_input_button_lem fl m idx press m.button_toggle.matrix m.notes.matrix
          m.last_input.matrix (rw v.toggles.0 h) (rw v.notes.0 h) (rw v.last_matrix h))
        (elim (Bool-cases (counts (get_or m.button_toggle.matrix idx false) press)) [
          | inl e ↦ rw (
            e,
            light_matrix_lem fl m o idx
                (now_on (get_or m.button_toggle.matrix idx false)
                  (get_or m.last_input.matrix idx false) press)
                (rw v.modes.0 h) (rw v.colors_16 h) (rw n h),
          )
          | inr e ↦ rw e
        ])

  -- An event of a special button. The release of a toggle button changes nothing and sends nothing.
  -- Any other event sends a note whose type tells the new state of the button, remembers that
  -- state, and, if the button's light follows the device, sets it to high or low brightness.
  pub process_hid_input_special :
      (m : Mapper fl) (o : OutputState) (idx : ℕ) (press : Bool)
      → IsValid m
      → length o.special_btns ≡ 9
      → idx < 9
      → let toggle = get_or m.button_toggle.special idx false in
        let on = now_on toggle (get_or m.last_input.special idx false) press in
        process_hid_input fl m (button special idx press) o
        ≡ ok (
            if counts toggle press
            then (
              some (message fl m on (get_or m.notes.special idx 0)),
              record m {
                last_input = record (m.last_input) { special = set m.last_input.special idx on };
              },
              lit_special fl m o idx on,
            )
            else (none, m, o))
  unfolding process_hid_input process_special
  process_hid_input_special m o idx press v n h =
      rw
        (process_hid_input_button_lem fl m idx press m.button_toggle.special m.notes.special
          m.last_input.special (rw v.toggles.1 h) (rw v.notes.1 h) (rw v.last_special h))
        (elim (Bool-cases (counts (get_or m.button_toggle.special idx false) press)) [
          | inl e ↦ rw (
            e,
            light_special_lem fl m o idx
                (now_on (get_or m.button_toggle.special idx false)
                  (get_or m.last_input.special idx false) press)
                (rw v.modes.1 h) (rw n h),
          )
          | inr e ↦ rw e
        ])

  -- An event of a stop button. The release of a toggle button changes nothing and sends nothing.
  -- Any other event sends a note whose type tells the new state of the button, remembers that
  -- state, and, if the button's light follows the device, sets it to high or low brightness.
  pub process_hid_input_stop :
      (m : Mapper fl) (o : OutputState) (idx : ℕ) (press : Bool)
      → IsValid m
      → length o.stop_btns ≡ 4
      → idx < 4
      → let toggle = get_or m.button_toggle.stop idx false in
        let on = now_on toggle (get_or m.last_input.stop idx false) press in
        process_hid_input fl m (button stop idx press) o
        ≡ ok (
            if counts toggle press
            then (
              some (message fl m on (get_or m.notes.stop idx 0)),
              record m {
                last_input = record (m.last_input) { stop = set m.last_input.stop idx on };
              },
              lit_stop fl m o idx on,
            )
            else (none, m, o))
  unfolding process_hid_input process_stop
  process_hid_input_stop m o idx press v n h =
      rw
        (process_hid_input_button_lem fl m idx press m.button_toggle.stop m.notes.stop
          m.last_input.stop (rw v.toggles.2 h) (rw v.notes.2 h) (rw v.last_stop h))
        (elim (Bool-cases (counts (get_or m.button_toggle.stop idx false) press)) [
          | inl e ↦ rw (
            e,
            light_stop_lem fl m o idx
                (now_on (get_or m.button_toggle.stop idx false) (get_or m.last_input.stop idx false)
                  press)
                (rw v.modes.2 h) (rw n h),
          )
          | inr e ↦ rw e
        ])
