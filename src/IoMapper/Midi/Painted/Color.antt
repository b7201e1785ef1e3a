-- ===== src/IoMapper/Midi/Painted/Color.antt =====
-- The colour that an incoming MIDI event has for a light (IOMapper.cpp).
use ni_traktor_kontrol_f.Base.{
  ℕ, ◌<◌, ◌≡◌, refl, ◌==◌, if◌then◌else◌, Bool, true, false, ◌&&◌, ◌||◌, not, List, Option, none,
  some, Result, ok, out_of_range, ◌>>=◌, index-lt, store-lt, get_or, set, length, set_at,
}
use ni_traktor_kontrol_f.F1Device.Types.{ButtonColor, black}
use ni_traktor_kontrol_f.MidiEvent.Types.{MidiEvent, note_on, note_off, control_change, same_type}
use ni_traktor_kontrol_f.IoMapper.Floats.{Floats}
use ni_traktor_kontrol_f.IoMapper.Types.{BrightnessMode, hid, midi_note, midi_cc}
use ni_traktor_kontrol_f.IoMapper.Hid.{Mapper}
use ni_traktor_kontrol_f.IoMapper.Hid.Valid.{IsValid}
use ni_traktor_kontrol_f.IoMapper.Midi.{
  cc_color, note_color, process_cc_color, process_note_color, by_mode,
}

-- A colour that is painted over or left.
abbrev pub painted : Option ButtonColor → ButtonColor → ButtonColor
painted none old = old
painted (some c) old = c

abbrev pub is_some : Option ButtonColor → Bool
is_some none = false
is_some (some c) = true

abbrev pub put : Option ButtonColor → ℕ → List ButtonColor → List ButtonColor
put none i out = out
put (some c) i out = set out i c

module _ (fl : Floats) (m : Mapper fl) (event : MidiEvent) where
  -- Whether an event of one of the two note types has the number.
  abbrev is_note : ℕ → Bool
  is_note n = (same_type event.type note_on || same_type event.type note_off) && event.data1 == n

  abbrev is_cc : ℕ → Bool
  is_cc n = same_type event.type control_change && event.data1 == n

  -- The new colour of button `i`, if the event is for it: a controller's value or a note with the
  -- button's number, by the button's mode. A button that follows the device is never painted.
  unfoldable pub color_by : BrightnessMode → ℕ → Option ButtonColor
  color_by hid i = none
  color_by midi_cc i =
      if is_cc (get_or m.brightness_controllers.matrix i 0)
      then some (cc_color fl event.data2 (get_or m.matrix_colors i black))
      else none
  color_by midi_note i =
      if is_note (get_or m.notes.matrix i 0)
      then some (
          note_color fl
            (if same_type event.type note_on
              then m.brightness_high_color
              else m.brightness_low_color)
            (get_or m.matrix_colors i black))
      else none

  unfoldable pub new_color : ℕ → Option ButtonColor
  unfolding color_by
  new_color i = color_by (get_or m.brightness_mode.matrix i hid) i

  module _ (v : IsValid m) where
    pub by_mode_lem :
        (mode : BrightnessMode) (out : List ButtonColor) (i : ℕ)
        → i < 16
        → length out ≡ 16
        → by_mode fl mode m event out i
          ≡ ok (put (color_by mode i) i out, is_some (color_by mode i))
    unfolding by_mode color_by
    by_mode_lem hid out i h n = refl
    by_mode_lem midi_cc out i h n =
        unfold process_cc_color in
        rw
          (
            index-lt out_of_range m.brightness_controllers.matrix i 0 (rw v.lights.0 h),
            index-lt out_of_range m.matrix_colors i black (rw v.colors_16 h),
          )
          (go (same_type event.type control_change)
            (event.data1 == get_or m.brightness_controllers.matrix i 0))
      where
        kept : Result (List ButtonColor × Bool)
        kept = ok (out, false)

        c : ButtonColor
        c = cc_color fl event.data2 (get_or m.matrix_colors i black)

        go :
            (t d : Bool)
            → (if not t
                then kept
                else if not d
                then kept
                else set_at out i c >>= λ output'. ok (output', true))
              ≡ ok (
                put (if t && d then some c else none) i out,
                is_some (if t && d then some c else none),
              )
        go true true = rw (store-lt out_of_range out i c (rw n h))
        go true false = refl
        go false d = refl
    by_mode_lem midi_note out i h n =
        unfold process_note_color in
        rw
          (
            index-lt out_of_range m.notes.matrix i 0 (rw v.notes.0 h),
            index-lt out_of_range m.matrix_colors i black (rw v.colors_16 h),
          )
          (go (same_type event.type note_on) (same_type event.type note_off)
            (event.data1 == get_or m.notes.matrix i 0))
      where
        kept : Result (List ButtonColor × Bool)
        kept = ok (out, false)

        c : ButtonColor
        c =
            note_color fl
              (if same_type event.type note_on
                then m.brightness_high_color
                else m.brightness_low_color)
              (get_or m.matrix_colors i black)

        go :
            (t u d : Bool)
            → (if not t && not u
                then kept
                else if not d
                then kept
                else set_at out i c >>= λ output'. ok (output', true))
              ≡ ok (
                put (if (t || u) && d then some c else none) i out,
                is_some (if (t || u) && d then some c else none),
              )
        go true u true = rw (store-lt out_of_range out i c (rw n h))
        go true u false = refl
        go false true true = rw (store-lt out_of_range out i c (rw n h))
        go false true false = refl
        go false false d = refl
