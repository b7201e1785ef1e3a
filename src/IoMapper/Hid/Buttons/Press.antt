-- ===== src/IoMapper/Hid/Buttons/Press.antt =====
-- The message of a button event and what is remembered of it.
use ni_traktor_kontrol_f.Base.{
  ℕ, ◌<◌, ◌≡◌, refl, if◌then◌else◌, Bool, true, false, ◌&&◌, not, List, none, some, ok, undefined,
  out_of_range, index-lt, store-lt, get_or, set, length, get_elem?-set_self, inl, inr, Bool-cases,
}
use ni_traktor_kontrol_f.MidiEvent.Types.{MidiEvent, note_on, note_off}
use ni_traktor_kontrol_f.IoMapper.Floats.{Floats}
use ni_traktor_kontrol_f.IoMapper.Hid.{
  Mapper, ButtonResult, button_message, toggle_press, follow_press, process_hid_input_button,
}

-- Whether the event counts: the release of a toggle button does not.
abbrev pub counts : (toggle press : Bool) → Bool
counts true press = press
counts false press = true

-- The state of the button behind an event that counts.
abbrev pub now_on : (toggle was press : Bool) → Bool
now_on true was press = not was
now_on false was press = press

module _ (fl : Floats) where
  abbrev pub message : Mapper fl → Bool → ℕ → MidiEvent
  message m on note = button_message fl m (if on then note_on else note_off) note

  -- The result for a button of a group that is remembered in `last_input`.
  abbrev pub expected :
      Mapper fl
      → ℕ
      → Bool
      → (toggles : List Bool) (notes : List ℕ) (last : List Bool) → ButtonResult fl
  expected m idx press toggles notes last =
      let toggle = get_or toggles idx false in
      let on = now_on toggle (get_or last idx false) press in
      if counts toggle press
      then (some (message m on (get_or notes idx 0)), on, set last idx on)
      else (none, false, last)

  toggle_lem :
      (m : Mapper fl) (idx : ℕ) (notes : List ℕ) (last : List Bool)
      → idx < length notes
      → idx < length last
      → let on = not (get_or last idx false) in
        toggle_press fl m idx notes last
        ≡ ok (some (message m on (get_or notes idx 0)), on, set last idx on)
  unfolding toggle_press
  toggle_lem m idx notes last p q =
      rw
        (
          index-lt undefined last idx false q,
          store-lt undefined last idx (not (get_or last idx false)) q,
          index-lt out_of_range notes idx 0 p,
          get_elem?-set_self last idx (not (get_or last idx false)) q,
        )
        (elim (Bool-cases (get_or last idx false)) [ inl e ↦ rw e | inr e ↦ rw e ])

  follow_lem :
      (m : Mapper fl) (idx : ℕ) (press : Bool) (notes : List ℕ) (last : List Bool)
      → idx < length notes
      → idx < length last
      → follow_press fl m (record { index = idx; button_press = press }) notes last
        ≡ ok (some (message m press (get_or notes idx 0)), press, set last idx press)
  unfolding follow_press
  follow_lem m idx press notes last p q =
      rw (store-lt undefined last idx press q, index-lt out_of_range notes idx 0 p)

  pub process_hid_input_button_lem :
      (m : Mapper fl) (idx : ℕ) (press : Bool) (toggles : List Bool) (notes : List ℕ)
      (last : List Bool)
      → idx < length toggles
      → idx < length notes
      → idx < length last
      → process_hid_input_button fl m
          (record { index = idx; button_press = press })
          toggles
          notes
          last
        ≡ ok (expected m idx press toggles notes last)
  unfolding process_hid_input_button
  process_hid_input_button_lem m idx press toggles notes last t n l =
      rw (index-lt undefined toggles idx false t) (go (get_or toggles idx false) press)
    where
      go :
          (toggle press : Bool)
          → (if toggle && press
              then toggle_press fl m idx notes last
              else if toggle && not press
              then ok (none, false, last)
              else follow_press fl m (record { index = idx; button_press = press }) notes last)
            ≡ ok (
                if counts toggle press
                then (
                  some (
                      message m (now_on toggle (get_or last idx false) press) (get_or notes idx 0)),
                  now_on toggle (get_or last idx false) press,
                  set last idx (now_on toggle (get_or last idx false) press),
                )
                else (none, false, last))
      go true true = toggle_lem m idx notes last n l
      go true false = refl
      go false true = follow_lem m idx true notes last n l
      go false false = follow_lem m idx false notes last n l
