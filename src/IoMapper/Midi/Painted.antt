-- ===== src/IoMapper/Midi/Painted.antt =====
-- Which lights an incoming MIDI event sets, and to what.
pub mod Color
use ni_traktor_kontrol_f.Base.{
  ℕ, zero, suc, ◌+◌, ◌<◌, ◌≤◌, ◌≡◌, ◌≢◌, ◌⊎◌, refl, ap, ◌∙◌, sym, subst, ne→==_false, ◌==◌, ==_iff,
  Bool, true, false, ◌||◌, not, List, [], ◌∷◌, tabulate, tabulate_congr, if◌then◌else◌, ap₂, Option,
  none, some, ok, out_of_range, index-lt, get_or, length, length-set, get_or-set_self,
  get_or-set_ne, inl, arith, Returns,
}
use native.Mathlib.Decide.{ℕ_discrete}
use ni_traktor_kontrol_f.Base.Loops.{for_range, repeat, for_range-ok}
use ni_traktor_kontrol_f.F1Device.Shape.{full}
use ni_traktor_kontrol_f.F1Device.Types.{ButtonColor, OutputState, black}
use ni_traktor_kontrol_f.MidiEvent.Types.{MidiEvent}
use ni_traktor_kontrol_f.IoMapper.Floats.{Floats}
use ni_traktor_kontrol_f.IoMapper.Types.{hid}
use ni_traktor_kontrol_f.IoMapper.Hid.{Mapper}
use ni_traktor_kontrol_f.IoMapper.Hid.Valid.{IsValid}
use ni_traktor_kontrol_f.IoMapper.Midi.{light_round, process_midi_event}
use ni_traktor_kontrol_f.IoMapper.Midi.Painted.Color.{
  painted, is_some, put, color_by, new_color, by_mode_lem,
}

abbrev pub any_of : List Bool → Bool
any_of [] = false
any_of (b ∷ bs) = b || any_of bs

or-false : (a : Bool) → (a || false) ≡ a
or-false true = refl
or-false false = refl

or_assoc : (a b c : Bool) → ((a || b) || c) ≡ (a || (b || c))
or_assoc true b c = refl
or_assoc false b c = refl

module _ (fl : Floats) (m : Mapper fl) (event : MidiEvent) where
  abbrev step : ℕ → List ButtonColor × Bool → List ButtonColor × Bool
  step i s = (put (new_color fl m event i) i s.0, s.1 || is_some (new_color fl m event i))

  module _ (v : IsValid m) where
    length-put :
        (c : Option ButtonColor) (i : ℕ) (out : List ButtonColor)
        → length (put c i out) ≡ length out
    length-put none i out = refl
    length-put (some c) i out = length-set out i c

    rounds :
        (out : List ButtonColor)
        → length out ≡ 16
        → (for_range 16 0 (light_round fl m event) (out, false)
            ≡ ok (repeat 16 0 step (out, false)))
          × (length (repeat 16 0 step (out, false)).0 ≡ 16)
    unfolding light_round new_color
    rounds out n =
        for_range-ok (λ s. length s.0 ≡ 16) (light_round fl m event) step 16 0 (out, false)
          (λ j s _ l p. (
            rw (
              index-lt out_of_range m.brightness_mode.matrix j hid (rw v.modes.0 l),
              by_mode_lem fl m event v (get_or m.brightness_mode.matrix j hid) s.0 j l p,
            ),
            length-put (color_by fl m event (get_or m.brightness_mode.matrix j hid) j) j s.0 ∙ p,
          ))
          n

    get_or-put_self :
        (c : Option ButtonColor) (i : ℕ) (out : List ButtonColor)
        → i < length out
        → get_or (put c i out) i black ≡ painted c (get_or out i black)
    get_or-put_self none i out h = refl
    get_or-put_self (some c) i out h = get_or-set_self out i c black h

    get_or-put_ne :
        (c : Option ButtonColor) (i j : ℕ) (out : List ButtonColor)
        → i ≢ j
        → get_or (put c i out) j black ≡ get_or out j black
    get_or-put_ne none i j out h = refl
    get_or-put_ne (some c) i j out h = get_or-set_ne out i j c black h

    -- Before round `j` its light is not touched, and after it no more.
    untouched :
        (n i j : ℕ) (s : List ButtonColor × Bool)
        → (j < i) ⊎ (i + n ≤ j)
        → get_or (repeat n i step s).0 j black ≡ get_or s.0 j black
    unfolding repeat
    untouched zero i j s h = refl
    untouched (suc n) i j s h =
        untouched n (suc i) j (step i s) (omega arith)
        ∙ get_or-put_ne (new_color fl m event i) i j s.0 (omega arith)

    touched :
        (n i j : ℕ) (s : List ButtonColor × Bool)
        → i ≤ j
        → j < i + n
        → j < length s.0
        → get_or (repeat n i step s).0 j black
          ≡ painted (new_color fl m event j) (get_or s.0 j black)
    unfolding repeat
    touched zero i j s p q l = absurd (omega arith)
    touched (suc n) i j s p q l = elim (ℕ_discrete i j) [
      | yes e ↦
          let now : get_or (put (new_color fl m event j) j s.0) j black
              ≡ painted (new_color fl m event j) (get_or s.0 j black) =
            get_or-put_self (new_color fl m event j) j s.0 l in
          rw e (untouched n (suc j) j (step j s) (inl (omega arith)) ∙ now)
      | no ne ↦
          touched n (suc i) j (step i s) (omega arith) (omega arith)
            (rw (length-put (new_color fl m event i) i s.0) l)
          ∙ ap (painted (new_color fl m event j))
              (get_or-put_ne (new_color fl m event i) i j s.0 ne)
    ]

  -- What the event has for a light: nothing, on another channel.
  abbrev pub event_color : ℕ → Option ButtonColor
  event_color j = if event.channel == m.in_channel then new_color fl m event j else none

  changed_lem :
      (n i : ℕ) (s : List ButtonColor × Bool)
      → (repeat n i step s).1
        ≡ (s.1 || any_of (tabulate n i (λ j. is_some (new_color fl m event j))))
  unfolding repeat
  changed_lem zero i s = sym (or-false s.1)
  changed_lem (suc n) i s = changed_lem n (suc i) (step i s) ∙ or_assoc s.1 _ _

  painted_lem :
      (out : List ButtonColor)
      → IsValid m
      → length out ≡ 16
      → (repeat 16 0 step (out, false)).0
        ≡ tabulate 16 0 (λ j. painted (new_color fl m event j) (get_or out j black))
  painted_lem out v n =
      full 16 (repeat 16 0 step (out, false)).0 black (rounds v out n).1
      ∙ tabulate_congr 16 0 (λ j p q. touched v 16 0 j (out, false) p q (rw n q))

  -- A MIDI event is processed without an access out of range: each light of the matrix gets the colour
  -- that the event has for it, or stays as it is, the other parts of the output state stay as they are,
  -- and the result says whether the event has a colour for any light. On another channel it has none.
  pub process_midi_event_lem :
      (o : OutputState)
      → IsValid m
      → length o.matrix_btns ≡ 16
      → process_midi_event fl m event o
        ≡ ok (
          record o {
            matrix_btns =
                tabulate 16 0 (λ j. painted (event_color j) (get_or o.matrix_btns j black));
          },
          any_of (tabulate 16 0 (λ j. is_some (event_color j))),
        )
  unfolding process_midi_event
  process_midi_event_lem o v n = elim (ℕ_discrete event.channel m.in_channel) [
    | yes e ↦
        rw ((==_iff event.channel m.in_channel).1 e, (rounds v o.matrix_btns n).0)
          (rw (painted_lem o.matrix_btns v n, changed_lem 16 0 (o.matrix_btns, false)))
    | no ne ↦ rw (ne→==_false event.channel m.in_channel ne) (
        ap (λ (out : List ButtonColor). ok (record o { matrix_btns = out }, false))
          (full 16 o.matrix_btns black n))
  ]
