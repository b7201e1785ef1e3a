-- ===== src/F1Device/Events/Replay.antt =====
-- What a listener that follows the events knows of the device.
use ni_traktor_kontrol_f.Base.{
  ℕ, ◌+◌, ◌-◌, ◌%◌, ◌<◌, ◌==◌, ==_iff, ℤ, pos, negsuc, lt→ltb, ge→ltb, ne→==_false, same_bool,
  same_bool_iff, Bool, List, [], ◌∷◌, ◌++◌, ok, undefined, out_of_range, int8, set, map, ◌≡◌, ◌≢◌,
  refl, ap, ◌∙◌, sym, arith, Returns, Bool-cases, inl, inr,
}
use native.Mathlib.Decide.{dec_lt}
use ni_traktor_kontrol_f.Base.Changes.{changes, compare_lem, patch, patch-changes, changes_self}
use ni_traktor_kontrol_f.F1Device.Types.{
  InputState, Impl, InputEvent, InputType, matrix, special, stop, fader, knob, wheel, encoder_event,
  HasShape, EventData, of_button, of_encoder, of_wheel,
}
use ni_traktor_kontrol_f.F1Device.Events.{
  button, encoder, wheel_turn, wheel_events, compare_states, generate_input_events,
}

-- The listener's view after an event.
dispatch : InputType → EventData → InputState → InputState
dispatch matrix (of_button b) s = record s {
  matrix_btns = set s.matrix_btns b.index b.button_press;
}
dispatch special (of_button b) s = record s {
  special_btns = set s.special_btns b.index b.button_press;
}
dispatch stop (of_button b) s = record s { stop_btns = set s.stop_btns b.index b.button_press }
dispatch fader (of_encoder e) s = record s { faders = set s.faders e.index e.value }
dispatch knob (of_encoder e) s = record s { knobs = set s.knobs e.index e.value }
dispatch wheel (of_wheel w) s = record s { wheel = w.value }
dispatch _ _ s = s

pub follow : InputState → List InputEvent → InputState
unfolding dispatch
follow s [] = s
follow s (e ∷ es) = follow (dispatch e.input_type e.event_data s) es

follow-append :
    (s : InputState) (es fs : List InputEvent) → follow s (es ++ fs) ≡ follow (follow s es) fs
unfolding follow
follow-append s [] fs = refl
follow-append s (e ∷ es) fs = follow-append _ es fs

abbrev all {ℓ} : {A : Type ℓ} → (ℕ → A → InputEvent) → List (ℕ × A) → List InputEvent
all mk = map (λ c. mk c.0 c.1)

follow_matrix :
    (s : InputState) (cs : List (ℕ × Bool))
    → follow s (all (button matrix) cs)
      ≡ record s { matrix_btns = patch same_bool s.matrix_btns cs }
unfolding follow patch
follow_matrix s [] = refl
follow_matrix s ((i, x) ∷ cs) = follow_matrix (record s { matrix_btns = set s.matrix_btns i x }) cs

follow_special :
    (s : InputState) (cs : List (ℕ × Bool))
    → follow s (all (button special) cs)
      ≡ record s { special_btns = patch same_bool s.special_btns cs }
unfolding follow patch
follow_special s [] = refl
follow_special s ((i, x) ∷ cs) =
    follow_special (record s { special_btns = set s.special_btns i x }) cs

follow_stop :
    (s : InputState) (cs : List (ℕ × Bool))
    → follow s (all (button stop) cs) ≡ record s { stop_btns = patch same_bool s.stop_btns cs }
unfolding follow patch
follow_stop s [] = refl
follow_stop s ((i, x) ∷ cs) = follow_stop (record s { stop_btns = set s.stop_btns i x }) cs

follow_fader :
    (s : InputState) (cs : List (ℕ × ℕ))
    → follow s (all (encoder fader) cs) ≡ record s { faders = patch ◌==◌ s.faders cs }
unfolding follow patch
follow_fader s [] = refl
follow_fader s ((i, x) ∷ cs) = follow_fader (record s { faders = set s.faders i x }) cs

follow_knob :
    (s : InputState) (cs : List (ℕ × ℕ))
    → follow s (all (encoder knob) cs) ≡ record s { knobs = patch ◌==◌ s.knobs cs }
unfolding follow patch
follow_knob s [] = refl
follow_knob s ((i, x) ∷ cs) = follow_knob (record s { knobs = set s.knobs i x }) cs

follow_wheel :
    (s : InputState) (new : ℕ) (es : List InputEvent)
    → (follow s es).wheel ≡ s.wheel
    → follow s (wheel_events new s.wheel es) ≡ record (follow s es) { wheel = new }
unfolding wheel_events follow
follow_wheel s new es e = elim (Bool-cases (new == s.wheel)) [
  | inl same ↦
      rw same (λ i. record (follow s es) { wheel = (e ∙ sym ((==_iff new s.wheel).0 same)) i })
  | inr other ↦ rw other (follow-append s es (wheel_turn new s.wheel ∷ []))
]

module _ (new old : InputState) (vn : HasShape new) (vo : HasShape old) where
  abbrev pub events_of_arrays : List InputEvent
  events_of_arrays =
      ((((all (button matrix) (changes same_bool 0 new.matrix_btns old.matrix_btns)
              ++ all (button special) (changes same_bool 0 new.special_btns old.special_btns))
            ++ all (button stop) (changes same_bool 0 new.stop_btns old.stop_btns))
          ++ all (encoder fader) (changes ◌==◌ 0 new.faders old.faders))
        ++ all (encoder knob) (changes ◌==◌ 0 new.knobs old.knobs))

  pub compare_states_lem :
      compare_states new old ≡ ok (wheel_events new.wheel old.wheel events_of_arrays)
  unfolding compare_states
  compare_states_lem = rw (
    compare_lem same_bool undefined (button matrix) new.matrix_btns old.matrix_btns 16 []
        vn.matrix_16 vo.matrix_16,
    compare_lem same_bool undefined (button special) new.special_btns old.special_btns 9 _
        vn.special_9 vo.special_9,
    compare_lem same_bool undefined (button stop) new.stop_btns old.stop_btns 4 _ vn.stop_4
        vo.stop_4,
    compare_lem ◌==◌ out_of_range (encoder fader) new.faders old.faders 4 _ vn.faders_4 vo.faders_4,
    compare_lem ◌==◌ out_of_range (encoder knob) new.knobs old.knobs 4 _ vn.knobs_4 vo.knobs_4,
  )

  -- Following the events of the arrays carries the old arrays over to the new ones.
  follow_arrays :
      follow old events_of_arrays ≡ record new { report_id = old.report_id; wheel = old.wheel }
  follow_arrays = rw (
    follow-append,
    follow-append,
    follow-append,
    follow-append,
    follow_matrix,
    follow_special,
    follow_stop,
    follow_fader,
    follow_knob,
    patch-changes same_bool same_bool_iff new.matrix_btns old.matrix_btns
        (vn.matrix_16 ∙ sym vo.matrix_16),
    patch-changes same_bool same_bool_iff new.special_btns old.special_btns
        (vn.special_9 ∙ sym vo.special_9),
    patch-changes same_bool same_bool_iff new.stop_btns old.stop_btns (vn.stop_4 ∙ sym vo.stop_4),
    patch-changes ◌==◌ ==_iff new.faders old.faders (vn.faders_4 ∙ sym vo.faders_4),
    patch-changes ◌==◌ ==_iff new.knobs old.knobs (vn.knobs_4 ∙ sym vo.knobs_4),
  )

-- The events are generated without an access out of range, and a listener that knew the old state
-- and follows them knows the new state (all but the report's id).
pub generate_input_events-follow :
    (s : Impl)
    → HasShape s.input_state
    → HasShape s.old_input_state
    → Returns
        (λ (t : Impl).
          follow s.old_input_state t.input_events
          ≡ record s.input_state { report_id = s.old_input_state.report_id })
        (generate_input_events s)
unfolding generate_input_events
generate_input_events-follow s vn vo =
    let new = s.input_state in
    let old = s.old_input_state in
    let events = events_of_arrays new old vn vo in
    let arrays = follow_arrays new old vn vo in
    (
      record s { input_events = wheel_events new.wheel old.wheel events },
      rw (compare_states_lem new old vn vo),
      follow_wheel old new.wheel events (ap (λ (u : InputState). u.wheel) arrays)
          ∙ ap (λ (u : InputState). record u { wheel = new.wheel }) arrays,
    )

-- Without a change there is no event.
generate_input_events_quiet :
    (s : Impl)
    → HasShape s.input_state
    → s.old_input_state ≡ s.input_state
    → generate_input_events s ≡ ok (record s { input_events = [] })
unfolding generate_input_events compare_states wheel_events
generate_input_events_quiet s v e =
    let n = s.input_state in
    rw (
      e,
      compare_states_lem n n v v,
      changes_self same_bool same_bool_iff 0 n.matrix_btns,
      changes_self same_bool same_bool_iff 0 n.special_btns,
      changes_self same_bool same_bool_iff 0 n.stop_btns,
      changes_self ◌==◌ ==_iff 0 n.faders,
      changes_self ◌==◌ ==_iff 0 n.knobs,
      (==_iff n.wheel n.wheel).1 refl,
    )

-- `new` is `old` moved by the direction, round the 256 positions.
abbrev pub Moved : ℕ → ℤ → ℕ → Type 0
Moved old (pos n) new = ((old + n) % 256 ≡ new) × (0 < n) × (n < 128)
Moved old (negsuc n) new = (old ≡ (new + n + 1) % 256) × (n < 128)

Moved-int8 :
    (new old : ℕ)
    → new < 256
    → old < 256
    → new ≢ old
    → Moved old (int8 ((new + 256 - old) % 256)) new
Moved-int8 new old p q n = elim (dec_lt ((new + 256 - old) % 256) 128) [
  | yes l ↦
      rw (lt→ltb ((new + 256 - old) % 256) 128 l, int8) (omega arith, omega arith, omega arith)
  | no l ↦ rw (ge→ltb ((new + 256 - old) % 256) 128 (omega arith), int8) (omega arith, omega arith)
]

-- A wheel that has moved is reported last, with its position and the shorter way round: the new
-- position is the old one moved by the direction, which is not 0 and fits an `int8_t`.
wheel_events-Moved :
    (new old : ℕ) (events : List InputEvent)
    → new < 256
    → old < 256
    → new ≢ old
    → (d : ℤ) × (wheel_events new old events
        ≡ events
          ++ (record {
            event_type = encoder_event;
            input_type = wheel;
            event_data = of_wheel (record { direction = d; value = new });
          }
              ∷ []))
      × Moved old d new
unfolding wheel_events
wheel_events-Moved new old events p q n =
    (int8 ((new + 256 - old) % 256), rw (ne→==_false new old n), Moved-int8 new old p q n)
