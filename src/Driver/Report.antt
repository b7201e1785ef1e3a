-- ===== src/Driver/Report.antt =====
-- The reports that a round of the input thread reads and writes, and how many events one causes.
use ni_traktor_kontrol_f.Base.{
  ℕ, suc, ◌≤◌, ◌==◌, ◌≡◌, refl, ge→ltb, Bool, same_bool, List, [], ◌∷◌, map, length, length-append,
  some, ok, Bool-cases, inl, inr, arith,
}
use ni_traktor_kontrol_f.Base.Changes.{changes}
use ni_traktor_kontrol_f.F1Device.Types.{
  InputState, OutputState, InputEvent, Impl, HasShape, InRange, matrix, special, stop, fader, knob,
  input_report_id, output_report_size,
}
use ni_traktor_kontrol_f.F1Device.Input.RoundTrip.{encode, update_in_state-encode}
use ni_traktor_kontrol_f.F1Device.Output.Layout.{layout, update_out_report-layout}
use ni_traktor_kontrol_f.F1Device.Output.Sendable.{IsSendable}
use ni_traktor_kontrol_f.F1Device.Events.{wheel_events, button, encoder}
use ni_traktor_kontrol_f.F1Device.Events.Replay.{events_of_arrays}
use ni_traktor_kontrol_f.Driver.{hid_read, hid_write, read, write}

length-made :
    {A : Type 0} (same : A → A → Bool) (mk : ℕ → A → InputEvent) (i : ℕ) (new old : List A)
    → length (map (λ c. mk c.0 c.1) (changes same i new old)) ≤ length new
unfolding changes
length-made same mk i [] ys = omega arith
length-made same mk i (x ∷ xs) [] = omega arith
length-made same mk i (x ∷ xs) (y ∷ ys) = elim (Bool-cases (same x y)) [
  | inl s ↦ rw s (omega (arith, length-made same mk (suc i) xs ys))
  | inr d ↦ rw d (omega (arith, length-made same mk (suc i) xs ys))
]

length-encode : (p q r : Bool) (t : InputState) → 22 ≤ length (encode p q r t)
unfolding encode
length-encode p q r t = omega arith

pub length-layout : (o : OutputState) → length (layout o) ≡ 81
unfolding layout
length-layout o = omega arith

-- There are 38 controls.
pub length-events :
    (new old : InputState) (vn : HasShape new) (vo : HasShape old)
    → length (wheel_events new.wheel old.wheel (events_of_arrays new old vn vo)) ≤ 38
unfolding wheel_events
length-events new old vn vo =
    let arrays : length (events_of_arrays new old vn vo) ≤ 37 =
      rw (length-append, length-append, length-append, length-append)
        (omega (
          arith,
          length-made same_bool (button matrix) 0 new.matrix_btns old.matrix_btns,
          length-made same_bool (button special) 0 new.special_btns old.special_btns,
          length-made same_bool (button stop) 0 new.stop_btns old.stop_btns,
          length-made ◌==◌ (encoder fader) 0 new.faders old.faders,
          length-made ◌==◌ (encoder knob) 0 new.knobs old.knobs,
          vn.matrix_16,
          vn.special_9,
          vn.stop_4,
          vn.faders_4,
          vn.knobs_4,
        )) in
    elim (Bool-cases (new.wheel == old.wheel)) [
      | inl e ↦ rw e (omega (arith, arrays))
      | inr e ↦ rw e (rw length-append (omega (arith, arrays)))
    ]

-- A report of the device is read.
pub read-encode :
    (d : Impl) (t : InputState) (p q r : Bool)
    → HasShape d.input_state
    → HasShape t
    → InRange t
    → t.report_id ≡ input_report_id
    → read (some (encode p q r t)) d
      ≡ ok (record d {
        in_report = encode p q r t;
        old_input_state = d.input_state;
        input_state = t;
      })
unfolding read hid_read
read-encode d t p q r vs vt bt e = rw (
  ge→ltb (length (encode p q r t)) 22 (length-encode p q r t),
  update_in_state-encode (record d { in_report = encode p q r t }) t p q r vs vt bt e refl,
)

-- A sendable output state is written, if the device takes the whole report.
pub write_sendable_lem :
    (d : Impl)
    → IsSendable d.output_state
    → length d.out_report ≡ output_report_size
    → write (some output_report_size) d
      ≡ ok (record d { out_report = layout d.output_state }, layout d.output_state)
unfolding write hid_write
write_sendable_lem d v n = rw (
  update_out_report-layout d v n,
  ge→ltb 81 (length (layout d.output_state)) (omega (arith, length-layout d.output_state)),
)
