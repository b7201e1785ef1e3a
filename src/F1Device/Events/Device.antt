-- ===== src/F1Device/Events/Device.antt =====
-- The events that the device can cause: indices of existing controls, data of the right kind, and
-- positions in 12 bits.
use ni_traktor_kontrol_f.Base.{
  All-append, ℕ, suc, ◌+◌, ◌<◌, ◌≤◌, ◌==◌, Bool, same_bool, List, [], ◌∷◌, map, All, length, ℤ,
  arith, inl, inr, Bool-cases,
}
use ni_traktor_kontrol_f.Base.Changes.{changes}
use ni_traktor_kontrol_f.F1Device.Types.{
  InputState, InputEvent, HasShape, matrix, special, stop, fader, knob, wheel, encoder_event,
  of_wheel, faders_max,
}
use ni_traktor_kontrol_f.F1Device.Events.{button, encoder, wheel_events}
use ni_traktor_kontrol_f.F1Device.Events.Replay.{events_of_arrays}

pub data IsDeviceEvent : InputEvent → Type 0 where
  matrix_press : (i : ℕ) (b : Bool) → i < 16 → IsDeviceEvent (button matrix i b)
  special_press : (i : ℕ) (b : Bool) → i < 9 → IsDeviceEvent (button special i b)
  stop_press : (i : ℕ) (b : Bool) → i < 4 → IsDeviceEvent (button stop i b)
  fader_move : (i v : ℕ) → i < 4 → v ≤ faders_max → IsDeviceEvent (encoder fader i v)
  knob_move : (i v : ℕ) → i < 4 → v ≤ faders_max → IsDeviceEvent (encoder knob i v)
  wheel_move :
      (d : ℤ) (v : ℕ)
      → IsDeviceEvent (record {
        event_type = encoder_event;
        input_type = wheel;
        event_data = of_wheel (record { direction = d; value = v });
      })

-- A property of every change is one of every event made of a change.
module _ {A : Type 0} (same : A → A → Bool) (mk : ℕ → A → InputEvent) (P : A → Type 0) (n : ℕ)
    (made : (i : ℕ) (x : A) → i < n → P x → IsDeviceEvent (mk i x)) where
  All-changes :
      (i : ℕ) (new old : List A)
      → i + length new ≤ n
      → All P new
      → All IsDeviceEvent (map (λ c. mk c.0 c.1) (changes same i new old))
  unfolding changes
  All-changes i [] ys l a = tt
  All-changes i (x ∷ xs) [] l a = tt
  All-changes i (x ∷ xs) (y ∷ ys) l a = elim (Bool-cases (same x y)) [
    | inl s ↦ rw s (All-changes (suc i) xs ys (omega arith) a.1)
    | inr d ↦ rw d (made i x (omega arith) a.0, All-changes (suc i) xs ys (omega arith) a.1)
  ]

-- The positions that the 12-bit converters of the device give.
pub record InScale (s : InputState) : Type 0 where
  pub knob_scale : All (λ v. v ≤ faders_max) s.knobs
  pub fader_scale : All (λ v. v ≤ faders_max) s.faders

All-trivial : {A : Type 0} (xs : List A) → All (λ _. Unit {0}) xs
All-trivial [] = tt
All-trivial (x ∷ xs) = (tt, All-trivial xs)

pub events-IsDeviceEvent :
    (new old : InputState) (vn : HasShape new) (vo : HasShape old)
    → InScale new
    → All IsDeviceEvent (wheel_events new.wheel old.wheel (events_of_arrays new old vn vo))
unfolding wheel_events
events-IsDeviceEvent new old vn vo s =
    let m =
      All-changes same_bool (button matrix) (λ _. Unit {0}) 16 (λ i b l _. matrix_press i b l) 0
        new.matrix_btns old.matrix_btns (omega (arith, vn.matrix_16))
        (All-trivial new.matrix_btns) in
    let p =
      All-changes same_bool (button special) (λ _. Unit {0}) 9 (λ i b l _. special_press i b l) 0
        new.special_btns old.special_btns (omega (arith, vn.special_9))
        (All-trivial new.special_btns) in
    let t =
      All-changes same_bool (button stop) (λ _. Unit {0}) 4 (λ i b l _. stop_press i b l) 0
        new.stop_btns old.stop_btns (omega (arith, vn.stop_4)) (All-trivial new.stop_btns) in
    let f =
      All-changes ◌==◌ (encoder fader) (λ v. v ≤ faders_max) 4 (λ i v l h. fader_move i v l h) 0
        new.faders old.faders (omega (arith, vn.faders_4)) s.fader_scale in
    let k =
      All-changes ◌==◌ (encoder knob) (λ v. v ≤ faders_max) 4 (λ i v l h. knob_move i v l h) 0
        new.knobs old.knobs (omega (arith, vn.knobs_4)) s.knob_scale in
    let all =
      All-append IsDeviceEvent _ _
        (All-append IsDeviceEvent _ _
          (All-append IsDeviceEvent _ _ (All-append IsDeviceEvent _ _ m p) t) f)
        k in
    elim (Bool-cases (new.wheel == old.wheel)) [
      | inl e ↦ rw e all
      | inr e ↦ rw e (All-append IsDeviceEvent _ _ all (wheel_move _ new.wheel, tt))
    ]
