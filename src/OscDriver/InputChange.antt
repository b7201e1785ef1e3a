-- ===== src/OscDriver/InputChange.antt =====
-- driver-osc/src/F1InputState.{hpp,cpp}: the difference of two input states.
pub mod Follow
pub mod Rising
use ni_traktor_kontrol_f.Base.{
  ℕ, ◌+◌, ◌-◌, ◌%◌, ◌==◌, same_bool, if◌then◌else◌, Bool, true, false, ◌&&◌, List, [], ◌∷◌, ◌++◌,
  Result, ok, undefined, out_of_range, ◌>>=◌, index, ℤ, int8,
}
use ni_traktor_kontrol_f.Base.Loops.{for_range}
use ni_traktor_kontrol_f.Base.Changes.{compare_round}
use ni_traktor_kontrol_f.F1Device.Types.{InputState}

-- `F1InputChange::btn_diff`.
pub record BtnDiff : Type 0 where
  pub matrix : List ℕ
  pub stop : List ℕ
  pub special : List ℕ

pub record F1InputChange : Type 0 where
  pub pressed_buttons : BtnDiff
  pub released_buttons : BtnDiff
  pub wheel_diff : ℤ
  pub wheel : ℕ
  pub knobs : List (ℕ × ℕ)
  pub faders : List (ℕ × ℕ)

-- The body of the loops over buttons; the lists are the pressed and the released ones.
unfoldable pub button_round : List Bool → List Bool → ℕ → List ℕ × List ℕ → Result (List ℕ × List ℕ)
button_round new old i (pressed, released) = do
  old_btn_state ← index undefined old i
  new_btn_state ← index undefined new i
  ok (
      if same_bool old_btn_state false && same_bool new_btn_state true
      then (pressed ++ (i ∷ []), released)
      else if same_bool old_btn_state true && same_bool new_btn_state false
      then (pressed, released ++ (i ∷ []))
      else (pressed, released))

-- `operator-`.
unfoldable pub difference : InputState → InputState → Result F1InputChange
difference new old = do
  matrix ← for_range 16 0 (button_round new.matrix_btns old.matrix_btns) ([], [])
  special ← for_range 9 0 (button_round new.special_btns old.special_btns) ([], [])
  stop ← for_range 4 0 (button_round new.stop_btns old.stop_btns) ([], [])
  knobs ← for_range 4 0 (compare_round ◌==◌ out_of_range (λ i v. (i, v)) new.knobs old.knobs) []
  faders ← for_range 4 0 (compare_round ◌==◌ out_of_range (λ i v. (i, v)) new.faders old.faders) []
  ok (record {
    pressed_buttons = record { matrix = matrix.0; stop = stop.0; special = special.0 };
    released_buttons = record { matrix = matrix.1; stop = stop.1; special = special.1 };
    wheel_diff = int8 ((new.wheel + 256 - old.wheel) % 256);
    wheel = new.wheel;
    knobs = knobs;
    faders = faders;
  })
