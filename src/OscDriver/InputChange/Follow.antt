-- ===== src/OscDriver/InputChange/Follow.antt =====
-- The difference of two states carries the old one over to the new one.
use ni_traktor_kontrol_f.Base.{
  ℕ, suc, ◌+◌, ◌-◌, ◌%◌, int8, ◌==◌, ==_iff, ◌≡◌, refl, ap, ◌∙◌, sym, Bool, true, false, List, [],
  ◌∷◌, ◌++◌, some, Returns, ok, out_of_range, get_elem?, set, length, arith,
}
use mathlib.Core.List.{append-nil, append_assoc, map-id}
use ni_traktor_kontrol_f.Base.Loops.{for_range}
use ni_traktor_kontrol_f.Base.Changes.{compare_round, changes, compare_lem, patch, patch-changes}
use ni_traktor_kontrol_f.F1Device.Types.{InputState, HasShape}
use ni_traktor_kontrol_f.OscDriver.InputChange.{F1InputChange, button_round, difference}

-- Button `i`, if it is as `b` tells in the first state and not in the second.
abbrev pub turned_here : Bool → ℕ → Bool → Bool → List ℕ
turned_here true i true false = i ∷ []
turned_here false i false true = i ∷ []
turned_here _ i _ _ = []

unfoldable pub turned : Bool → ℕ → List Bool → List Bool → List ℕ
turned b i [] ys = []
turned b i (x ∷ xs) [] = []
turned b i (x ∷ xs) (y ∷ ys) = turned_here b i x y ++ turned b (suc i) xs ys

button_round_lem :
    (new old : List Bool) (i : ℕ) (x y : Bool) (pressed released : List ℕ)
    → get_elem? new i ≡ some x
    → get_elem? old i ≡ some y
    → button_round new old i (pressed, released)
      ≡ ok (pressed ++ turned_here true i x y, released ++ turned_here false i x y)
unfolding button_round
button_round_lem new old i true true p r e f = simp (e, f, append-nil)
button_round_lem new old i true false p r e f = simp (e, f, append-nil)
button_round_lem new old i false true p r e f = simp (e, f, append-nil)
button_round_lem new old i false false p r e f = simp (e, f, append-nil)

buttons_from :
    (new old xs ys : List Bool) (i : ℕ) (pressed released : List ℕ)
    → length xs ≡ length ys
    → ((k : ℕ) → get_elem? new (i + k) ≡ get_elem? xs k)
    → ((k : ℕ) → get_elem? old (i + k) ≡ get_elem? ys k)
    → for_range (length xs) i (button_round new old) (pressed, released)
      ≡ ok (pressed ++ turned true i xs ys, released ++ turned false i xs ys)
unfolding for_range turned
buttons_from new old [] ys i p r n f g = simp append-nil
buttons_from new old (x ∷ xs) [] i p r n f g = absurd (omega arith)
buttons_from new old (x ∷ xs) (y ∷ ys) i p r n f g =
    let px : get_elem? new i ≡ some x = ap (get_elem? new) (omega arith) ∙ f 0 in
    let qy : get_elem? old i ≡ some y = ap (get_elem? old) (omega arith) ∙ g 0 in
    rw (button_round_lem new old i x y p r px qy, ← append_assoc p, ← append_assoc r)
      (buttons_from new old xs ys (suc i) (p ++ turned_here true i x y)
        (r ++ turned_here false i x y) (omega arith)
        (λ k. ap (get_elem? new) (omega arith) ∙ f (suc k))
        (λ k. ap (get_elem? old) (omega arith) ∙ g (suc k)))

buttons_lem :
    (n : ℕ) (new old : List Bool)
    → length new ≡ n
    → length old ≡ n
    → for_range n 0 (button_round new old) ([], [])
      ≡ ok (turned true 0 new old, turned false 0 new old)
buttons_lem n new old e f = rw (← e) (
    buttons_from new old new old 0 [] [] (e ∙ sym f) (λ k. ap (get_elem? new) (omega arith))
      (λ k. ap (get_elem? old) (omega arith)))

-- Setting the listed buttons.
unfoldable pub set_all : Bool → List ℕ → List Bool → List Bool
set_all b [] old = old
set_all b (i ∷ is) old = set_all b is (set old i b)

pub set_all-cons :
    (b : Bool) (z : Bool) (i : ℕ) (xs ys ws : List Bool)
    → set_all b (turned b (suc i) xs ys) (z ∷ ws) ≡ z ∷ set_all b (turned b i xs ys) ws
unfolding set_all turned
set_all-cons b z i [] ys ws = refl
set_all-cons b z i (x ∷ xs) [] ws = refl
set_all-cons true z i (true ∷ xs) (true ∷ ys) ws = set_all-cons true z (suc i) xs ys ws
set_all-cons true z i (true ∷ xs) (false ∷ ys) ws =
    set_all-cons true z (suc i) xs ys (set ws i true)
set_all-cons true z i (false ∷ xs) (y ∷ ys) ws = set_all-cons true z (suc i) xs ys ws
set_all-cons false z i (true ∷ xs) (y ∷ ys) ws = set_all-cons false z (suc i) xs ys ws
set_all-cons false z i (false ∷ xs) (false ∷ ys) ws = set_all-cons false z (suc i) xs ys ws
set_all-cons false z i (false ∷ xs) (true ∷ ys) ws =
    set_all-cons false z (suc i) xs ys (set ws i false)

set_all-turned :
    (new old : List Bool)
    → length new ≡ length old
    → set_all true (turned true 0 new old) (set_all false (turned false 0 new old) old) ≡ new
unfolding set_all turned
set_all-turned [] [] n = refl
set_all-turned [] (y ∷ ys) n = absurd (omega arith)
set_all-turned (x ∷ xs) [] n = absurd (omega arith)
set_all-turned (true ∷ xs) (true ∷ ys) n = rw (
  set_all-cons false true 0 xs ys ys,
  set_all-cons true true 0 xs ys (set_all false (turned false 0 xs ys) ys),
  set_all-turned xs ys (omega arith),
)
set_all-turned (true ∷ xs) (false ∷ ys) n = rw (
  set_all-cons false false 0 xs ys ys,
  set_all-cons true true 0 xs ys (set_all false (turned false 0 xs ys) ys),
  set_all-turned xs ys (omega arith),
)
set_all-turned (false ∷ xs) (true ∷ ys) n = rw (
  set_all-cons false false 0 xs ys ys,
  set_all-cons true false 0 xs ys (set_all false (turned false 0 xs ys) ys),
  set_all-turned xs ys (omega arith),
)
set_all-turned (false ∷ xs) (false ∷ ys) n = rw (
  set_all-cons false false 0 xs ys ys,
  set_all-cons true false 0 xs ys (set_all false (turned false 0 xs ys) ys),
  set_all-turned xs ys (omega arith),
)

-- What a listener that knows a state makes of a change.
unfoldable pub apply_buttons : List ℕ → List ℕ → List Bool → List Bool
apply_buttons pressed released old = set_all true pressed (set_all false released old)

unfoldable pub apply_change : F1InputChange → InputState → InputState
unfolding apply_buttons
apply_change c s = record s {
  matrix_btns = apply_buttons c.pressed_buttons.matrix c.released_buttons.matrix s.matrix_btns;
  special_btns = apply_buttons c.pressed_buttons.special c.released_buttons.special s.special_btns;
  stop_btns = apply_buttons c.pressed_buttons.stop c.released_buttons.stop s.stop_btns;
  wheel = c.wheel;
  knobs = patch ◌==◌ s.knobs c.knobs;
  faders = patch ◌==◌ s.faders c.faders;
}

values_lem :
    (new old : List ℕ)
    → length new ≡ 4
    → length old ≡ 4
    → for_range 4 0 (compare_round ◌==◌ out_of_range (λ i v. (i, v)) new old) []
      ≡ ok (changes ◌==◌ 0 new old)
values_lem new old e f =
    compare_lem ◌==◌ out_of_range (λ i v. (i, v)) new old 4 [] e f ∙ ap ok (map-id _)

unfoldable pub expected : InputState → InputState → F1InputChange
expected new old = record {
  pressed_buttons = record {
    matrix = turned true 0 new.matrix_btns old.matrix_btns;
    stop = turned true 0 new.stop_btns old.stop_btns;
    special = turned true 0 new.special_btns old.special_btns;
  };
  released_buttons = record {
    matrix = turned false 0 new.matrix_btns old.matrix_btns;
    stop = turned false 0 new.stop_btns old.stop_btns;
    special = turned false 0 new.special_btns old.special_btns;
  };
  wheel_diff = int8 ((new.wheel + 256 - old.wheel) % 256);
  wheel = new.wheel;
  knobs = changes ◌==◌ 0 new.knobs old.knobs;
  faders = changes ◌==◌ 0 new.faders old.faders;
}

pub difference-expected :
    (new old : InputState)
    → HasShape new
    → HasShape old
    → difference new old ≡ ok (expected new old)
unfolding difference expected
difference-expected new old v w = rw (
  buttons_lem 16 new.matrix_btns old.matrix_btns v.matrix_16 w.matrix_16,
  buttons_lem 9 new.special_btns old.special_btns v.special_9 w.special_9,
  buttons_lem 4 new.stop_btns old.stop_btns v.stop_4 w.stop_4,
  values_lem new.knobs old.knobs v.knobs_4 w.knobs_4,
  values_lem new.faders old.faders v.faders_4 w.faders_4,
)

-- The difference of two states is computed without an access out of range, and a listener that
-- knows the old state and applies it knows the new one (all but the report's id).
pub difference-apply_change :
    (new old : InputState)
    → HasShape new
    → HasShape old
    → Returns
        (λ c. apply_change c old ≡ record new { report_id = old.report_id })
        (difference new old)
unfolding apply_change apply_buttons expected
difference-apply_change new old v w = (
  expected new old,
  difference-expected new old v w,
  rw (
    set_all-turned new.matrix_btns old.matrix_btns (v.matrix_16 ∙ sym w.matrix_16),
    set_all-turned new.special_btns old.special_btns (v.special_9 ∙ sym w.special_9),
    set_all-turned new.stop_btns old.stop_btns (v.stop_4 ∙ sym w.stop_4),
    patch-changes ◌==◌ ==_iff new.knobs old.knobs (v.knobs_4 ∙ sym w.knobs_4),
    patch-changes ◌==◌ ==_iff new.faders old.faders (v.faders_4 ∙ sym w.faders_4),
  ),
)
