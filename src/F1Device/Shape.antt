-- ===== src/F1Device/Shape.antt =====
-- Input states by their items, where the extents of their arrays are known.
use ni_traktor_kontrol_f.Base.{
  ℕ, ◌≡◌, ap, ◌∙◌, Bool, false, List, get_or, tabulate, length, eq-tabulate,
}
use ni_traktor_kontrol_f.F1Device.Types.{InputState, HasShape}

-- A state whose arrays have the right extents, by its items.
module _ (id : ℕ) (f g h : ℕ → Bool) (w : ℕ) (k d : ℕ → ℕ) where
  abbrev pub built : InputState
  built = record {
    report_id = id;
    matrix_btns = tabulate 16 0 f;
    special_btns = tabulate 9 0 g;
    stop_btns = tabulate 4 0 h;
    wheel = w;
    knobs = tabulate 4 0 k;
    faders = tabulate 4 0 d;
  }

abbrev pub rebuilt : InputState → InputState
rebuilt s =
    built s.report_id (λ i. get_or s.matrix_btns i false) (λ i. get_or s.special_btns i false)
      (λ i. get_or s.stop_btns i false) s.wheel (λ i. get_or s.knobs i 0) (λ i. get_or s.faders i 0)

pub full {ℓ} :
    {A : Type ℓ} (n : ℕ) (xs : List A) (a : A)
    → length xs ≡ n
    → xs ≡ tabulate n 0 (λ i. get_or xs i a)
full n xs a e = eq-tabulate xs a ∙ ap (λ m. tabulate m 0 (λ i. get_or xs i a)) e

pub rebuilt_lem : (s : InputState) → HasShape s → s ≡ rebuilt s
rebuilt_lem s v = λ i. record {
  report_id = s.report_id;
  matrix_btns = full 16 s.matrix_btns false v.matrix_16 i;
  special_btns = full 9 s.special_btns false v.special_9 i;
  stop_btns = full 4 s.stop_btns false v.stop_4 i;
  wheel = s.wheel;
  knobs = full 4 s.knobs 0 v.knobs_4 i;
  faders = full 4 s.faders 0 v.faders_4 i;
}
