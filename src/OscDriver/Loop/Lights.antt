-- ===== src/OscDriver/Loop/Lights.antt =====
-- What the lights show in the loop of `exec_driver` (osc_driver.cpp).
use ni_traktor_kontrol_f.Base.{
  subst, ok-injective, ℕ, zero, suc, ◌+◌, ◌<◌, ◌≡◌, refl, ap, sym, ◌∙◌, Bool, true, false, Option,
  some, List, [], ◌∷◌, length, length-set, get_or, set, All, Result, ok, undefined, index-lt,
  store-lt, arith,
}
use ni_traktor_kontrol_f.F1Device.Types.{
  InputState, HasShape, ButtonColor, Brightness, black, output_report_size,
}
use ni_traktor_kontrol_f.F1Device.Output.Layout.{layout}
use ni_traktor_kontrol_f.OscDriver.HidDev.{Output, write}
use ni_traktor_kontrol_f.OscDriver.HidDev.Laws.{as_output_state, write-layout}
use ni_traktor_kontrol_f.OscDriver.InputChange.{F1InputChange}
use ni_traktor_kontrol_f.OscDriver.InputChange.Follow.{
  turned, set_all, expected, difference-expected,
}
use ni_traktor_kontrol_f.OscDriver.InputChange.Rising.{
  IsRising-All, turned-IsRising, set_all_pressed_first,
}
use ni_traktor_kontrol_f.OscDriver.Loop.{
  mtx, scaled_color, light_matrix, light_stop, change_colors, set_colors, Core, with_stop,
  handle_input, toggle_stop,
}
use ni_traktor_kontrol_f.OscDriver.Loop.Toggles.{
  IsToggled, toggle_stop-IsToggled, flip_all, switched, toggle_stop-flip_all, length-flip_all,
}

-- Light `i` shows what `shade i` makes of its button.
unfoldable pub lights_of {ℓ} : {C : Type ℓ} → (ℕ → Bool → C) → ℕ → List Bool → List C
lights_of shade i [] = []
lights_of shade i (b ∷ bs) = shade i b ∷ lights_of shade (suc i) bs

length-lights_of :
    {C : Type 0} (shade : ℕ → Bool → C) (i : ℕ) (bs : List Bool)
    → length (lights_of shade i bs) ≡ length bs
unfolding lights_of
length-lights_of shade i [] = refl
length-lights_of shade i (b ∷ bs) = ap suc (length-lights_of shade (suc i) bs)

set-lights_of :
    {C : Type 0} (shade : ℕ → Bool → C) (i n : ℕ) (b : Bool) (bs : List Bool)
    → set (lights_of shade i bs) n (shade (i + n) b) ≡ lights_of shade i (set bs n b)
unfolding lights_of
set-lights_of shade i n b [] = refl
set-lights_of shade i zero b (x ∷ bs) =
    ap (λ k. shade k b ∷ lights_of shade (suc i) bs) {x = i + 0} {y = i} (omega arith)
set-lights_of shade i (suc n) b (x ∷ bs) =
    ap (λ k. shade i x ∷ set (lights_of shade (suc i) bs) n (shade k b)) {x = i + suc n}
      {y = suc i + n} (omega arith)
    ∙ ap (λ r. shade i x ∷ r) (set-lights_of shade (suc i) n b bs)

length-set_all : (b : Bool) (is : List ℕ) (xs : List Bool) → length (set_all b is xs) ≡ length xs
unfolding set_all
length-set_all b [] xs = refl
length-set_all b (i ∷ is) xs = length-set_all b is (set xs i b) ∙ length-set xs i b

-- The toggles after a state, and the change that is broadcast for it: the stop buttons in it are
-- those that their toggles switched on and off.
abbrev pub next_toggles : (new old : InputState) → List Bool → List Bool
next_toggles new old = flip_all (turned true 0 new.stop_btns old.stop_btns)

abbrev pub round_change : (new old : InputState) → List Bool → F1InputChange
round_change new old toggles =
    let btns = turned true 0 new.stop_btns old.stop_btns in
    with_stop (switched true btns toggles) (switched false btns toggles) (expected new old)

pub length-next_toggles :
    (new old : InputState) (toggles : List Bool)
    → length (next_toggles new old toggles) ≡ length toggles
length-next_toggles new old toggles = length-flip_all _ toggles

module _ (scaled : Bool → ℕ → ℕ) where
  -- The shades of a matrix and of a stop button that is on or off.
  abbrev pub matrix_shade : ℕ → Bool → ButtonColor
  matrix_shade i b = scaled_color scaled b (get_or mtx i black)

  abbrev pub stop_shade : ℕ → Bool → Brightness
  stop_shade i b = scaled b 0x7f

  light_matrix-lights_of :
      (b : Bool) (btns : List ℕ) (bs : List Bool)
      → All (λ i. i < 16) btns
      → length bs ≡ 16
      → light_matrix scaled b btns (lights_of matrix_shade 0 bs)
        ≡ ok (lights_of matrix_shade 0 (set_all b btns bs))
  unfolding light_matrix set_all
  light_matrix-lights_of b [] bs a m = refl
  light_matrix-lights_of b (i ∷ is) bs a m =
      rw
        (
          index-lt undefined mtx i black a.0,
          store-lt undefined (lights_of matrix_shade 0 bs) i (matrix_shade i b)
              (omega (arith, a.0, m, length-lights_of matrix_shade 0 bs)),
          shown,
        )
        (light_matrix-lights_of b is (set bs i b) a.1 (length-set bs i b ∙ m))
    where
      shown :
          set (lights_of matrix_shade 0 bs) i (matrix_shade i b)
          ≡ lights_of matrix_shade 0 (set bs i b)
      shown =
          ap (λ k. set (lights_of matrix_shade 0 bs) i (matrix_shade k b)) {x = i} {y = 0 + i}
            (omega arith)
          ∙ set-lights_of matrix_shade 0 i b bs

  light_stop-lights_of :
      (b : Bool) (btns : List ℕ) (bs : List Bool)
      → All (λ i. i < 4) btns
      → length bs ≡ 4
      → light_stop scaled b btns (lights_of stop_shade 0 bs)
        ≡ ok (lights_of stop_shade 0 (set_all b btns bs))
  unfolding light_stop set_all
  light_stop-lights_of b [] bs a m = refl
  light_stop-lights_of b (i ∷ is) bs a m =
      rw
        (
          store-lt undefined (lights_of stop_shade 0 bs) i (scaled b 0x7f)
              (omega (arith, a.0, m, length-lights_of stop_shade 0 bs)),
          set-lights_of stop_shade 0 i b bs,
        )
        (light_stop-lights_of b is (set bs i b) a.1 (length-set bs i b ∙ m))

  -- The lights of a matrix state and of toggles.
  abbrev pub shown_output : (matrix_btns toggles : List Bool) → Output
  shown_output matrix_btns toggles = record {
    matrix_btns = lights_of matrix_shade 0 matrix_btns;
    stop_btns = lights_of stop_shade 0 toggles;
  }

  change_colors-shown :
      (new old : InputState) (toggles : List Bool) (r : List Bool × List ℕ × List ℕ)
      → HasShape new
      → HasShape old
      → length toggles ≡ 4
      → IsToggled 4 toggles r
      → change_colors scaled
          (with_stop r.1 r.2 (expected new old))
          (shown_output old.matrix_btns toggles)
        ≡ ok (shown_output new.matrix_btns r.0)
  unfolding change_colors expected
  change_colors-shown new old toggles r v w m t = rw (
    light_matrix-lights_of true pressed old.matrix_btns
        (IsRising-All 0 16 pressed
          (turned-IsRising true 0 16 new.matrix_btns old.matrix_btns (omega (arith, v.matrix_16))))
        w.matrix_16,
    light_matrix-lights_of false released (set_all true pressed old.matrix_btns)
        (IsRising-All 0 16 released
          (turned-IsRising false 0 16 new.matrix_btns old.matrix_btns (omega (arith, v.matrix_16))))
        (length-set_all true pressed old.matrix_btns ∙ w.matrix_16),
    light_stop-lights_of true r.1 toggles t.on_below m,
    light_stop-lights_of false r.2 (set_all true r.1 toggles) t.off_below
        (length-set_all true r.1 toggles ∙ m),
    set_all_pressed_first new.matrix_btns old.matrix_btns (v.matrix_16 ∙ sym w.matrix_16),
    t.follows,
  )
    where
      pressed : List ℕ
      pressed = turned true 0 new.matrix_btns old.matrix_btns

      released : List ℕ
      released = turned false 0 new.matrix_btns old.matrix_btns

  module _ {Sink : Type 0} (broadcast : F1InputChange → Sink → Result Sink) where
    -- The core whose lights show a state and toggles: a matrix light its button, and a stop light its
    -- button's toggle.
    abbrev pub shown_core : InputState → List Bool → Sink → Core scaled broadcast
    shown_core last toggles sink = record {
      stop_buttons = toggles;
      last = last;
      output = shown_output last.matrix_btns toggles;
      sink = sink;
    }

    -- A round on a state of the right shape: the lights then show it, and they are what was sent to
    -- the device.
    pub handle_input-shown_core :
        (sent : List ℕ → Option ℕ) (bytes : List ℕ) (current last : InputState)
        (toggles : List Bool) (sink : Sink) {next : Sink}
        → broadcast (round_change current last toggles) sink ≡ ok next
        → ((report : List ℕ) → sent report ≡ some output_report_size)
        → length bytes ≡ output_report_size
        → HasShape current
        → HasShape last
        → length toggles ≡ 4
        → handle_input scaled broadcast sent bytes current (shown_core last toggles sink)
          ≡ ok (
            shown_core current (next_toggles current last toggles) next,
            layout (
                as_output_state
                  (shown_output current.matrix_btns (next_toggles current last toggles))),
          )
    unfolding handle_input set_colors expected
    handle_input-shown_core sent bytes current last toggles sink can taken n v w m =
        rw (difference-expected current last v w, toggled, can, colored, wrote)
      where
        btns : List ℕ
        btns = turned true 0 current.stop_btns last.stop_btns

        next_output : Output
        next_output = shown_output current.matrix_btns (next_toggles current last toggles)

        toggled :
            toggle_stop btns toggles [] []
            ≡ ok (flip_all btns toggles, switched true btns toggles, switched false btns toggles)
        toggled =
            toggle_stop-flip_all btns 4 toggles
              (IsRising-All 0 4 btns (
                turned-IsRising true 0 4 current.stop_btns last.stop_btns
                  (omega (arith, v.stop_4))))
              m

        is_toggled :
            IsToggled 4 toggles
              (flip_all btns toggles, switched true btns toggles, switched false btns toggles)
        is_toggled =
            let (r, e, t) =
              toggle_stop-IsToggled btns 4 toggles
                (turned-IsRising true 0 4 current.stop_btns last.stop_btns
                  (omega (arith, v.stop_4)))
                m in
            subst (IsToggled 4 toggles) (ok-injective (sym e ∙ toggled)) t

        colored :
            change_colors scaled
              (round_change current last toggles)
              (shown_output last.matrix_btns toggles)
            ≡ ok next_output
        colored = change_colors-shown current last toggles _ v w m is_toggled

        wrote : write sent next_output bytes ≡ ok (layout (as_output_state next_output))
        wrote =
            write-layout sent next_output bytes
              (length-lights_of matrix_shade 0 current.matrix_btns ∙ v.matrix_16)
              (length-lights_of stop_shade 0 _ ∙ length-next_toggles current last toggles ∙ m) n
              (taken _)
