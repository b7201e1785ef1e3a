-- ===== src/OscDriver/Signals/Declared.antt =====
-- What is broadcast is what was announced (NonSessionHandler.cpp, NonSignal.hpp).
use Prim.Native.String.{String, ◌++◌ as ◌<>◌}
use ni_traktor_kontrol_f.Base.{
  All-append, sym, drop, take, ℕ, zero, suc, ◌+◌, ◌<◌, ◌≤◌, ◌≡◌, refl, ap, ◌∙◌, some, List, [], ◌∷◌,
  ◌++◌, length, tabulate, get_elem?, get_elem?-append_left, get_elem?-append_right, length-tabulate,
  All, arith,
}
use ni_traktor_kontrol_f.OscDriver.InputChange.{F1InputChange}
use ni_traktor_kontrol_f.OscDriver.JackClient.Queue.{IsBtnDiff}
use ni_traktor_kontrol_f.OscDriver.Signals.{
  Level, low, high, position, NonSignal, SignalMessage, out_signal, to_string, default_signals,
  osc_sig_mtx, osc_sig_stop, osc_sig_special, osc_sig_knob, osc_sig_fader, button_messages,
  position_messages, input_bundle,
}

-- The path of a message is that of a declared signal, and its number lies in that signal's range.
abbrev InUnit : Level → Type 0
InUnit low = Unit
InUnit high = Unit
InUnit (position v) = v ≤ 0xfff

pub IsDeclared : SignalMessage → Type 0
IsDeclared m = ((i : ℕ) × (get_elem? default_signals i ≡ some (out_signal m.0))) × InUnit m.1

get_elem?-tabulate :
    (n k i : ℕ) (f : ℕ → NonSignal Level) → i < n → get_elem? (tabulate n k f) i ≡ some (f (k + i))
get_elem?-tabulate zero k i f h = absurd (omega arith)
get_elem?-tabulate (suc n) k zero f h = ap (λ x. some (f x)) {x = k} {y = k + 0} (omega arith)
get_elem?-tabulate (suc n) k (suc i) f h =
    get_elem?-tabulate n (suc k) i f (omega arith)
    ∙ ap (λ x. some (f x)) {x = suc k + i} {y = k + suc i} (omega arith)

-- `n` signals whose paths are numbered.
abbrev signal_rows : String → ℕ → List (NonSignal Level)
signal_rows prefix n = tabulate n 0 (λ i. out_signal (prefix <> to_string i))

-- The table, row by row.
abbrev rows : List (NonSignal Level)
rows =
    signal_rows osc_sig_mtx 16
    ++ (signal_rows osc_sig_stop 4
        ++ (signal_rows osc_sig_special 9
            ++ (signal_rows osc_sig_knob 4 ++ signal_rows osc_sig_fader 4)))

default_signals-eq-rows : default_signals ≡ rows
unfolding default_signals to_string
default_signals-eq-rows = refl

-- Signal `i` of some rows that stand behind `front` others.
row :
    (front rest : List (NonSignal Level)) (prefix : String) (n i : ℕ)
    → i < n
    → get_elem? (front ++ (signal_rows prefix n ++ rest)) (length front + i)
      ≡ some (out_signal (prefix <> to_string i))
row front rest prefix n i h =
    get_elem?-append_right front (signal_rows prefix n ++ rest) i
    ∙ get_elem?-append_left (signal_rows prefix n) rest i
        (omega (arith, length-tabulate n 0 (λ k. out_signal (prefix <> to_string k))))
    ∙ get_elem?-tabulate n 0 i (λ k. out_signal (prefix <> to_string k)) h
    ∙ ap (λ k. some (out_signal (prefix <> to_string k))) {x = 0 + i} {y = i} (omega arith)

module _ (front rest : List (NonSignal Level)) (prefix : String) (n : ℕ)
    (e : front ++ (signal_rows prefix n ++ rest) ≡ default_signals) where
  declared :
      (i : ℕ)
      → i < n
      → (k : ℕ) × (get_elem? default_signals k ≡ some (out_signal (prefix <> to_string i)))
  declared i h = (
    length front + i,
    ap (λ l. get_elem? l (length front + i)) (sym e) ∙ row front rest prefix n i h,
  )

  buttons-IsDeclared :
      (level : Level) (btns : List ℕ)
      → InUnit level
      → All (λ b. b < n) btns
      → All IsDeclared (button_messages prefix level btns)
  unfolding button_messages IsDeclared
  buttons-IsDeclared level [] u a = tt
  buttons-IsDeclared level (b ∷ bs) u a = ((declared b a.0, u), buttons-IsDeclared level bs u a.1)

  positions-IsDeclared :
      (values : List (ℕ × ℕ))
      → All (λ v. (v.0 < n) × (v.1 ≤ 0xfff)) values
      → All IsDeclared (position_messages prefix values)
  unfolding position_messages IsDeclared
  positions-IsDeclared [] a = tt
  positions-IsDeclared (v ∷ vs) a = ((declared v.0 a.0.0, a.0.1), positions-IsDeclared vs a.1)

-- Every message that is broadcast for a change of existing buttons, knobs and faders, with positions
-- of 12 bits, is for a signal that the driver announces, and its number lies in that signal's range.
pub input_bundle-IsDeclared :
    (c : F1InputChange)
    → IsBtnDiff c.pressed_buttons
    → IsBtnDiff c.released_buttons
    → All (λ v. (v.0 < 4) × (v.1 ≤ 0xfff)) c.knobs
    → All (λ v. (v.0 < 4) × (v.1 ≤ 0xfff)) c.faders
    → All IsDeclared (input_bundle c)
unfolding input_bundle
input_bundle-IsDeclared c p r k f =
    let after = λ (n : ℕ). drop n rows in
    let mtx = buttons-IsDeclared [] (after 16) osc_sig_mtx 16 (sym default_signals-eq-rows) in
    let stop =
      buttons-IsDeclared (take 16 rows) (after 20) osc_sig_stop 4 (sym default_signals-eq-rows) in
    let special =
      buttons-IsDeclared (take 20 rows) (after 29) osc_sig_special 9
        (sym default_signals-eq-rows) in
    let knob =
      positions-IsDeclared (take 29 rows) (after 33) osc_sig_knob 4 (sym default_signals-eq-rows) in
    let fader =
      positions-IsDeclared (take 33 rows) [] osc_sig_fader 4 (sym default_signals-eq-rows) in
    All-append IsDeclared _ _ (mtx high c.pressed_buttons.matrix tt p.matrix) (
      All-append IsDeclared _ _ (mtx low c.released_buttons.matrix tt r.matrix) (
        All-append IsDeclared _ _ (stop high c.pressed_buttons.stop tt p.stop) (
          All-append IsDeclared _ _ (stop low c.released_buttons.stop tt r.stop) (
            All-append IsDeclared _ _ (special high c.pressed_buttons.special tt p.special) (
              All-append IsDeclared _ _ (special low c.released_buttons.special tt r.special)
                (All-append IsDeclared _ _ (knob c.knobs k) (fader c.faders f)))))))
