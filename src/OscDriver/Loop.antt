-- ===== src/OscDriver/Loop.antt =====
-- driver-osc/src/exe/osc_driver.cpp: the loop of `exec_driver`, with `set_colors`.
pub mod Toggles
pub mod Lights
pub mod Rounds
use ni_traktor_kontrol_f.Base.{
  ℕ, if◌then◌else◌, Bool, true, false, not, Option, List, [], ◌∷◌, ◌++◌, Result, ok, undefined,
  out_of_range, at, set_at, index, store, replicate, ℤ, pos, ◌>>=◌,
}
use ni_traktor_kontrol_f.Base.Loops.{for_range}
use ni_traktor_kontrol_f.F1Device.Types.{InputState, ButtonColor, Brightness}
use ni_traktor_kontrol_f.OscDriver.InputChange.{F1InputChange, BtnDiff, difference}
use ni_traktor_kontrol_f.OscDriver.HidDev.{Output, read, write}

-- `F1HidDev::rgb2color`
abbrev pub rgb2c : ℕ → ℕ → ℕ → ButtonColor
rgb2c r g b = (b, r, g)

-- `colors::mtx`
abbrev pub color_row : List ButtonColor
color_row = rgb2c 0 0 0x7f ∷ rgb2c 0x7f 0 0x10 ∷ rgb2c 0 0x7f 0 ∷ rgb2c 0x7f 0x7f 0 ∷ []

abbrev pub mtx : List ButtonColor
mtx = color_row ++ (color_row ++ (color_row ++ color_row))

-- The loop over the pressed stop buttons: the toggles, and the buttons that are now on and off.
unfoldable pub toggle_stop :
    List ℕ → List Bool → (on off : List ℕ) → Result (List Bool × List ℕ × List ℕ)
toggle_stop [] toggles on off = ok (toggles, on, off)
toggle_stop (btn ∷ btns) toggles on off = do
  old ← at toggles btn
  toggles ← set_at toggles btn (not old)
  now ← index undefined toggles btn
  if now
      then toggle_stop btns toggles (on ++ (btn ∷ [])) off
      else toggle_stop btns toggles on (off ++ (btn ∷ []))

-- `F1InpuState{}`, `F1InputChange{}` and an output in static storage.
abbrev pub zero_state : InputState
zero_state = record {
  report_id = 0;
  matrix_btns = replicate 16 false;
  special_btns = replicate 9 false;
  stop_btns = replicate 4 false;
  wheel = 0;
  knobs = replicate 4 0;
  faders = replicate 4 0;
}

abbrev pub no_buttons : BtnDiff
no_buttons = record { matrix = []; stop = []; special = [] }

abbrev pub no_change : F1InputChange
no_change = record {
  pressed_buttons = no_buttons;
  released_buttons = no_buttons;
  wheel_diff = pos 0;
  wheel = 0;
  knobs = [];
  faders = [];
}

abbrev pub dark_output : Output
dark_output = record { matrix_btns = replicate 16 (0, 0, 0); stop_btns = replicate 4 0 }

-- The change with other lists for the stop buttons.
abbrev pub with_stop : (on off : List ℕ) → F1InputChange → F1InputChange
with_stop on off c = record c {
  pressed_buttons = record (c.pressed_buttons) { stop = on };
  released_buttons = record (c.released_buttons) { stop = off };
}

-- `scaled b c` is the byte `c` times `lightness_on` or `lightness_off`, as the code computes it in
-- `float`.
module _ (scaled : Bool → ℕ → ℕ) where
  abbrev pub scaled_color : Bool → ButtonColor → ButtonColor
  scaled_color b (x, y, z) = (scaled b x, scaled b y, scaled b z)

  -- The loops over matrix and over stop buttons.
  unfoldable pub light_matrix : Bool → List ℕ → List ButtonColor → Result (List ButtonColor)
  light_matrix b [] lights = ok lights
  light_matrix b (btn ∷ btns) lights = do
    color ← index undefined mtx btn
    lights ← store undefined lights btn (scaled_color b color)
    light_matrix b btns lights

  unfoldable pub light_stop : Bool → List ℕ → List Brightness → Result (List Brightness)
  light_stop b [] lights = ok lights
  light_stop b (btn ∷ btns) lights = do
    lights ← store undefined lights btn (scaled b 0x7f)
    light_stop b btns lights

  -- The part of `set_colors` that runs once.
  unfoldable pub first_colors : Output → Result Output
  first_colors output = do
    matrix_btns ←
        for_range 16 0 (λ i lights. do color ← at mtx i; set_at lights i (scaled_color false color))
          output.matrix_btns
    stop_btns ← for_range 4 0 (λ i lights. set_at lights i (scaled false 0x7f)) output.stop_btns
    ok (record { matrix_btns = matrix_btns; stop_btns = stop_btns })

  -- The lights of a change.
  unfoldable pub change_colors : F1InputChange → Output → Result Output
  change_colors input output = do
    matrix_btns ← light_matrix true input.pressed_buttons.matrix output.matrix_btns
    matrix_btns ← light_matrix false input.released_buttons.matrix matrix_btns
    stop_btns ← light_stop true input.pressed_buttons.stop output.stop_btns
    stop_btns ← light_stop false input.released_buttons.stop stop_btns
    ok (record { matrix_btns = matrix_btns; stop_btns = stop_btns })

  -- `set_colors`, given how many bytes the system call writes and the uninitialised bytes of the
  -- report: the output and `first_time` after it, and the report written last.
  unfoldable pub set_colors :
      (sent : List ℕ → Option ℕ) (bytes : List ℕ)
      → F1InputChange
      → (first_time : Bool) → Output
      → Result (Output × List ℕ)
  set_colors sent bytes input first_time output = do
    output ←
        if first_time
        then (first_colors output >>= λ o. write sent o bytes >>= λ report. ok o)
        else ok output
    output ← change_colors input output
    report ← write sent output bytes
    ok (output, report)

  module _ {Sink : Type 0} (broadcast : F1InputChange → Sink → Result Sink) where
    -- What the loop keeps: the toggles, the last state, the static output, and the session handler or
    -- the JACK client, which gets the changes.
    pub record Core : Type 0 where
      pub stop_buttons : List Bool
      pub last : InputState
      pub output : Output
      pub sink : Sink

    -- A round of the loop from the state that was read on; `set_colors` has been called before the
    -- loop.
    unfoldable pub handle_input :
        (sent : List ℕ → Option ℕ) (bytes : List ℕ) → InputState → Core → Result (Core × List ℕ)
    handle_input sent bytes current core = do
      diff ← difference current core.last
      (toggles, on, off) ← toggle_stop diff.pressed_buttons.stop core.stop_buttons [] []
      let input_diff = with_stop on off diff
      sink ← broadcast input_diff core.sink
      (output, report) ← set_colors sent bytes input_diff false core.output
      ok (record { stop_buttons = toggles; last = current; output = output; sink = sink }, report)

    unfoldable pub driver_round :
        (received : Option (List ℕ)) (sent : List ℕ → Option ℕ) (bytes : List ℕ)
        → Core
        → Result (Core × List ℕ)
    driver_round received sent bytes core = do
      current ← read received core.last
      handle_input sent bytes current core

    -- The rounds for as many reports, one behind another.
    unfoldable pub driver_rounds :
        (reports : List (Option (List ℕ))) (sent : List ℕ → Option ℕ) (bytes : List ℕ)
        → Core
        → Result Core
    driver_rounds [] sent bytes core = ok core
    driver_rounds (received ∷ reports) sent bytes core = do
      (core, report) ← driver_round received sent bytes core
      driver_rounds reports sent bytes core

    -- `exec_driver` from the first call of `set_colors` on, for as many reports: the static output and
    -- the states begin with zeros.
    unfoldable pub exec_loop :
        (reports : List (Option (List ℕ))) (sent : List ℕ → Option ℕ) (bytes : List ℕ)
        → Sink
        → Result Core
    exec_loop reports sent bytes sink = do
      (output, report) ← set_colors sent bytes no_change true dark_output
      driver_rounds reports sent bytes (record {
        stop_buttons = replicate 4 false;
        last = zero_state;
        output = output;
        sink = sink;
      })
