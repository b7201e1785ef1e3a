-- ===== src/Devtest.antt =====
-- driver/src/devtest.cpp: a program that plays with the lights in one thread and prints the input in
-- another. They share the device and the last input state, and take turns in whole rounds.
pub mod Lights
pub mod Text
pub mod Reach
use Prim.Native.String.{String, ◌++◌ as ◌<>◌}
use ni_traktor_kontrol_f.Base.{
  ℕ, ◌+◌, ◌*◌, ◌/◌, ◌%◌, ◌<◌, ◌==◌, ◌≡◌, ltb, if◌then◌else◌, Bool, Option, none, some, List, length,
  All, Result, ok, undefined, at, set_at, index, ◌>>=◌, ◌⊎◌, inl, inr,
}
use ni_traktor_kontrol_f.Base.Loops.{for_range}
use ni_traktor_kontrol_f.F1Device.Types.{
  InputState, OutputState, ButtonColor, Brightness, Impl, dark, faders_max, knobs_max,
  full_brightness, input_report_size, knobs_num, faders_num, matrix_buttons_num, max_brightness,
  max_segment_num, output_report_size, special_buttons_num, stop_buttons_num,
}
use ni_traktor_kontrol_f.F1Device.Helpers.{matrix_pos, num_to_segments, special_btn_name}
use ni_traktor_kontrol_f.F1Device.Output.{construct}
use ni_traktor_kontrol_f.F1Device.Input.Total.{IsWellFormed}
use ni_traktor_kontrol_f.HidDevice.{FileDescriptor, Node, discover_device}
use ni_traktor_kontrol_f.Driver.{read, write}

-- What the threads share, and the colour counter of the first one.
pub record Devtest : Type 0 where
  pub dev : Impl
  pub brightness_offset : ℕ
  pub input_state : InputState

-- The brightness of button `i`, and the colour made of a brightness.
abbrev pub brightness : (brightness_offset i : ℕ) → Brightness
brightness brightness_offset i = ((i + 1) * 8 + brightness_offset) % max_brightness

abbrev pub color : Brightness → ButtonColor
color b =
    (b, (b + max_brightness / 3) % max_brightness, (b + max_brightness / 3 * 2) % max_brightness)

unfoldable pub light_button :
    (brightness_offset i : ℕ)
    → List ButtonColor × List Brightness
    → Result (List ButtonColor × List Brightness)
light_button brightness_offset i (matrix_btns, stop_btns) = do
  matrix_btns ← set_at matrix_btns i (color (brightness brightness_offset i))
  stop_btns ←
      if ltb i stop_buttons_num
      then set_at stop_btns i (brightness brightness_offset i)
      else ok stop_btns
  ok (matrix_btns, stop_btns)

unfoldable pub light_special :
    (brightness_offset : ℕ) → List Bool → ℕ → List Brightness → Result (List Brightness)
light_special brightness_offset pressed i special_btns = do
  b ← index undefined pressed i
  set_at special_btns i (if b then full_brightness else brightness_offset % max_brightness)

-- The lights of a round.
unfoldable pub light_all : (brightness_offset : ℕ) → InputState → OutputState → Result OutputState
unfolding light_button light_special
light_all brightness_offset input output = do
  (matrix_btns, stop_btns) ←
      for_range matrix_buttons_num 0 (light_button brightness_offset)
        (output.matrix_btns, output.stop_btns)
  special_btns ←
      for_range special_buttons_num 0 (light_special brightness_offset input.special_btns)
        output.special_btns
  (left, right) ← num_to_segments (brightness_offset % max_segment_num)
  let even = brightness_offset / 10 % 2 == 0
  ok (record {
    report_id = output.report_id;
    matrix_btns = matrix_btns;
    stop_btns = stop_btns;
    special_btns = special_btns;
    segment_left_char = left;
    segment_right_char = right;
    segment_left_dot = if even then full_brightness else dark;
    segment_right_dot = if even then dark else brightness_offset % max_brightness;
    segment_left_brightness = full_brightness;
    segment_right_brightness = full_brightness;
  })

-- A round of the first thread, with the report that the device was given.
unfoldable pub light_round : (written : Option ℕ) → Devtest → Result (Devtest × List ℕ)
unfolding light_all
light_round written d = do
  let brightness_offset = (d.brightness_offset + 1) % 256
  output ← light_all brightness_offset d.input_state d.dev.output_state
  w ← write written (record (d.dev) { output_state = output })
  ok (record { dev = w.0; brightness_offset = brightness_offset; input_state = d.input_state }, w.1)

abbrev pub border : String
border = "+---+---+---+---+\n"

-- How the stream prints a number, and a part of a whole in percent, computed in `float`.
module _ (number : ℕ → String) (percentage : (part whole : ℕ) → String) where
  abbrev pub print_position : (whole : ℕ) → List ℕ → ℕ → String → Result String
  print_position whole positions i out = do
    v ← at positions i
    ok (out <> " " <> percentage v whole <> "%")

  abbrev pub print_special : List Bool → ℕ → String → Result String
  print_special pressed i out = do
    b ← index undefined pressed i
    ok (if b then out <> " " <> special_btn_name i else out)

  abbrev pub print_cell : List Bool → (i j : ℕ) → String → Result String
  print_cell pressed i j out = do
    b ← index undefined pressed (matrix_pos j i)
    ok (out <> "| " <> (if b then "x " else "  "))

  abbrev pub print_row : List Bool → ℕ → String → Result String
  print_row pressed i out = do
    out ← for_range 4 0 (print_cell pressed i) (out <> border)
    ok (out <> "|\n")

  abbrev pub print_stop : List Bool → ℕ → String → Result String
  print_stop pressed i out = do
    b ← index undefined pressed i
    ok (out <> (if b then "|STP" else "|   "))

  -- What a round prints.
  unfoldable pub print_state : InputState → Result String
  print_state s = do
    out ← for_range knobs_num 0 (print_position knobs_max s.knobs) "KNOBS:"
    out ← for_range faders_num 0 (print_position faders_max s.faders) (out <> "\nFADERS:")
    out ←
        for_range special_buttons_num 0 (print_special s.special_btns)
          (out <> "\nWHEEL: " <> number s.wheel <> "\n" <> "SP:")
    out ← for_range 4 0 (print_row s.matrix_btns) (out <> "\n")
    out ← for_range 4 0 (print_stop s.stop_btns) (out <> border <> border)
    ok (out <> "|\n" <> border)

  -- A round of the second thread, with what it prints.
  unfoldable pub read_round : (received : Option (List ℕ)) → Devtest → Result (Devtest × String)
  unfolding print_state
  read_round received d = do
    dev ← read received d.dev
    text ← print_state dev.input_state
    ok (record d { dev = dev; input_state = dev.input_state }, text)

abbrev pub no_device_found : ℕ
no_device_found = 2

-- The search is the loop of `discover_device`, which the device that is found ends.
unfoldable pub find_device :
    (closes : ℕ → Bool) (nodes : ℕ → Node) → List ℕ → Result (Option FileDescriptor × List ℕ)
find_device = discover_device

-- The state that the threads start with, given what the members of the device and `input_state` held.
unfoldable pub start_threads : (a b input_state : InputState) → Result Devtest
unfolding construct
start_threads a b input_state = do
  dev ← construct a b
  ok (record { dev = dev; brightness_offset = 0; input_state = input_state })

-- `main` up to its threads: an exit code, or that state.
unfoldable pub start :
    (closes : ℕ → Bool) (nodes : ℕ → Node)
    → List ℕ
    → (a b input_state : InputState) → Result (ℕ ⊎ Devtest)
unfolding find_device start_threads
start closes nodes open_fds a b input_state = do
  (f, open_fds) ← find_device closes nodes open_fds
  elim f [
    | none ↦ ok (inl no_device_found)
    | some fd ↦ (start_threads a b input_state >>= λ s. ok (inr s))
  ]
