-- ===== src/OscDriver/Signals.antt =====
-- Signals and the messages that announce and carry them: driver-osc/src/NonSignal.hpp, and
-- `broadcast_input_event` and `handle_signal_list` of NonSessionHandler.cpp.
pub mod Declared
use Prim.Native.String.{String, ◌++◌ as ◌<>◌}
use ni_traktor_kontrol_f.Base.{
  ℕ, zero, suc, ◌/◌, ◌%◌, ltb, if◌then◌else◌, Bool, Option, none, some, List, [], ◌∷◌, ◌++◌, map,
  Result, ok, err, assert_failed, from_option, ◌>>=◌,
}
use ni_traktor_kontrol_f.Jack.{JackRing}
use ni_traktor_kontrol_f.OscDriver.InputChange.{F1InputChange}
use ni_traktor_kontrol_f.OscDriver.JackClient.{JackClient, push_event}

pub data Direction : Type 0 where
  in_direction out_direction bidirectional : Direction

unfoldable pub direction_str : Direction → String
direction_str in_direction = "in"
direction_str out_direction = "out"
direction_str bidirectional = "out"

-- The numbers that the messages carry as `float`: 0, 1, and a position as a part of 0xfff.
pub data Level : Type 0 where
  low high : Level
  position : ℕ → Level

-- `NonSignal`, for a type of `float`.
pub record NonSignal (F : Type 0) : Type 0 where
  pub path : String
  pub min : F
  pub max : F
  pub default_value : F
  pub direction : Direction

abbrev pub osc_sig_mtx : String
osc_sig_mtx = "/kontrolf1/mtx/"

abbrev pub osc_sig_stop : String
osc_sig_stop = "/kontrolf1/stop/"

abbrev pub osc_sig_special : String
osc_sig_special = "/kontrolf1/special/"

abbrev pub osc_sig_knob : String
osc_sig_knob = "/kontrolf1/knob/"

abbrev pub osc_sig_fader : String
osc_sig_fader = "/kontrolf1/fader/"

abbrev pub osc_btn_pressed : Level
osc_btn_pressed = high

abbrev pub osc_btn_released : Level
osc_btn_released = low

abbrev pub out_signal : String → NonSignal Level
out_signal path = record {
  path = path;
  min = low;
  max = high;
  default_value = low;
  direction = out_direction;
}

-- `F1Default::signals`
unfoldable pub default_signals : List (NonSignal Level)
default_signals =
    out_signal "/kontrolf1/mtx/0"
    ∷ out_signal "/kontrolf1/mtx/1"
    ∷ out_signal "/kontrolf1/mtx/2"
    ∷ out_signal "/kontrolf1/mtx/3"
    ∷ out_signal "/kontrolf1/mtx/4"
    ∷ out_signal "/kontrolf1/mtx/5"
    ∷ out_signal "/kontrolf1/mtx/6"
    ∷ out_signal "/kontrolf1/mtx/7"
    ∷ out_signal "/kontrolf1/mtx/8"
    ∷ out_signal "/kontrolf1/mtx/9"
    ∷ out_signal "/kontrolf1/mtx/10"
    ∷ out_signal "/kontrolf1/mtx/11"
    ∷ out_signal "/kontrolf1/mtx/12"
    ∷ out_signal "/kontrolf1/mtx/13"
    ∷ out_signal "/kontrolf1/mtx/14"
    ∷ out_signal "/kontrolf1/mtx/15"
    ∷ out_signal "/kontrolf1/stop/0"
    ∷ out_signal "/kontrolf1/stop/1"
    ∷ out_signal "/kontrolf1/stop/2"
    ∷ out_signal "/kontrolf1/stop/3"
    ∷ out_signal "/kontrolf1/special/0"
    ∷ out_signal "/kontrolf1/special/1"
    ∷ out_signal "/kontrolf1/special/2"
    ∷ out_signal "/kontrolf1/special/3"
    ∷ out_signal "/kontrolf1/special/4"
    ∷ out_signal "/kontrolf1/special/5"
    ∷ out_signal "/kontrolf1/special/6"
    ∷ out_signal "/kontrolf1/special/7"
    ∷ out_signal "/kontrolf1/special/8"
    ∷ out_signal "/kontrolf1/knob/0"
    ∷ out_signal "/kontrolf1/knob/1"
    ∷ out_signal "/kontrolf1/knob/2"
    ∷ out_signal "/kontrolf1/knob/3"
    ∷ out_signal "/kontrolf1/fader/0"
    ∷ out_signal "/kontrolf1/fader/1"
    ∷ out_signal "/kontrolf1/fader/2"
    ∷ out_signal "/kontrolf1/fader/3"
    ∷ []

-- `std::to_string`
digit : ℕ → String
digit zero = "0"
digit (suc zero) = "1"
digit (suc (suc zero)) = "2"
digit (suc (suc (suc zero))) = "3"
digit (suc (suc (suc (suc zero)))) = "4"
digit (suc (suc (suc (suc (suc zero))))) = "5"
digit (suc (suc (suc (suc (suc (suc zero)))))) = "6"
digit (suc (suc (suc (suc (suc (suc (suc zero))))))) = "7"
digit (suc (suc (suc (suc (suc (suc (suc (suc zero)))))))) = "8"
digit _ = "9"

-- The decimal digits of a number that has at most `n`.
print : (n : ℕ) → ℕ → String
unfolding digit
print zero v = ""
print (suc n) v =
    let above = print n (v / 10) in if ltb v 10 then digit v else above <> digit (v % 10)

-- A number has at most as many decimal digits as one more than its value.
unfoldable pub to_string : ℕ → String
unfolding print
to_string v = print (suc v) v

-- A message of a bundle: the path that it is for, and its number.
abbrev pub SignalMessage : Type 0
SignalMessage = String × Level

unfoldable pub button_messages : String → Level → List ℕ → List SignalMessage
button_messages prefix level = map (λ btn. (prefix <> to_string btn, level))

unfoldable pub position_messages : String → List (ℕ × ℕ) → List SignalMessage
position_messages prefix = map (λ v. (prefix <> to_string v.0, position v.1))

-- The bundle of `broadcast_input_event`.
unfoldable pub input_bundle : F1InputChange → List SignalMessage
input_bundle changes =
    button_messages osc_sig_mtx osc_btn_pressed changes.pressed_buttons.matrix
    ++ (button_messages osc_sig_mtx osc_btn_released changes.released_buttons.matrix
        ++ (button_messages osc_sig_stop osc_btn_pressed changes.pressed_buttons.stop
            ++ (button_messages osc_sig_stop osc_btn_released changes.released_buttons.stop
                ++ (button_messages osc_sig_special osc_btn_pressed changes.pressed_buttons.special
                    ++ (button_messages osc_sig_special osc_btn_released
                          changes.released_buttons.special
                        ++ (position_messages osc_sig_knob changes.knobs
                            ++ position_messages osc_sig_fader changes.faders))))))

module _ (j : JackRing) where
  -- The JACK part of `broadcast_input_event`.
  unfoldable pub push_if_midi :
      (jack_midi : Bool) → F1InputChange → Option (JackClient j) → Result (Option (JackClient j))
  push_if_midi jack_midi changes jack =
      if jack_midi
      then (from_option assert_failed jack >>= λ client.
          push_event j changes client >>= λ client. ok (some client))
      else ok jack

  -- `broadcast_input_event`: the JACK client after it, and the bundle that each peer is sent.
  unfoldable pub broadcast_input_event :
      {ClientId : Type 0}
      → (jack_midi : Bool) → F1InputChange
      → (peers : List ClientId) → Option (JackClient j)
      → Result (Option (JackClient j) × List (ClientId × List SignalMessage))
  broadcast_input_event jack_midi changes peers jack = do
    jack ← push_if_midi jack_midi changes jack
    ok (jack, map (λ peer. (peer, input_bundle changes)) peers)
