-- ===== src/Tests/Osc.antt =====
-- The OSC driver at concrete reports, states and sessions.
use ni_traktor_kontrol_f.Base.{
  All, pos, ℕ, ◌+◌, ◌≡◌, refl, ltb, true, false, List, [], ◌∷◌, replicate, Option, some, Result, ok,
  err, ◌>>=◌, Returns, arith,
}
use ni_traktor_kontrol_f.F1Device.Types.{black, InputState}
use ni_traktor_kontrol_f.F1Device.Input.{update_in_state}
use ni_traktor_kontrol_f.F1Device.Output.Layout.{layout}
use ni_traktor_kontrol_f.OscDriver.HidDev.{Output, read, write}
use ni_traktor_kontrol_f.OscDriver.HidDev.Laws.{as_output_state, read-update_in_state, write-layout}
use ni_traktor_kontrol_f.OscDriver.InputChange.{F1InputChange, difference}
use ni_traktor_kontrol_f.OscDriver.InputChange.Follow.{apply_change, difference-apply_change}
use ni_traktor_kontrol_f.OscDriver.Signals.{input_bundle}
use ni_traktor_kontrol_f.OscDriver.Signals.Declared.{IsDeclared, input_bundle-IsDeclared}
use ni_traktor_kontrol_f.OscDriver.NonSession.{
  Handler, signal_list_path, announce_path, handshake_start, initial_handler, step_state_machine,
  start_session, handle_reply_announce, handle_reply_end, handle_open, handle_hello, passes,
}
use ni_traktor_kontrol_f.OscDriver.NonSession.Runs.{passes-step_state_machine}
use ni_traktor_kontrol_f.OscDriver.NonSession.Reach.{
  Reachable, at_start, by_start, by_reply_announce, by_open, by_hello, handle_reply_end-Reachable,
}
use ni_traktor_kontrol_f.Tests.Samples.{
  some_device, at_rest, moved, at_rest-HasShape, moved-HasShape,
}

abbrev some_report : List ℕ
some_report = 1 ∷ replicate 21 200

read-update_in_state_example :
    (t : InputState) × (read (some some_report) at_rest ≡ ok t)
    × (update_in_state (record some_device { in_report = some_report })
        ≡ ok (record some_device {
          in_report = some_report;
          old_input_state = at_rest;
          input_state = t;
        }))
read-update_in_state_example =
    read-update_in_state some_report some_device refl (omega arith) refl at_rest-HasShape

abbrev some_output : Output
some_output = record { matrix_btns = replicate 16 black; stop_btns = 1 ∷ 2 ∷ 3 ∷ 4 ∷ [] }

abbrev take_all : List ℕ → Option ℕ
take_all report = some 81

write-layout_example :
    write take_all some_output (replicate 81 99) ≡ ok (layout (as_output_state some_output))
write-layout_example = write-layout take_all some_output (replicate 81 99) refl refl refl refl

difference-apply_change_example :
    Returns (λ (c : F1InputChange). apply_change c at_rest ≡ moved) (difference moved at_rest)
difference-apply_change_example =
    difference-apply_change moved at_rest moved-HasShape at_rest-HasShape

-- Client ids and signals as numbers.
abbrev Session : Type 0
Session = Handler ℕ ltb ℕ

abbrev fresh : Session
fresh = initial_handler ℕ ltb ℕ

abbrev after : Result Session → Session
after (ok h) = h
after (err e) = fresh

abbrev announced : Session
announced = after (start_session ℕ ltb ℕ fresh)

abbrev accepted : Session
accepted = after (handle_reply_announce ℕ ltb ℕ announce_path true announced)

abbrev opened : Session
opened = after (handle_open ℕ ltb ℕ (ok tt) accepted)

abbrev greeted : Session
greeted = after (handle_hello ℕ ltb ℕ 7 opened)

greeted-Reachable : Reachable ℕ ltb ℕ greeted
unfolding initial_handler start_session handle_reply_announce handle_open handle_hello
greeted-Reachable =
    by_hello 7 opened greeted
      (by_open (ok tt) accepted opened
        (by_reply_announce announce_path true announced accepted
          (by_start fresh announced at_start refl) refl)
        refl)
      refl

passes-step_state_machine_example :
    passes ℕ ltb ℕ (4 + 6) (record fresh { session_state = handshake_start }) ≡ (
      step_state_machine ℕ ltb ℕ (record fresh { session_state = handshake_start }) >>= λ g.
      ok (g, false))
passes-step_state_machine_example =
    passes-step_state_machine ℕ ltb ℕ (record fresh { session_state = handshake_start }) 4

handle_reply_end-Reachable_example :
    Returns (Reachable ℕ ltb ℕ) (handle_reply_end ℕ ltb ℕ signal_list_path greeted)
handle_reply_end-Reachable_example =
    handle_reply_end-Reachable ℕ ltb ℕ signal_list_path greeted greeted-Reachable

abbrev moves : F1InputChange
moves = record {
  pressed_buttons = record { matrix = 5 ∷ 15 ∷ []; stop = []; special = 8 ∷ [] };
  released_buttons = record { matrix = []; stop = 2 ∷ []; special = [] };
  wheel_diff = pos 0;
  wheel = 0;
  knobs = (3, 0xfff) ∷ [];
  faders = (0, 17) ∷ (1, 0) ∷ [];
}

input_bundle-IsDeclared_example : All IsDeclared (input_bundle moves)
input_bundle-IsDeclared_example =
    input_bundle-IsDeclared moves
      (record { matrix = (omega arith, (omega arith, tt)); stop = tt; special = (omega arith, tt) })
      (record { matrix = tt; stop = (omega arith, tt); special = tt })
      ((omega arith, omega arith), tt)
      ((omega arith, omega arith), ((omega arith, omega arith), tt))
