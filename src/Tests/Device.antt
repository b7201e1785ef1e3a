-- ===== src/Tests/Device.antt =====
-- The device's reports and events, and a round of the driver, at concrete states.
use ni_traktor_kontrol_f.Base.{
  List, ℕ, ◌≡◌, refl, true, false, [], ◌∷◌, replicate, some, ok, Returns, arith,
}
use ni_traktor_kontrol_f.F1Device.Types.{Impl}
use ni_traktor_kontrol_f.F1Device.Input.{update_in_state}
use ni_traktor_kontrol_f.F1Device.Input.RoundTrip.{encode, update_in_state-encode}
use ni_traktor_kontrol_f.F1Device.Input.Total.{IsWellFormed, update_in_state_total}
use ni_traktor_kontrol_f.F1Device.Output.Layout.{layout}
use ni_traktor_kontrol_f.F1Device.Events.{generate_input_events}
use ni_traktor_kontrol_f.F1Device.Events.Replay.{follow, generate_input_events-follow}
use ni_traktor_kontrol_f.Driver.{Driver, input_round}
use ni_traktor_kontrol_f.Driver.Round.{IsReady, input_round-IsReady}
use ni_traktor_kontrol_f.F1Device.Output.Sendable.{initial_output-IsSendable}
use ni_traktor_kontrol_f.Tests.Rationals.{fractions, fraction_laws}
use ni_traktor_kontrol_f.Tests.Samples.{
  at_rest, moved, at_rest-HasShape, moved-HasShape, moved-InRange, at_rest-InRange, moved-InScale,
  some_device, some_mapper, some_mapper-IsSafe,
}

abbrev some_driver : Driver fractions
some_driver = record { io_mapper = some_mapper; dev = some_device; out_buf = [] }

some_driver-IsReady : IsReady fractions fraction_laws some_driver
some_driver-IsReady = record {
  safe = some_mapper-IsSafe;
  sendable = initial_output-IsSendable;
  voices = tt;
}

input_round-IsReady_example :
    Returns
      (λ (r : Driver fractions × List ℕ).
        (r.0.dev.input_state ≡ moved)
        × (r.1 ≡ layout r.0.dev.output_state)
        × (r.0.dev.out_report ≡ r.1)
        × IsReady fractions fraction_laws r.0)
      (input_round fractions 64 (some (encode false true false moved)) (some 81) some_driver)
input_round-IsReady_example =
    input_round-IsReady fractions fraction_laws 64 some_driver moved false true false
      at_rest-HasShape moved-HasShape moved-InRange moved-InScale refl refl (omega arith)
      some_driver-IsReady

abbrev some_bytes : List ℕ
some_bytes = 7 ∷ 0x91 ∷ 24 ∷ 100 ∷ 0x81 ∷ 24 ∷ []

abbrev told : Impl
told = record some_device { in_report = encode true true false moved }

update_in_state-encode_example :
    update_in_state told ≡ ok (record told { old_input_state = at_rest; input_state = moved })
update_in_state-encode_example =
    update_in_state-encode told moved true true false at_rest-HasShape moved-HasShape moved-InRange
      refl refl

abbrev told_other : Impl
told_other = record some_device { in_report = 2 ∷ replicate 21 255 }

update_in_state_total_example :
    Returns
      (λ (t : Impl).
        (t ≡ record told_other { old_input_state = at_rest; input_state = t.input_state })
        × IsWellFormed t.input_state)
      (update_in_state told_other)
update_in_state_total_example =
    update_in_state_total told_other refl (omega arith)
      (record { shape = at_rest-HasShape; range = at_rest-InRange })

abbrev changed : Impl
changed = record some_device { input_state = moved }

generate_input_events-follow_example :
    Returns (λ (t : Impl). follow at_rest t.input_events ≡ moved) (generate_input_events changed)
generate_input_events-follow_example =
    generate_input_events-follow changed moved-HasShape at_rest-HasShape
