-- ===== src/Tests/Devtest.antt =====
-- The test program from its start.
use Prim.Native.String.{String}
use ni_traktor_kontrol_f.Base.{
  ℕ, ◌+◌, ◌%◌, ◌≡◌, refl, List, ◌∷◌, replicate, some, ok, Returns, arith,
}
use ni_traktor_kontrol_f.Base.Loops.{for_range}
use ni_traktor_kontrol_f.Base.Bits.{bit_of}
use ni_traktor_kontrol_f.F1Device.SegmentChar.{to_byte}
use ni_traktor_kontrol_f.F1Device.Types.{initial_output}
use ni_traktor_kontrol_f.F1Device.Input.{update_in_state}
use ni_traktor_kontrol_f.F1Device.Output.{write_report}
use ni_traktor_kontrol_f.F1Device.Output.Layout.{layout}
use ni_traktor_kontrol_f.Devtest.{Devtest, light_round, read_round, start_threads}
use ni_traktor_kontrol_f.Devtest.Text.{printed}
use ni_traktor_kontrol_f.Devtest.Lights.{Shows}
use ni_traktor_kontrol_f.Devtest.Reach.{
  Reachable, started, Reachable-light_round, Reachable-read_round,
}
use ni_traktor_kontrol_f.Tests.Samples.{
  at_rest, moved, at_rest-HasShape, at_rest-InRange, moved-HasShape, moved-InRange, some_device,
}

-- Streams that print no digits.
abbrev number : ℕ → String
number n = "n"

abbrev percentage : ℕ → ℕ → String
percentage part whole = "p"

abbrev at_start : Devtest
at_start = record {
  dev = record some_device { out_report = layout initial_output };
  brightness_offset = 0;
  input_state = moved;
}

at_start-Reachable : Reachable number percentage at_start
unfolding start_threads layout initial_output write_report for_range bit_of to_byte
at_start-Reachable =
    started at_rest at_rest moved (record { shape = at_rest-HasShape; range = at_rest-InRange })
      (record { shape = moved-HasShape; range = moved-InRange }) refl

Reachable-light_round_example :
    Returns
      (λ (r : Devtest × List ℕ).
        Reachable number percentage r.0
        × (r.0.brightness_offset ≡ (0 + 1) % 256)
        × (r.0.input_state ≡ moved)
        × (r.1 ≡ layout r.0.dev.output_state)
        × Shows r.0.brightness_offset moved r.0.dev.output_state)
      (light_round (some 81) at_start)
Reachable-light_round_example = Reachable-light_round number percentage at_start-Reachable

abbrev report : List ℕ
report = 1 ∷ 64 ∷ 0 ∷ 4 ∷ 128 ∷ replicate 17 0

Reachable-read_round_example :
    Returns
      (λ (r : Devtest × String).
        Reachable number percentage r.0
        × (update_in_state (record (at_start.dev) { in_report = report }) ≡ ok r.0.dev)
        × (r.0.input_state ≡ r.0.dev.input_state)
        × (r.1 ≡ printed number percentage r.0.input_state)
        × (r.0.dev.output_state ≡ initial_output)
        × (r.0.brightness_offset ≡ 0))
      (read_round number percentage (some report) at_start)
Reachable-read_round_example =
    Reachable-read_round number percentage report at_start-Reachable
      (record { size = refl; bytes = omega arith })
