-- ===== src/Tests/Main.antt =====
-- The JACK driver from its start: a fader moves, and a note arrives for a light.
use ni_traktor_kontrol_f.Base.{
  ℕ, ◌-◌, ◌≤◌, ◌≡◌, refl, List, [], ◌∷◌, length, false, some, Returns, arith,
}
use ni_traktor_kontrol_f.Base.Loops.{for_range}
use ni_traktor_kontrol_f.Base.Bits.{bit_of}
use ni_traktor_kontrol_f.F1Device.SegmentChar.{to_byte}
use ni_traktor_kontrol_f.F1Device.Output.{write_report}
use ni_traktor_kontrol_f.F1Device.Output.Layout.{layout}
use ni_traktor_kontrol_f.F1Device.Input.RoundTrip.{encode}
use ni_traktor_kontrol_f.Driver.{Driver, input_round}
use ni_traktor_kontrol_f.Driver.Main.{
  System, Reachable, started, then_, by_receiving, start, midi_round, batch_size, main_mapper,
}
use ni_traktor_kontrol_f.Ringbuffer.{
  construct, init_buf, assert_invariants, full, push, write_whole,
}
use ni_traktor_kontrol_f.JackWrapper.{read_events, push_bytes}
use ni_traktor_kontrol_f.Tests.Rings.{ByteRing, ListPort, byte_ring, event_layout, list_midi}
use ni_traktor_kontrol_f.F1Device.Types.{initial_output}
use ni_traktor_kontrol_f.Driver.Main.Reach.{
  Reachable-IsRunning, Reachable-input_round, Reachable-midi_round,
}
use ni_traktor_kontrol_f.Driver.Main.Start.{IsRunning}
use ni_traktor_kontrol_f.Tests.Rationals.{fractions, fraction_laws}
use ni_traktor_kontrol_f.Tests.Samples.{
  at_rest, moved, at_rest-HasShape, moved-HasShape, moved-InRange, moved-InScale, some_device,
}

abbrev at_start : System fractions byte_ring
at_start = record {
  driver = record {
    io_mapper = main_mapper fractions;
    dev = record some_device { out_report = layout initial_output };
    out_buf = [];
  };
  in_buf = record {
    buf = some (record { stored = []; free = 8191; before_wrap = 8191 });
    buf_size = 8192;
  };
}

abbrev note_ring : ByteRing
note_ring = record { stored = 0x91 ∷ 24 ∷ 100 ∷ []; free = 8188; before_wrap = 8191 }

abbrev with_note : System fractions byte_ring
with_note = record at_start { in_buf = record { buf = some note_ring; buf_size = 8192 } }

abbrev note_port : ListPort
note_port = record { stored = (0x91 ∷ 24 ∷ 100 ∷ []) ∷ []; free = 64 }

with_note-Reachable : Reachable fractions byte_ring event_layout list_midi 64 with_note
unfolding start layout initial_output write_report for_range bit_of to_byte construct init_buf
    assert_invariants read_events push_bytes full push write_whole
with_note-Reachable =
    then_ (started at_rest at_rest at_rest-HasShape refl)
      (by_receiving note_port 0 (with_note.in_buf) (omega arith, tt) refl)

Reachable-IsRunning_example : IsRunning fractions fraction_laws byte_ring with_note
Reachable-IsRunning_example =
    Reachable-IsRunning fractions fraction_laws byte_ring event_layout list_midi 64
      with_note-Reachable

Reachable-input_round_example :
    Returns
      (λ (x : Driver fractions × List ℕ).
        (x.0.dev.input_state ≡ moved)
        × (x.1 ≡ layout x.0.dev.output_state)
        × Reachable fractions byte_ring event_layout list_midi 64
            (record with_note { driver = x.0 }))
      (input_round fractions 64 (some (encode false false false moved)) (some 81) with_note.driver)
Reachable-input_round_example =
    Reachable-input_round fractions fraction_laws byte_ring event_layout list_midi 64 moved false
      false false with_note-Reachable moved-HasShape moved-InRange moved-InScale refl (omega arith)

Reachable-midi_round_example :
    Returns
      (λ (t : System fractions byte_ring).
        Reachable fractions byte_ring event_layout list_midi 64 t
        × (t.driver.dev.input_state ≡ at_rest)
        × ((left : ByteRing) × (t.in_buf.buf ≡ some left) × (length left.stored ≤ 3 - batch_size)))
      (midi_round fractions byte_ring (some 81) 4096 with_note)
Reachable-midi_round_example =
    Reachable-midi_round fractions fraction_laws byte_ring event_layout list_midi 64 4096 note_ring
      with_note-Reachable refl refl
