-- ===== src/Tests/Mapper.antt =====
-- The mapper and the MIDI parser at concrete events.
use ni_traktor_kontrol_f.Base.{
  ℕ, ◌≡◌, refl, Bool, true, List, [], ◌∷◌, ◌++◌, some, ok, length, get_or, tabulate, set, Returns,
  arith,
}
use ni_traktor_kontrol_f.F1Device.Types.{OutputState, initial_output, matrix, knob, black}
use ni_traktor_kontrol_f.F1Device.Events.{button, encoder}
use ni_traktor_kontrol_f.F1Device.Events.Device.{knob_move}
use ni_traktor_kontrol_f.F1Device.Output.Sendable.{IsSendable}
use ni_traktor_kontrol_f.MidiEvent.Types.{MidiEvent, note_on, midi_event, to_bytes}
use ni_traktor_kontrol_f.MidiEvent.Parse.{parse}
use ni_traktor_kontrol_f.MidiEvent.Parse.Plain.{readable, from_status}
use ni_traktor_kontrol_f.MidiEvent.Parse.RoundTrip.{IsVoice, parse-to_bytes}
use ni_traktor_kontrol_f.MidiEvent.Parse.Stream.{parse_times, write_all, parse_times-write_all}
use ni_traktor_kontrol_f.IoMapper.Hid.{process_hid_input}
use ni_traktor_kontrol_f.IoMapper.Types.{default_mapper}
use ni_traktor_kontrol_f.IoMapper.Hid.Buttons.{process_hid_input_matrix}
use ni_traktor_kontrol_f.IoMapper.Hid.Buttons.Lights.{lit_matrix}
use ni_traktor_kontrol_f.IoMapper.Hid.Buttons.Press.{message}
use ni_traktor_kontrol_f.IoMapper.Midi.{process_midi_event}
use ni_traktor_kontrol_f.IoMapper.Midi.Painted.{process_midi_event_lem, event_color, any_of}
use ni_traktor_kontrol_f.IoMapper.Midi.Painted.Color.{is_some, painted}
use ni_traktor_kontrol_f.IoMapper.Safety.Config.{IsSafeResult}
use ni_traktor_kontrol_f.IoMapper.Safety.{
  process_hid_input-IsSafeResult, process_midi_event-IsSendable,
}
use ni_traktor_kontrol_f.F1Device.Output.Sendable.{initial_output-IsSendable}
use ni_traktor_kontrol_f.Tests.Rationals.{fractions, fraction_laws}
use ni_traktor_kontrol_f.Tests.Samples.{some_mapper, some_mapper-IsValid, some_mapper-IsSafe}

process_hid_input_matrix_example :
    process_hid_input fractions some_mapper (button matrix 3 true) initial_output
    ≡ ok (
      some (message fractions some_mapper true 27),
      record some_mapper {
        last_input = record (some_mapper.last_input) {
          matrix = set some_mapper.last_input.matrix 3 true;
        };
      },
      lit_matrix fractions some_mapper initial_output 3 true,
    )
unfolding initial_output default_mapper
process_hid_input_matrix_example =
    process_hid_input_matrix fractions some_mapper initial_output 3 true some_mapper-IsValid refl
      (omega arith)

process_hid_input-IsSafeResult_example :
    Returns
      (IsSafeResult fractions fraction_laws)
      (process_hid_input fractions some_mapper (encoder knob 2 2048) initial_output)
process_hid_input-IsSafeResult_example =
    process_hid_input-IsSafeResult fractions fraction_laws some_mapper initial_output
      some_mapper-IsSafe initial_output-IsSendable (knob_move 2 2048 (omega arith) (omega arith))

abbrev some_event : MidiEvent
some_event = midi_event note_on 1 24 100

process_midi_event-IsSendable_example :
    Returns
      (λ (r : OutputState × Bool). IsSendable r.0)
      (process_midi_event fractions some_mapper some_event initial_output)
process_midi_event-IsSendable_example =
    process_midi_event-IsSendable fractions fraction_laws some_mapper some_event initial_output
      some_mapper-IsSafe initial_output-IsSendable (omega arith)

process_midi_event_lem_example :
    process_midi_event fractions some_mapper some_event initial_output
    ≡ ok (
      record initial_output {
        matrix_btns = tabulate 16 0 (λ j.
            painted
              (event_color fractions some_mapper some_event j)
              (get_or initial_output.matrix_btns j black));
      },
      any_of (tabulate 16 0 (λ j. is_some (event_color fractions some_mapper some_event j))),
    )
unfolding default_mapper
process_midi_event_lem_example =
    process_midi_event_lem fractions some_mapper some_event initial_output some_mapper-IsValid
      (unfold initial_output in refl)

some_event-IsVoice : IsVoice some_event
some_event-IsVoice = record {
  voice = refl;
  channel_4 = omega arith;
  data1_7 = omega arith;
  data2_7 = omega arith;
}

parse-to_bytes_example :
    (bs : List ℕ) × (to_bytes some_event ≡ ok bs)
    × (length bs ≡ 3)
    × (parse (readable ((5 ∷ []) ++ (bs ++ (7 ∷ 0x80 ∷ []))))
        ≡ ok (some_event, readable (from_status (7 ∷ 0x80 ∷ []))))
parse-to_bytes_example =
    parse-to_bytes some_event (5 ∷ []) (7 ∷ 0x80 ∷ []) some_event-IsVoice (omega arith)

parse_times-write_all_example :
    (bs : List ℕ) × (write_all (some_event ∷ some_event ∷ []) ≡ ok bs)
    × (parse_times 2 (readable bs) ≡ ok (some_event ∷ some_event ∷ [], []))
parse_times-write_all_example =
    parse_times-write_all (some_event ∷ some_event ∷ [])
      (some_event-IsVoice, (some_event-IsVoice, tt))
