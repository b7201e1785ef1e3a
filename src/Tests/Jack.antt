-- ===== src/Tests/Jack.antt =====
-- Ring buffers, streams and wrappers at which the theorems on JACK's side are applied.
use ni_traktor_kontrol_f.Base.{
  ◌+◌, ◌-◌, ◌≡◌, if◌then◌else◌, ltb, refl, true, false, some, List, [], ◌∷◌, ◌++◌, map, take,
  length, index, undefined, ok, err, out_of_range, Returns, arith,
}
use ni_traktor_kontrol_f.MidiEvent.Types.{MidiEvent, midi_event, note_on, note_off, type_byte}
use ni_traktor_kontrol_f.MidiEvent.Parse.RoundTrip.{IsVoice, event_bytes}
use ni_traktor_kontrol_f.MidiEvent.Parse.Stream.{bytes_of_all}
use ni_traktor_kontrol_f.Ringbuffer.{Ringbuffer}
use ni_traktor_kontrol_f.Ringbuffer.Holds.{encode_all, Holds}
use ni_traktor_kontrol_f.Ringbuffer.Refine.{
  Call, push_call, pop_call, full_call, size_call, ring_run, queue_run, ring_run-Holds,
}
use ni_traktor_kontrol_f.RingIterator.{deref}
use ni_traktor_kontrol_f.RingIterator.Segments.{at_offset, deref-Segments}
use ni_traktor_kontrol_f.MidiStream.{MidiStream, begin, is_end, advance_stream}
use ni_traktor_kontrol_f.MidiStream.Events.{collect, collect-begin}
use ni_traktor_kontrol_f.JackWrapper.{
  Wrapper, Server, byte_layout, construct_wrapper, shift_in, read_callback,
}
use ni_traktor_kontrol_f.JackWrapper.Setup.{Constructed, construct_wrapper-Constructed}
use ni_traktor_kontrol_f.JackWrapper.Output.{HasRoom as WrapperRoom}
use ni_traktor_kontrol_f.JackWrapper.Input.{concat, fits_result, read_callback-Filled}
use ni_traktor_kontrol_f.JackWrapper.Parsed.{shift_in-Holds}
use ni_traktor_kontrol_f.JackWrapper.Cycles.{
  Cycle, IsReady, CanSend, budget, run_cycles, run_cycles-Delivers,
}
use ni_traktor_kontrol_f.Tests.Rings.{ByteRing, ListPort, byte_ring, list_midi, event_layout}

abbrev press : MidiEvent
press = midi_event note_on 3 48 127

abbrev release : MidiEvent
release = midi_event note_off 3 48 0

press-IsVoice : IsVoice press
press-IsVoice = record {
  voice = refl;
  channel_4 = omega arith;
  data1_7 = omega arith;
  data2_7 = omega arith;
}

release-IsVoice : IsVoice release
release-IsVoice = record {
  voice = refl;
  channel_4 = omega arith;
  data1_7 = omega arith;
  data2_7 = omega arith;
}

-- One event stored, room for two, and two bytes more than that.
abbrev one_event : ByteRing
one_event = record { stored = 0x90 ∷ 3 ∷ 48 ∷ 127 ∷ []; free = 6; before_wrap = 1 }

abbrev event_buffer : Ringbuffer byte_ring
event_buffer = record { buf = some one_event; buf_size = 2 }

event_buffer-Holds : Holds byte_ring event_layout 2 event_buffer (press ∷ [])
unfolding encode_all type_byte
event_buffer-Holds = record {
  ring = one_event;
  is_ring = refl;
  bytes = refl;
  enough = omega arith;
  not_more = omega arith;
}

abbrev calls : List (Call MidiEvent)
calls = push_call release ∷ full_call ∷ push_call press ∷ pop_call ∷ size_call ∷ []

ring_run-Holds_example :
    ((ring_run byte_ring event_layout calls event_buffer).0 ≡ (queue_run 2 calls (press ∷ [])).0)
    × Holds byte_ring event_layout 2
        (ring_run byte_ring event_layout calls event_buffer).1
        (queue_run 2 calls (press ∷ [])).1
ring_run-Holds_example = ring_run-Holds byte_ring event_layout calls event_buffer-Holds

-- A ring made for 2 items of 4 bytes has room for one of them.
abbrev one_held : ByteRing
one_held = record { stored = 0x90 ∷ 3 ∷ 48 ∷ 127 ∷ []; free = 3; before_wrap = 1 }

abbrev fresh : ByteRing
fresh = record { stored = []; free = 7; before_wrap = 7 }

one_held-Holds :
    Holds byte_ring event_layout 1 (record { buf = some one_held; buf_size = 2 }) (press ∷ [])
unfolding encode_all type_byte
one_held-Holds = record {
  ring = one_held;
  is_ring = refl;
  bytes = refl;
  enough = omega arith;
  not_more = omega arith;
}

deref-Segments_example : deref (at_offset byte_ring 1 one_event 2) ≡ (
    if ltb 2 (length (byte_ring.read_vector one_event).0)
    then index undefined (byte_ring.contents one_event) 2
    else if ltb 2 (length (byte_ring.contents one_event))
    then index undefined
        (byte_ring.contents one_event)
        (length (byte_ring.read_vector one_event).0 + 2)
    else err out_of_range)
deref-Segments_example = deref-Segments byte_ring 1 one_event 2

-- A stream with two events.
abbrev stream : MidiStream byte_ring
stream = record {
  address = 1;
  buf = record { stored = 0x93 ∷ 48 ∷ 127 ∷ 0x83 ∷ 48 ∷ 0 ∷ []; free = 1; before_wrap = 7 };
  write_notification_callback = false;
}

collect-begin_example :
    Returns
      (λ r.
        (r.0 ≡ press ∷ release ∷ [])
        × (is_end r.1 ≡ true)
        × (byte_ring.contents (advance_stream byte_ring r.1 stream).buf ≡ []))
      (collect 3 (begin byte_ring stream))
unfolding bytes_of_all event_bytes type_byte
collect-begin_example =
    collect-begin byte_ring stream (press ∷ release ∷ []) refl
      (press-IsVoice, (release-IsVoice, tt)) refl

-- Two data bytes and an event in the input ring, an event in the output ring.
abbrev in_ring : ByteRing
in_ring = record { stored = 7 ∷ 8 ∷ 0x83 ∷ 48 ∷ 0 ∷ []; free = 3; before_wrap = 7 }

abbrev wrapper : Wrapper byte_ring event_layout
wrapper = record {
  active = false;
  write_cb = true;
  read_cb = true;
  in_buf = record { buf = some in_ring; buf_size = 9 };
  out_buf = event_buffer;
}

in_ring-Holds :
    Holds byte_ring byte_layout 8 wrapper.in_buf ((7 ∷ 8 ∷ []) ++ bytes_of_all (release ∷ []))
unfolding encode_all bytes_of_all event_bytes type_byte
in_ring-Holds = record {
  ring = in_ring;
  is_ring = refl;
  bytes = refl;
  enough = omega arith;
  not_more = omega arith;
}

shift_in-Holds_example :
    Returns
      (λ r. (r.0 ≡ release) × Holds byte_ring byte_layout 8 (r.1).in_buf (bytes_of_all []))
      (shift_in byte_ring event_layout 1 wrapper)
shift_in-Holds_example =
    shift_in-Holds byte_ring event_layout 1 in_ring wrapper (7 ∷ 8 ∷ []) release []
      (omega arith, (omega arith, tt)) (release-IsVoice, tt) in_ring-Holds refl refl

-- Two messages arrive, and only the first one and a byte of the second fit.
abbrev pub port : ListPort
port = record { stored = (0x93 ∷ 48 ∷ []) ∷ (0x83 ∷ 48 ∷ 0 ∷ []) ∷ []; free = 100 }

read_callback-Filled_example :
    (filled : Ringbuffer byte_ring) × (read_callback byte_ring event_layout list_midi port wrapper
      ≡ ok (
        fits_result
            (concat (list_midi.messages port))
            (8 - length ((7 ∷ 8 ∷ []) ++ bytes_of_all (release ∷ []))),
        record wrapper { in_buf = filled },
      ))
    × Holds byte_ring byte_layout 8 filled (
        ((7 ∷ 8 ∷ []) ++ bytes_of_all (release ∷ []))
        ++ take
            (8 - length ((7 ∷ 8 ∷ []) ++ bytes_of_all (release ∷ [])))
            (concat (list_midi.messages port)))
read_callback-Filled_example =
    read_callback-Filled byte_ring event_layout list_midi port wrapper in_ring-Holds

abbrev cycle : Cycle list_midi
cycle = record { nframes = 64; midi_out = port; midi_in = port }

run_cycles-Delivers_example :
    Returns
      (λ r.
        (r.0 ≡ map event_bytes (press ∷ [])) × IsReady byte_ring event_layout list_midi 8 2 [] r.1)
      (run_cycles byte_ring event_layout list_midi (cycle ∷ []) wrapper)
unfolding WrapperRoom CanSend budget
run_cycles-Delivers_example =
    run_cycles-Delivers byte_ring event_layout list_midi (press ∷ []) (cycle ∷ []) wrapper
      (record {
        writes = refl;
        reads = refl;
        arrived = (7 ∷ 8 ∷ []) ++ bytes_of_all (release ∷ []);
        input = in_ring-Holds;
        output = event_buffer-Holds;
      })
      (press-IsVoice, tt) (omega arith, tt) (omega arith)

abbrev server : Server
server = record {
  client_open = true;
  register_in = true;
  register_out = true;
  set_process_callback = 0;
  set_xrun_callback = 1;
}

construct_wrapper-Constructed_example :
    Constructed byte_ring event_layout 8191 127 server
      (construct_wrapper byte_ring event_layout server)
unfolding type_byte
construct_wrapper-Constructed_example =
    construct_wrapper-Constructed byte_ring event_layout 8191 127 server
      (record { enough = omega arith; not_more = omega arith })
      (record { enough = omega arith; not_more = omega arith })
