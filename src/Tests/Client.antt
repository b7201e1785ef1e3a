-- ===== src/Tests/Client.antt =====
-- The OSC driver's JACK client with a change of a few buttons.
use ni_traktor_kontrol_f.Base.{
  ◌+◌, ◌*◌, ◌≡◌, ◌>>=◌, refl, false, some, [], ◌∷◌, map, length, Returns, arith, pos,
}
use ni_traktor_kontrol_f.MidiEvent.Parse.RoundTrip.{event_bytes}
use ni_traktor_kontrol_f.MidiEvent.Parse.Stream.{bytes_of_all}
use ni_traktor_kontrol_f.OscDriver.InputChange.{F1InputChange}
use ni_traktor_kontrol_f.OscDriver.JackClient.{JackClient, push_event as push_change, process_cb}
use ni_traktor_kontrol_f.OscDriver.JackClient.Queue.{Queued, button_events}
use ni_traktor_kontrol_f.OscDriver.JackClient.Send.{HasRoom, push_event-process_cb}
use ni_traktor_kontrol_f.Tests.Jack.{port}
use ni_traktor_kontrol_f.Tests.Rings.{byte_ring, list_midi}

-- A matrix button pressed and a stop button released.
abbrev change : F1InputChange
change = record {
  pressed_buttons = record { matrix = 5 ∷ []; stop = []; special = [] };
  released_buttons = record { matrix = []; stop = 2 ∷ []; special = [] };
  wheel_diff = pos 0;
  wheel = 0;
  knobs = [];
  faders = [];
}

abbrev client : JackClient byte_ring
client = record {
  is_connected = false;
  out_port = false;
  input_buf = some (record { stored = []; free = 255; before_wrap = 255 });
  midi_channel = 0;
  created_midi_bytes = 0;
  sent_midi_bytes = 0;
}

push_event-process_cb_example :
    Returns
      (λ r.
        (r.0 ≡ 0)
        × (r.1.stored ≡ map event_bytes (button_events 0 change))
        × Queued byte_ring 0 (249 + 3 * length (button_events 0 change)) [] r.2)
      (push_change byte_ring change client >>= process_cb byte_ring list_midi (some port))
unfolding button_events bytes_of_all HasRoom
push_event-process_cb_example =
    push_event-process_cb byte_ring list_midi change 249 client port (omega arith)
      (record { matrix = (omega arith, tt); stop = tt; special = tt })
      (record { matrix = tt; stop = (omega arith, tt); special = tt })
      (record {
        ring = record { stored = []; free = 255; before_wrap = 255 };
        is_ring = refl;
        bytes = refl;
        space = refl;
        is_channel = refl;
      })
      (omega arith)

-- The client after a change was queued and sent.
abbrev after_change : JackClient byte_ring
after_change = record client { created_midi_bytes = 6; sent_midi_bytes = 6 }

abbrev queued_change : JackClient byte_ring
queued_change = record client {
  input_buf =
      some
        (record { stored = 0x90 ∷ 53 ∷ 127 ∷ 0xb0 ∷ 0x72 ∷ 0 ∷ []; free = 249; before_wrap = 255 });
  created_midi_bytes = 6;
}
