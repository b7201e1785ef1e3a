-- ===== src/OscDriver/JackClient/Send.antt =====
-- `JackClient::process_cb` (JackClient.cpp): what JACK's process thread sends.
use mathlib.Core.List.{append-nil, append_assoc}
use ni_traktor_kontrol_f.Base.{
  ℕ, suc, ◌+◌, ◌*◌, ◌/◌, ◌%◌, ◌^◌, if◌then◌else◌, ◌<◌, ◌≤◌, ◌==◌, ==_iff, ne→==_false, ◌≡◌, refl,
  ap, sym, ◌∙◌, some, List, [], ◌∷◌, ◌++◌, map, length, take, drop, length-append,
  take-length_append, drop-length_append, Returns, arith, ◌>>=◌,
}
use ni_traktor_kontrol_f.Jack.{JackRing, JackMidi}
use ni_traktor_kontrol_f.MidiEvent.Types.{MidiEvent}
use ni_traktor_kontrol_f.MidiEvent.Parse.RoundTrip.{event_bytes, length-event_bytes}
use ni_traktor_kontrol_f.MidiEvent.Parse.Stream.{bytes_of_all}
use ni_traktor_kontrol_f.OscDriver.InputChange.{F1InputChange}
use ni_traktor_kontrol_f.OscDriver.JackClient.{
  JackClient, push_event, send_events, finish, process_cb,
}
use ni_traktor_kontrol_f.OscDriver.JackClient.Queue.{
  Queued, IsBtnDiff, button_events, push_event-Queued,
}

length-bytes_of_all : (es : List MidiEvent) → length (bytes_of_all es) ≡ 3 * length es
unfolding bytes_of_all
length-bytes_of_all [] = refl
length-bytes_of_all (e ∷ es) = omega (
  arith,
  length-append (event_bytes e) (bytes_of_all es),
  length-event_bytes e,
  length-bytes_of_all es,
)

module _ (j : JackRing) (k : JackMidi) where
  count :
      (es : List MidiEvent) {channel free : ℕ} {c : JackClient j} (h : Queued j channel free es c)
      → j.read_space h.ring ≡ 3 * length es
  count es h = j.read_space-contents h.ring ∙ ap length h.bytes ∙ length-bytes_of_all es

  -- The port's buffer has room for `n` messages of three bytes.
  unfoldable pub HasRoom : ℕ → k.Port → Type 0
  HasRoom n port = n * (3 + k.overhead) ≤ k.max_event_size port

  -- What is left of a ring and a port after all events were sent.
  record Sent (es : List MidiEvent) (r : j.Ring) (port : k.Port) (s : ℕ × j.Ring × k.Port)
      : Type 0 where
    result : s.0 ≡ 0
    gone : j.contents s.1 ≡ []
    space : j.write_space s.1 ≡ j.write_space r + 3 * length es
    sent : k.messages s.2 ≡ k.messages port ++ map event_bytes es

  send_events-Sent :
      (es : List MidiEvent) (r : j.Ring) (port : k.Port)
      → j.contents r ≡ bytes_of_all es
      → HasRoom (length es) port
      → Sent es r port (send_events j k (length es) r port)
  unfolding send_events HasRoom bytes_of_all
  send_events-Sent [] r port h room = record {
    result = refl;
    gone = h;
    space = omega arith;
    sent = sym (append-nil (k.messages port));
  }
  send_events-Sent (e ∷ es) r port h room =
      let (port', written, m, s) =
        k.write-fits port (event_bytes e) (omega (arith, length-event_bytes e)) in
      let rest =
        send_events-Sent es (j.read r 3).1 port' left (omega (arith, s, length-event_bytes e)) in
      rw (taken, length-event_bytes e, written)
        (record {
          result = rest.result;
          gone = rest.gone;
          space =
              omega (arith, rest.space, j.read-space r 3, ap length taken, length-event_bytes e);
          sent =
              rest.sent
              ∙ ap (λ x. x ++ map event_bytes es) m
              ∙ append_assoc (k.messages port) (event_bytes e ∷ []) (map event_bytes es);
        })
    where
      taken : (j.read r 3).0 ≡ event_bytes e
      taken =
          j.read-bytes r 3
          ∙ ap (take 3) h
          ∙ ap (λ n. take n (event_bytes e ++ bytes_of_all es)) (sym (length-event_bytes e))
          ∙ take-length_append (event_bytes e) (bytes_of_all es)

      left : j.contents (j.read r 3).1 ≡ bytes_of_all es
      left =
          j.read-contents r 3
          ∙ ap (drop 3) h
          ∙ ap (λ n. drop n (event_bytes e ++ bytes_of_all es)) (sym (length-event_bytes e))
          ∙ drop-length_append (event_bytes e) (bytes_of_all es)

  -- The process callback sends everything that waits in the ring, and returns 0.
  process_cb-Sent :
      {channel free : ℕ} (es : List MidiEvent) (c : JackClient j) (port : k.Port)
      → Queued j channel free es c
      → HasRoom (length es) port
      → Returns
          (λ r.
            (r.0 ≡ 0)
            × (k.messages r.1 ≡ map event_bytes es)
            × Queued j channel (free + 3 * length es) [] r.2)
          (process_cb j k (some port) c)
  unfolding process_cb finish HasRoom bytes_of_all
  process_cb-Sent {channel} {free} [] c port h room = (
    (0, k.clear_buffer port, c),
    rw (h.is_ring, (==_iff _ 0).1 (count [] h)),
    (
      refl,
      k.clear-messages port,
      record {
        ring = h.ring;
        is_ring = h.is_ring;
        bytes = h.bytes;
        space = h.space ∙ omega arith;
        is_channel = h.is_channel;
      },
    ),
  )
  process_cb-Sent {channel} {free} (e ∷ es) c port h room = (
    (
      s.0,
      s.2,
      record c {
        input_buf = some s.1;
        sent_midi_bytes =
            if s.0 == 0
            then (c.sent_midi_bytes + j.read_space h.ring) % 2 ^ 64
            else c.sent_midi_bytes;
      },
    ),
    rw (
      h.is_ring,
      ne→==_false (j.read_space h.ring) 0 (λ z. omega (arith, count (e ∷ es) h)),
      rounds,
    ),
    (
      all.result,
      all.sent ∙ ap (λ x. x ++ map event_bytes (e ∷ es)) (k.clear-messages port),
      record {
        ring = s.1;
        is_ring = refl;
        bytes = all.gone;
        space = all.space ∙ ap (λ n. n + 3 * length (e ∷ es)) h.space;
        is_channel = h.is_channel;
      },
    ),
  )
    where
      s : ℕ × j.Ring × k.Port
      s = send_events j k (length (e ∷ es)) h.ring (k.clear_buffer port)

      all : Sent (e ∷ es) h.ring (k.clear_buffer port) s
      all =
          send_events-Sent (e ∷ es) h.ring (k.clear_buffer port) h.bytes
            (omega (arith, k.clear-size port))

      rounds : (j.read_space h.ring + 2) / 3 ≡ suc (length es)
      rounds = omega (arith, count (e ∷ es) h)

  -- The messages of a change, put into an empty ring, are all sent by the next process callback, in
  -- their order and with three bytes each, and the ring has as much room as before.
  pub push_event-process_cb :
      (event : F1InputChange) (free : ℕ) (c : JackClient j) (port : k.Port)
      → c.midi_channel < 16
      → IsBtnDiff event.pressed_buttons
      → IsBtnDiff event.released_buttons
      → Queued j c.midi_channel (free + 3 * length (button_events c.midi_channel event)) [] c
      → HasRoom (length (button_events c.midi_channel event)) port
      → Returns
          (λ r.
            (r.0 ≡ 0)
            × (k.messages r.1 ≡ map event_bytes (button_events c.midi_channel event))
            × Queued j c.midi_channel
                (free + 3 * length (button_events c.midi_channel event))
                []
                r.2)
          (push_event j event c >>= process_cb j k (some port))
  push_event-process_cb event free c port l p r h room =
      let (c', e, h') = push_event-Queued j event free [] c l p r h in
      let (s, e', sent) = process_cb-Sent (button_events c.midi_channel event) c' port h' room in
      (s, rw (e, e'), sent)
