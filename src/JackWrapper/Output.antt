-- ===== src/JackWrapper/Output.antt =====
-- The way of an event from `operator<<` to JACK's process thread (JackWrapper.cpp).
use mathlib.Core.List.{append-nil, append_assoc}
use ni_traktor_kontrol_f.Base.{
  ℕ, zero, suc, ◌+◌, ◌*◌, ◌/◌, ◌≤◌, leb, ◌≡◌, refl, ap, sym, ◌∙◌, List, [], ◌∷◌, ◌++◌, map, length,
  take, drop, All, Result, ok, err, Returns, Bool-cases, inl, inr, leb_false→lt, arith,
}
use ni_traktor_kontrol_f.Jack.{JackRing, JackMidi, Layout}
use ni_traktor_kontrol_f.MidiEvent.Types.{MidiEvent}
use ni_traktor_kontrol_f.MidiEvent.Parse.RoundTrip.{
  IsVoice, event_bytes, length-event_bytes, to_bytes-event_bytes,
}
use ni_traktor_kontrol_f.Ringbuffer.{Ringbuffer}
use ni_traktor_kontrol_f.Ringbuffer.Holds.{Holds, full-Holds, empty-Holds}
use ni_traktor_kontrol_f.Ringbuffer.Steps.{push-Holds, pop-Holds}
use ni_traktor_kontrol_f.Driver.{push_event}
use ni_traktor_kontrol_f.JackWrapper.{Wrapper, shift_out, write_events, write_callback}

module _ (j : JackRing) (layout : Layout MidiEvent) where
  -- The outcome of a call on a list of events, and that of a call on a wrapper whose ring has room
  -- for `places` events: the same error, or a ring that holds the list.
  pub Agrees : (places : ℕ) → Result (List MidiEvent) → Result (Wrapper j layout) → Type 0
  Agrees places (ok q) r = Returns (λ w. Holds j layout places w.out_buf q) r
  Agrees places (err e) r = r ≡ err e

  -- The output operator appends the event to the list that the ring holds, and fails its assertion
  -- if the ring is full, as the list model of the driver has it.
  shift_out-Agrees :
      {places : ℕ} {q : List MidiEvent} (w : Wrapper j layout) (event : MidiEvent)
      → Holds j layout places w.out_buf q
      → Agrees places (push_event places event q) (shift_out j layout w event)
  unfolding push_event Agrees shift_out
  shift_out-Agrees {places} {q} w event h = elim (Bool-cases (leb places (length q))) [
    | inl is_full ↦ rw (is_full, full-Holds j layout h, is_full)
    | inr room ↦
        let (b, e, after) = push-Holds j layout h event (leb_false→lt _ _ room) in
        rw (room, full-Holds j layout h, room, e) (_, refl, after)
  ]

  module _ (k : JackMidi) where
    -- The port's buffer has room for `n` messages of three bytes.
    unfoldable pub HasRoom : ℕ → k.Port → Type 0
    HasRoom n port = n * (3 + k.overhead) ≤ k.max_event_size port

    -- The loop takes events in their order until it has done its rounds or the ring is empty.
    pub write_events-Holds :
        (rounds : ℕ) {places : ℕ} {b : Ringbuffer j} {q : List MidiEvent} (port : k.Port)
        → Holds j layout places b q
        → All IsVoice q
        → HasRoom rounds port
        → Returns
            (λ r.
              (k.messages r.0 ≡ k.messages port ++ map event_bytes (take rounds q))
              × Holds j layout places r.1 (drop rounds q))
            (write_events j layout k rounds port b)
    unfolding write_events HasRoom
    write_events-Holds zero port h v room = (_, refl, (sym (append-nil (k.messages port)), h))
    write_events-Holds (suc rounds) {q = []} port h v room =
        (_, rw (empty-Holds j layout h), (sym (append-nil (k.messages port)), h))
    write_events-Holds (suc rounds) {q = event ∷ q} port h v room =
        let (r, e, (p, after)) = pop-Holds j layout h in
        let (port', e', m, s) =
          k.write-fits port (event_bytes event) (omega (arith, length-event_bytes event)) in
        let (out, e'', (ms, last)) =
          write_events-Holds rounds port' after v.1 (omega (arith, s, length-event_bytes event)) in
        (
          out,
          rw (empty-Holds j layout h, e, p, to_bytes-event_bytes event v.0, e', e''),
          (
            ms
                ∙ ap (λ x. x ++ map event_bytes (take rounds q)) m
                ∙ append_assoc (k.messages port) (event_bytes event ∷ []) _,
            last,
          ),
        )

    -- The write callback puts the oldest events of the ring into the port's buffer, as many as a
    -- third of the frames, each with its three bytes, and leaves the others in the ring.
    pub write_callback-Holds :
        (nframes : ℕ) {places : ℕ} {q : List MidiEvent} (port : k.Port) (w : Wrapper j layout)
        → Holds j layout places w.out_buf q
        → All IsVoice q
        → HasRoom (nframes / 3) port
        → (written : k.Port) × (left : Ringbuffer j) × (write_callback j layout k nframes port w
            ≡ ok (0, written, record w { out_buf = left }))
          × (k.messages written ≡ map event_bytes (take (nframes / 3) q))
          × Holds j layout places left (drop (nframes / 3) q)
    unfolding write_callback HasRoom
    write_callback-Holds nframes {q = q} port w h v room =
        let (r, e, (m, after)) =
          write_events-Holds (nframes / 3) (k.clear_buffer port) h v
            (omega (arith, k.clear-size port)) in
        (
          r.0,
          r.1,
          rw e,
          m ∙ ap (λ x. x ++ map event_bytes (take (nframes / 3) q)) (k.clear-messages port),
          after,
        )
