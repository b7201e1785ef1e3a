-- ===== src/JackWrapper/Cycles.antt =====
-- Several process cycles of JACK (JackWrapper.cpp, `process_int`).
use mathlib.Core.List.{map-append}
use ni_traktor_kontrol_f.Base.{
  ℕ, ◌+◌, ◌-◌, ◌/◌, ◌≤◌, true, ◌&&◌, ◌≡◌, refl, ap, ap₂, sym, subst, ◌∙◌, Option, some, none, List,
  [], ◌∷◌, ◌++◌, map, length, take, drop, take_whole, take-drop, drop-drop, drop_past, All,
  All-drop, Result, ok, Returns, ◌>>=◌,
}
use ni_traktor_kontrol_f.Jack.{JackRing, JackMidi, Layout}
use ni_traktor_kontrol_f.MidiEvent.Types.{MidiEvent}
use ni_traktor_kontrol_f.MidiEvent.Parse.RoundTrip.{IsVoice, event_bytes}
use ni_traktor_kontrol_f.Ringbuffer.Holds.{Holds}
use ni_traktor_kontrol_f.JackWrapper.{Wrapper, byte_layout, process_int}
use ni_traktor_kontrol_f.JackWrapper.Output.{HasRoom, write_callback-Holds}
use ni_traktor_kontrol_f.JackWrapper.Input.{concat, fits_result, read_callback-Filled}

-- One call of the process callback, with the buffers of both ports.
pub record Cycle (k : JackMidi) : Type 0 where
  pub nframes : ℕ
  pub midi_out : k.Port
  pub midi_in : k.Port

module _ (j : JackRing) (layout : Layout MidiEvent) (k : JackMidi) where
  abbrev sent : Option k.Port → List (List ℕ)
  sent none = []
  sent (some port) = k.messages port

  -- The messages that all cycles sent. The result of a cycle is for JACK, and the cycles go on
  -- whatever it is.
  unfoldable pub run_cycles :
      List (Cycle k) → Wrapper j layout → Result (List (List ℕ) × Wrapper j layout)
  run_cycles [] w = ok ([], w)
  run_cycles (c ∷ cs) w = do
    (res, written, w) ← process_int j layout k c.nframes (some c.midi_out) (some c.midi_in) w
    (messages, w) ← run_cycles cs w
    ok (sent written ++ messages, w)

  -- How many events the cycles can send.
  unfoldable pub budget : List (Cycle k) → ℕ
  budget [] = 0
  budget (c ∷ cs) = c.nframes / 3 + budget cs

  unfoldable pub CanSend : Cycle k → Type 0
  CanSend c = HasRoom j layout k (c.nframes / 3) c.midi_out

  -- Both callbacks are set, and the output ring holds the events `q`.
  pub record IsReady (in_places out_places : ℕ) (q : List MidiEvent) (w : Wrapper j layout)
      : Type 0 where
    pub writes : w.write_cb ≡ true
    pub reads : w.read_cb ≡ true
    pub arrived : List ℕ
    pub input : Holds j byte_layout in_places w.in_buf arrived
    pub output : Holds j layout out_places w.out_buf q

  module _ {in_places out_places : ℕ} where
    process_int-IsReady :
        {q : List MidiEvent} (c : Cycle k) (w : Wrapper j layout)
        → IsReady in_places out_places q w
        → All IsVoice q
        → CanSend c
        → Returns
            (λ r.
              (sent r.1 ≡ map event_bytes (take (c.nframes / 3) q))
              × IsReady in_places out_places (drop (c.nframes / 3) q) r.2)
            (process_int j layout k c.nframes (some c.midi_out) (some c.midi_in) w)
    unfolding process_int CanSend
    process_int-IsReady {q} c w h v room =
        let (written, left, e, m, out) =
          write_callback-Holds j layout k c.nframes c.midi_out w h.output v room in
        let (filled, e', inp) =
          read_callback-Filled j layout k c.midi_in (record w { out_buf = left }) h.input in
        let after : Wrapper j layout = record w { out_buf = left; in_buf = filled } in
        (
          (
            0 + fits_result (concat (k.messages c.midi_in)) (in_places - length h.arrived),
            some written,
            after,
          ),
          rw (both, e, e'),
          (
            m,
            record { writes = h.writes; reads = h.reads; arrived = _; input = inp; output = out },
          ),
        )
      where
        both : (w.write_cb && w.read_cb) ≡ true
        both = rw (h.writes, h.reads)

    run_cycles-IsReady :
        (cs : List (Cycle k)) {q : List MidiEvent} (w : Wrapper j layout)
        → IsReady in_places out_places q w
        → All IsVoice q
        → All CanSend cs
        → Returns
            (λ r.
              (r.0 ≡ map event_bytes (take (budget cs) q))
              × IsReady in_places out_places (drop (budget cs) q) r.1)
            (run_cycles cs w)
    unfolding run_cycles budget
    run_cycles-IsReady [] w h v room = (_, refl, (refl, h))
    run_cycles-IsReady (c ∷ cs) {q} w h v room =
        let n = c.nframes / 3 in
        let (r, e, (m, after)) = process_int-IsReady c w h v room.0 in
        let (r', e', (ms, last)) =
          run_cycles-IsReady cs r.2 after (All-drop IsVoice n q v) room.1 in
        (
          (sent r.1 ++ r'.0, r'.1),
          rw (e, e'),
          (
            ap₂ (λ x y. x ++ y) m ms
                ∙ sym (map-append event_bytes (take n q) (take (budget cs) (drop n q)))
                ∙ ap (map event_bytes) (take-drop n (budget cs) q),
            subst (λ p. IsReady in_places out_places p r'.1) (drop-drop n (budget cs) q) last,
          ),
        )

    -- If the cycles have time for all events that wait in the output ring, the process thread sends
    -- all of them, each as its three bytes, in their order, and the ring is empty then.
    pub run_cycles-Delivers :
        (q : List MidiEvent) (cs : List (Cycle k)) (w : Wrapper j layout)
        → IsReady in_places out_places q w
        → All IsVoice q
        → All CanSend cs
        → length q ≤ budget cs
        → Returns
            (λ r. (r.0 ≡ map event_bytes q) × IsReady in_places out_places [] r.1)
            (run_cycles cs w)
    run_cycles-Delivers q cs w h v room enough =
        let (r, e, (m, after)) = run_cycles-IsReady cs w h v room in
        (
          r,
          e,
          (
            m ∙ ap (map event_bytes) (take_whole (budget cs) q enough),
            subst (λ p. IsReady in_places out_places p r.1) (drop_past (budget cs) q enough) after,
          ),
        )
