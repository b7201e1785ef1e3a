-- ===== src/Driver/Main/Reach.antt =====
-- What holds whenever the threads have taken turns, and that no round fails then.
use mathlib.Core.Option.{some-injective}
use ni_traktor_kontrol_f.MidiEvent.Parse.RoundTrip.{IsVoice}
use ni_traktor_kontrol_f.Base.{
  ok-injective, ℕ, zero, suc, ◌+◌, ◌-◌, ◌*◌, [], ◌∷◌, ◌<◌, ◌≤◌, ◌≡◌, sym, subst, ap, ◌∙◌, Bool,
  false, List, ◌++◌, length, take, some, ok, Ends, Returns, All, All-append, All-drop, arith,
}
use ni_traktor_kontrol_f.F1Device.Types.{
  InputState, HasShape, InRange, input_report_id, output_report_size,
}
use ni_traktor_kontrol_f.F1Device.Output.Layout.{layout}
use ni_traktor_kontrol_f.F1Device.Input.RoundTrip.{encode}
use ni_traktor_kontrol_f.F1Device.Events.Device.{InScale}
use ni_traktor_kontrol_f.MidiEvent.Types.{MidiEvent}
use ni_traktor_kontrol_f.Jack.{JackRing, JackMidi, Layout}
use ni_traktor_kontrol_f.Ringbuffer.{Ringbuffer}
use ni_traktor_kontrol_f.Ringbuffer.Holds.{Holds, read_space-Holds}
use ni_traktor_kontrol_f.JackWrapper.{byte_layout, read_events}
use ni_traktor_kontrol_f.JackWrapper.Input.{Filled, concat, read_events-Filled}
use ni_traktor_kontrol_f.JackWrapper.Reading.{Bytes}
use ni_traktor_kontrol_f.IoMapper.Floats.{Floats, FloatLaws}
use ni_traktor_kontrol_f.Driver.{Driver, input_round}
use ni_traktor_kontrol_f.Driver.Round.{input_round-IsReady}
use ni_traktor_kontrol_f.Driver.Report.{length-layout}
use ni_traktor_kontrol_f.Driver.Batch.Lights.{midi_batch-one_segment}
use ni_traktor_kontrol_f.Driver.Main.Start.{IsRunning, in_places, start-IsRunning}
use ni_traktor_kontrol_f.Driver.Main.{
  System, Step, Reachable, by_input, by_midi, by_sending, by_receiving, started, then_, midi_round,
  batch_size,
}
use ni_traktor_kontrol_f.Driver.Main.Rounds.{written_lem, midi_round-IsRunning}

-- Bytes of messages.
Bytes-concat : (ms : List (List ℕ)) → All Bytes ms → Bytes (concat ms)
unfolding concat
Bytes-concat [] a = tt
Bytes-concat (m ∷ ms) a = All-append (λ b. b < 256) m (concat ms) a.0 (Bytes-concat ms a.1)

Bytes-take : (n : ℕ) (bs : List ℕ) → Bytes bs → Bytes (take n bs)
Bytes-take zero bs a = tt
Bytes-take (suc n) [] a = tt
Bytes-take (suc n) (b ∷ bs) a = (a.0, Bytes-take n bs a.1)

module _ (fl : Floats) (laws : FloatLaws fl) (j : JackRing) (lay : Layout MidiEvent)
    (k : JackMidi) where
  Step-IsRunning :
      (room : ℕ) {s t : System fl j}
      → Step fl j lay k room s t
      → IsRunning fl laws j s
      → IsRunning fl laws j t
  unfolding Filled
  Step-IsRunning room {s} (by_input t p q r report vt bt sc i l e) h =
      let (x, run, (same, shown, stored, ready)) =
        input_round-IsReady fl laws room s.driver t p q r h.shape vt bt sc i h.report_81 l
          h.ready in
      let y : x ≡ (_, report) = ok-injective (sym run ∙ e) in
      subst (λ (z : Driver fl × List ℕ). IsRunning fl laws j (record s { driver = z.0 })) y
        (record {
          ready = ready;
          report_81 = ap length (stored ∙ shown) ∙ length-layout x.0.dev.output_state;
          shape = subst HasShape (sym same) vt;
          bytes = h.bytes;
        })
  Step-IsRunning room {s} (by_midi address e) h =
      subst (Ends (IsRunning fl laws j)) e (midi_round-IsRunning fl laws j address s h)
  Step-IsRunning room {s} (by_sending n) h = record {
    ready = record {
      safe = h.ready.safe;
      sendable = h.ready.sendable;
      voices = All-drop IsVoice n s.driver.out_buf h.ready.voices;
    };
    report_81 = h.report_81;
    shape = h.shape;
    bytes = h.bytes;
  }
  Step-IsRunning room {s} (by_receiving port res in_buf a e) h =
      let (bs, b, held) = h.bytes in
      let ms = k.messages port in
      let (r, run, (same, held')) =
        read_events-Filled j lay k ms 0 port
          (λ n. ap (k.event_get port) {x = 0 + n} {y = n} (omega arith) ∙ k.get-messages port n)
          held in
      let n = in_places fl laws j - length bs in
      let into : r ≡ (res, in_buf) = ok-injective (
        sym run
        ∙ ap (λ c. read_events j lay k c 0 port s.in_buf) (sym (k.count-messages port))
        ∙ e) in
      record {
        ready = h.ready;
        report_81 = h.report_81;
        shape = h.shape;
        bytes = (
          bs ++ take n (concat ms),
          All-append (λ b. b < 256) bs _ b (Bytes-take n (concat ms) (Bytes-concat ms a)),
          subst
              (λ (z : ℕ × Ringbuffer j).
                Holds j byte_layout (in_places fl laws j) z.1 (bs ++ take n (concat ms)))
              into held',
        );
      }

  -- In every system that the threads can reach from the start, by taking turns in whole rounds, the
  -- mapper, the lights and the waiting events are well-formed, the arrays have their extents, and the
  -- input ring holds bytes.
  pub Reachable-IsRunning :
      (room : ℕ) {s : System fl j} → Reachable fl j lay k room s → IsRunning fl laws j s
  Reachable-IsRunning room (started a b h e) =
      subst (Ends (IsRunning fl laws j)) e (start-IsRunning fl laws j a b h)
  Reachable-IsRunning room (then_ r st) = Step-IsRunning room st (Reachable-IsRunning room r)

  -- In every reachable system, a round of the input thread with any report of the device, with
  -- positions in 12 bits, ends without an exception or a failed assertion, if the output ring has room for
  -- 38 more events and the device takes the whole report: the driver then knows the reported state,
  -- the device was given the output state, and the system is again a reachable one.
  pub Reachable-input_round :
      (room : ℕ) {s : System fl j} (t : InputState) (p q r : Bool)
      → Reachable fl j lay k room s
      → HasShape t
      → InRange t
      → InScale t
      → t.report_id ≡ input_report_id
      → length s.driver.out_buf + 38 ≤ room
      → Returns
          (λ (x : Driver fl × List ℕ).
            (x.0.dev.input_state ≡ t)
            × (x.1 ≡ layout x.0.dev.output_state)
            × Reachable fl j lay k room (record s { driver = x.0 }))
          (input_round fl room (some (encode p q r t)) (some output_report_size) s.driver)
  Reachable-input_round room {s} t p q r reach vt bt sc i l =
      let h = Reachable-IsRunning room reach in
      let (x, run, (same, shown, stored, ready)) =
        input_round-IsReady fl laws room s.driver t p q r h.shape vt bt sc i h.report_81 l
          h.ready in
      (x, run, (same, shown, then_ reach (by_input t p q r x.1 vt bt sc i l run)))

  -- In every reachable system, a round of the main thread ends without an exception or a failed
  -- assertion, if the readable bytes of the input ring stand in one segment and the device takes
  -- whole reports: it leaves a reachable system and the input state as it was, and takes as many bytes
  -- off the input ring as a batch has events, or all.
  pub Reachable-midi_round :
      (room address : ℕ) {s : System fl j} (r : j.Ring)
      → Reachable fl j lay k room s
      → s.in_buf.buf ≡ some r
      → (j.read_vector r).1 ≡ []
      → Returns
          (λ (t : System fl j).
            Reachable fl j lay k room t
            × (t.driver.dev.input_state ≡ s.driver.dev.input_state)
            × ((left : j.Ring) × (t.in_buf.buf ≡ some left)
                × (j.read_space left ≤ j.read_space r - batch_size)))
          (midi_round fl j (some output_report_size) address s)
  unfolding midi_round
  Reachable-midi_round room address {s} r reach is_r one =
      let h = Reachable-IsRunning room reach in
      let (bs, a, held) = h.bytes in
      let (q, run, f) =
        midi_batch-one_segment fl laws j batch_size address r bs s.driver.io_mapper
          s.driver.dev.output_state false a held is_r one h.ready.safe h.ready.sendable in
      let (t, run', (h', same, (left, is_left, l))) =
        written_lem fl laws j s (length bs - batch_size) h q f in
      let all : midi_round fl j (some output_report_size) address s ≡ ok t = rw run run' in
      let space : j.read_space r ≡ length bs * 1 =
        ap j.read_space (some-injective _ _ (sym is_r ∙ held.is_ring))
        ∙ read_space-Holds j byte_layout held in
      (t, all, (then_ reach (by_midi address all), same, (left, is_left, omega (arith, l, space))))
