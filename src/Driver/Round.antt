-- ===== src/Driver/Round.antt =====
-- A round of the input thread ends without an exception and leaves everything well-formed.
use ni_traktor_kontrol_f.Base.{
  ℕ, suc, ◌+◌, ◌≤◌, ◌<◌, ◌≡◌, refl, ◌∙◌, ap, lt→leb_false, Bool, List, [], ◌∷◌, ◌++◌, length,
  length-append, All-append, Option, some, none, Returns, All, arith,
}
use ni_traktor_kontrol_f.F1Device.Types.{
  InputState, InputEvent, Impl, HasShape, InRange, input_report_id, output_report_size,
}
use ni_traktor_kontrol_f.F1Device.Input.RoundTrip.{encode}
use ni_traktor_kontrol_f.F1Device.Output.Layout.{layout}
use ni_traktor_kontrol_f.F1Device.Output.Sendable.{IsSendable}
use ni_traktor_kontrol_f.F1Device.Events.{generate_input_events, wheel_events}
use ni_traktor_kontrol_f.F1Device.Events.Replay.{events_of_arrays, compare_states_lem}
use ni_traktor_kontrol_f.F1Device.Events.Device.{IsDeviceEvent, InScale, events-IsDeviceEvent}
use ni_traktor_kontrol_f.MidiEvent.Types.{MidiEvent}
use ni_traktor_kontrol_f.MidiEvent.Parse.RoundTrip.{IsVoice}
use ni_traktor_kontrol_f.IoMapper.Floats.{Floats, FloatLaws}
use ni_traktor_kontrol_f.IoMapper.Safety.Config.{IsSafe, IsSent}
use ni_traktor_kontrol_f.IoMapper.Safety.{process_hid_input-IsSafeResult}
use ni_traktor_kontrol_f.Driver.Report.{write_sendable_lem, length-events, read-encode}
use ni_traktor_kontrol_f.Driver.{
  Driver, push_event, push_if, handle_event, handle_events, read_events, input_round,
}

module _ (fl : Floats) (laws : FloatLaws fl) where
  -- The mapper and the lights are fit for use, and only proper MIDI events wait to be sent.
  pub record IsReady (d : Driver fl) : Type 0 where
    pub safe : IsSafe fl laws d.io_mapper
    pub sendable : IsSendable d.dev.output_state
    pub voices : All IsVoice d.out_buf

  -- What handling an event leaves.
  record Handled (d g : Driver fl) : Type 0 where
    ready : IsReady g
    same_report : g.dev.out_report ≡ d.dev.out_report
    same_input : g.dev.input_state ≡ d.dev.input_state

  push_if-IsVoice :
      (room : ℕ) (o : Option MidiEvent) (q : List MidiEvent)
      → length q < room
      → IsSent fl laws o
      → All IsVoice q
      → Returns (λ q'. All IsVoice q' × (length q' ≤ suc (length q))) (push_if room o q)
  unfolding push_if push_event
  push_if-IsVoice room none q l s a = (q, refl, (a, omega arith))
  push_if-IsVoice room (some e) q l s a = (
    q ++ (e ∷ []),
    rw (lt→leb_false (length q) room l),
    (All-append IsVoice q (e ∷ []) a (s, tt), omega (arith, length-append q (e ∷ []))),
  )

  handle_event-Handled :
      (room : ℕ) (d : Driver fl) (e : InputEvent)
      → IsDeviceEvent e
      → length d.out_buf < room
      → IsReady d
      → Returns
          (λ g. Handled d g × (length g.out_buf ≤ suc (length d.out_buf)))
          (handle_event fl room e d)
  unfolding handle_event
  handle_event-Handled room d e h l r =
      let (p, run, (sent, safe, sendable)) =
        process_hid_input-IsSafeResult fl laws d.io_mapper d.dev.output_state r.safe r.sendable h in
      let (q, pushed, (a, n)) = push_if-IsVoice room p.0 d.out_buf l sent r.voices in
      (
        record { io_mapper = p.1; dev = record (d.dev) { output_state = p.2 }; out_buf = q },
        rw (run, pushed),
        (
          record {
            ready = record { safe = safe; sendable = sendable; voices = a };
            same_report = refl;
            same_input = refl;
          },
          n,
        ),
      )

  handle_events-Handled :
      (room : ℕ) (es : List InputEvent) (d : Driver fl)
      → All IsDeviceEvent es
      → length d.out_buf + length es ≤ room
      → IsReady d
      → Returns (Handled d) (handle_events fl room es d)
  unfolding handle_events
  handle_events-Handled room [] d a l r =
      (d, refl, record { ready = r; same_report = refl; same_input = refl })
  handle_events-Handled room (e ∷ es) d a l r =
      let (g, run, (h, n)) = handle_event-Handled room d e a.0 (omega arith) r in
      let (g', run', h') = handle_events-Handled room es g a.1 (omega (arith, n)) h.ready in
      (
        g',
        rw (run, run'),
        record {
          ready = h'.ready;
          same_report = h'.same_report ∙ h.same_report;
          same_input = h'.same_input ∙ h.same_input;
        },
      )

  -- The device has sent a report of a state, of a device with 12-bit positions.
  module _ (room : ℕ) (d : Driver fl) (t : InputState) (p q r : Bool) where
    -- A round ends without an exception, a failed assertion or an access out of range: if the device
    -- reports a state with positions in 12 bits, the buffer for MIDI has room for 38 more events and
    -- the device takes the whole output report. Then the driver knows the reported state, the report
    -- that the device was given shows the output state, and the mapper, the lights and the events to
    -- be sent are well-formed, as they were before.
    pub input_round-IsReady :
        HasShape d.dev.input_state
        → HasShape t
        → InRange t
        → InScale t
        → t.report_id ≡ input_report_id
        → length d.dev.out_report ≡ output_report_size
        → length d.out_buf + 38 ≤ room
        → IsReady d
        → Returns
            (λ r.
              (r.0.dev.input_state ≡ t)
              × (r.1 ≡ layout r.0.dev.output_state)
              × (r.0.dev.out_report ≡ r.1)
              × IsReady r.0)
            (input_round fl room (some (encode p q r t)) (some output_report_size) d)
    unfolding input_round read_events generate_input_events
    input_round-IsReady vs vt bt sc e n l ready =
        let dev1 : Impl = record (d.dev) {
          in_report = encode p q r t;
          old_input_state = d.dev.input_state;
          input_state = t;
        } in
        let events =
          wheel_events t.wheel d.dev.input_state.wheel
            (events_of_arrays t d.dev.input_state vt vs) in
        let dev2 : Impl = record dev1 { input_events = events } in
        let d2 : Driver fl = record d { dev = dev2 } in
        let (g, run, h) =
          handle_events-Handled room events d2 (events-IsDeviceEvent t d.dev.input_state vt vs sc)
            (omega (arith, length-events t d.dev.input_state vt vs))
            (record { safe = ready.safe; sendable = ready.sendable; voices = ready.voices }) in
        let written = write_sendable_lem g.dev h.ready.sendable (ap length h.same_report ∙ n) in
        let g' : Driver fl = record g {
          dev = record (g.dev) { out_report = layout g.dev.output_state };
        } in
        (
          (g', layout g.dev.output_state),
          rw (
            read-encode d.dev t p q r vs vt bt e,
            compare_states_lem t d.dev.input_state vt vs,
            run,
            written,
          ),
          (
            h.same_input,
            refl,
            refl,
            record { safe = h.ready.safe; sendable = h.ready.sendable; voices = h.ready.voices },
          ),
        )
