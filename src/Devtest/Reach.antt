-- ===== src/Devtest/Reach.antt =====
-- Neither thread of devtest.cpp fails, however their rounds take turns.
use Prim.Native.String.{String}
use ni_traktor_kontrol_f.Base.{
  ℕ, ◌+◌, ◌%◌, ◌<◌, ◌≡◌, refl, sym, subst, ◌∙◌, ge→ltb, some, List, [], ap, length, All-get_or,
  replicate, ok, Returns, ok-injective, arith,
}
use ni_traktor_kontrol_f.F1Device.Types.{
  InputState, Impl, initial_output, input_report_size, output_report_size,
}
use ni_traktor_kontrol_f.F1Device.Input.Total.{IsReport, IsWellFormed, update_in_state_total}
use ni_traktor_kontrol_f.F1Device.Input.{update_in_state}
use ni_traktor_kontrol_f.F1Device.Output.Layout.{layout, update_out_report-layout}
use ni_traktor_kontrol_f.F1Device.Output.Sendable.{IsSendable, initial_output-IsSendable}
use ni_traktor_kontrol_f.Driver.{read, hid_read}
use ni_traktor_kontrol_f.Driver.Report.{write_sendable_lem, length-layout}
use ni_traktor_kontrol_f.Devtest.{Devtest, light_round, read_round, start_threads}
use ni_traktor_kontrol_f.Devtest.Text.{printed, print_state-printed}
use ni_traktor_kontrol_f.Devtest.Lights.{Shows, light_all-Shows}

module _ (number : ℕ → String) (percentage : (part whole : ℕ) → String) where
  -- A round of a thread, at a device that takes whole reports and sends whole ones.
  pub data Step : Devtest → Devtest → Type 0 where
    by_lights :
        {s t : Devtest} (report : List ℕ)
        → light_round (some output_report_size) s ≡ ok (t, report)
        → Step s t
    by_reading :
        {s t : Devtest} (raw : List ℕ) (text : String)
        → IsReport raw
        → read_round number percentage (some raw) s ≡ ok (t, text)
        → Step s t

  pub data Reachable : Devtest → Type 0 where
    started :
        {s : Devtest} (a b input_state : InputState)
        → IsWellFormed a
        → IsWellFormed input_state
        → start_threads a b input_state ≡ ok s
        → Reachable s
    then_ : {s t : Devtest} → Reachable s → Step s t → Reachable t

  -- The lights can be sent, and the arrays have their extents.
  record IsRunning (s : Devtest) : Type 0 where
    pub sendable : IsSendable s.dev.output_state
    pub report_81 : length s.dev.out_report ≡ output_report_size
    pub device_state : IsWellFormed s.dev.input_state
    pub last_state : IsWellFormed s.input_state

  start_threads-IsRunning :
      (a b c : InputState)
      → IsWellFormed a
      → IsWellFormed c
      → Returns IsRunning (start_threads a b c)
  unfolding start_threads
  start_threads-IsRunning a b c wa wc =
      let dev : Impl = record {
        input_state = a;
        old_input_state = b;
        output_state = initial_output;
        in_report = replicate input_report_size 0;
        out_report = replicate output_report_size 0;
        input_events = [];
      } in
      (
        record {
          dev = record dev { out_report = layout initial_output };
          brightness_offset = 0;
          input_state = c;
        },
        rw (update_out_report-layout dev initial_output-IsSendable refl),
        record {
          sendable = initial_output-IsSendable;
          report_81 = length-layout initial_output;
          device_state = wa;
          last_state = wc;
        },
      )

  light_round-IsRunning :
      (s : Devtest)
      → IsRunning s
      → Returns
          (λ (r : Devtest × List ℕ).
            IsRunning r.0
            × (r.0.brightness_offset ≡ (s.brightness_offset + 1) % 256)
            × (r.0.input_state ≡ s.input_state)
            × (r.1 ≡ layout r.0.dev.output_state)
            × Shows r.0.brightness_offset s.input_state r.0.dev.output_state)
          (light_round (some output_report_size) s)
  unfolding light_round
  light_round-IsRunning s h =
      let offset = (s.brightness_offset + 1) % 256 in
      let (o, e, (shows, v)) =
        light_all-Shows offset s.input_state s.dev.output_state h.last_state.shape h.sendable in
      (
        (
          record {
            dev = record (s.dev) { output_state = o; out_report = layout o };
            brightness_offset = offset;
            input_state = s.input_state;
          },
          layout o,
        ),
        rw (e, write_sendable_lem (record (s.dev) { output_state = o }) v h.report_81),
        (
          record {
            sendable = v;
            report_81 = length-layout o;
            device_state = h.device_state;
            last_state = h.last_state;
          },
          refl,
          refl,
          refl,
          shows,
        ),
      )

  read_round-IsRunning :
      (s : Devtest) (raw : List ℕ)
      → IsReport raw
      → IsRunning s
      → Returns
          (λ (r : Devtest × String).
            IsRunning r.0
            × (update_in_state (record (s.dev) { in_report = raw }) ≡ ok r.0.dev)
            × (r.0.input_state ≡ r.0.dev.input_state)
            × (r.1 ≡ printed number percentage r.0.input_state)
            × (r.0.dev.output_state ≡ s.dev.output_state)
            × (r.0.brightness_offset ≡ s.brightness_offset))
          (read_round number percentage (some raw) s)
  unfolding read_round read hid_read
  read_round-IsRunning s raw w h =
      let (d, e, (same, v)) =
        update_in_state_total (record (s.dev) { in_report = raw }) w.size
          (All-get_or (λ b. b < 256) raw 5 0 (omega (arith, w.size)) w.bytes) h.device_state in
      let kept : d.output_state ≡ s.dev.output_state = ap (λ (i : Impl). i.output_state) same in
      (
        (
          record s { dev = d; input_state = d.input_state },
          printed number percentage d.input_state,
        ),
        rw (
          ge→ltb (length raw) 22 (omega (arith, w.size)),
          e,
          print_state-printed number percentage d.input_state v.shape,
        ),
        (
          record {
            sendable = subst IsSendable (sym kept) h.sendable;
            report_81 = ap (λ (i : Impl). length i.out_report) same ∙ h.report_81;
            device_state = v;
            last_state = v;
          },
          e,
          refl,
          refl,
          kept,
          refl,
        ),
      )

  Reachable-IsRunning : {s : Devtest} → Reachable s → IsRunning s
  Reachable-IsRunning (started a b c wa wc e) =
      let (s, run, h) = start_threads-IsRunning a b c wa wc in
      subst IsRunning (ok-injective (sym run ∙ e)) h
  Reachable-IsRunning (then_ {s} r (by_lights report e)) =
      let (x, run, (h, counts, kept, shown, lights)) =
        light_round-IsRunning s (Reachable-IsRunning r) in
      subst (λ (y : Devtest × List ℕ). IsRunning y.0) (ok-injective (sym run ∙ e)) h
  Reachable-IsRunning (then_ {s} r (by_reading raw text w e)) =
      let (x, run, (h, decoded, same, text_shown, kept, counter)) =
        read_round-IsRunning s raw w (Reachable-IsRunning r) in
      subst (λ (y : Devtest × String). IsRunning y.0) (ok-injective (sym run ∙ e)) h

  -- Whenever the threads of the test program have taken turns in whole rounds, a round of the first
  -- thread ends without an exception or a failed assertion, if the device takes the whole report: the colour counter goes on
  -- by one, modulo 256, and the device was given the lights for it and for the last input state.
  pub Reachable-light_round :
      {s : Devtest}
      → Reachable s
      → Returns
          (λ (r : Devtest × List ℕ).
            Reachable r.0
            × (r.0.brightness_offset ≡ (s.brightness_offset + 1) % 256)
            × (r.0.input_state ≡ s.input_state)
            × (r.1 ≡ layout r.0.dev.output_state)
            × Shows r.0.brightness_offset s.input_state r.0.dev.output_state)
          (light_round (some output_report_size) s)
  Reachable-light_round {s} reach =
      let ((t, report), run, (h, counts, kept, shown, lights)) =
        light_round-IsRunning s (Reachable-IsRunning reach) in
      ((t, report), run, (then_ reach (by_lights report run), counts, kept, shown, lights))

  -- Whenever the threads of the test program have taken turns in whole rounds, a round of the second
  -- thread with any report of 22 bytes ends without an exception. The device's state is what
  -- update_in_state makes of the report; it is printed, position by position and button by button, and
  -- shown to the first thread; the lights and the counter stay as they are.
  pub Reachable-read_round :
      {s : Devtest} (raw : List ℕ)
      → Reachable s
      → IsReport raw
      → Returns
          (λ (r : Devtest × String).
            Reachable r.0
            × (update_in_state (record (s.dev) { in_report = raw }) ≡ ok r.0.dev)
            × (r.0.input_state ≡ r.0.dev.input_state)
            × (r.1 ≡ printed number percentage r.0.input_state)
            × (r.0.dev.output_state ≡ s.dev.output_state)
            × (r.0.brightness_offset ≡ s.brightness_offset))
          (read_round number percentage (some raw) s)
  Reachable-read_round {s} raw reach w =
      let ((t, text), run, (h, decoded, same, text_shown, kept, counter)) =
        read_round-IsRunning s raw w (Reachable-IsRunning reach) in
      (
        (t, text),
        run,
        (then_ reach (by_reading raw text w run), decoded, same, text_shown, kept, counter),
      )
