-- ===== src/Driver/Main/Rounds.antt =====
-- A round of the main thread (driver/src/main.cpp) and the invariant of the threads.
use ni_traktor_kontrol_f.Base.{
  ℕ, ◌>>=◌, ◌≤◌, ◌≡◌, refl, Bool, true, false, length, some, ok, Ends, Ends-bind, Returns, arith,
}
use ni_traktor_kontrol_f.F1Device.Types.{HasShape, output_report_size}
use ni_traktor_kontrol_f.F1Device.Output.Layout.{layout}
use ni_traktor_kontrol_f.Jack.{JackRing}
use ni_traktor_kontrol_f.Ringbuffer.Holds.{read_space-Holds}
use ni_traktor_kontrol_f.JackWrapper.{byte_layout}
use ni_traktor_kontrol_f.IoMapper.Floats.{Floats, FloatLaws}
use ni_traktor_kontrol_f.Driver.{Driver}
use ni_traktor_kontrol_f.Driver.Round.{IsReady}
use ni_traktor_kontrol_f.Driver.Report.{write_sendable_lem, length-layout}
use ni_traktor_kontrol_f.Driver.Batch.{midi_batch}
use ni_traktor_kontrol_f.Driver.Batch.Lights.{Left, midi_batch-Left}
use ni_traktor_kontrol_f.Driver.Main.Start.{IsRunning, in_places}
use ni_traktor_kontrol_f.Driver.Main.{System, write_if, midi_round, batch_size}

module _ (fl : Floats) (laws : FloatLaws fl) where
  write_if_lem :
      (b : Bool) (d : Driver fl)
      → IsReady fl laws d
      → length d.dev.out_report ≡ output_report_size
      → HasShape d.dev.input_state
      → Returns
          (λ (g : Driver fl).
            IsReady fl laws g
            × (length g.dev.out_report ≡ output_report_size)
            × HasShape g.dev.input_state
            × (g.dev.input_state ≡ d.dev.input_state))
          (write_if fl b (some output_report_size) d)
  unfolding write_if
  write_if_lem false d r n h = (d, refl, (r, n, h, refl))
  write_if_lem true d r n h = (
    record d { dev = record (d.dev) { out_report = layout d.dev.output_state } },
    rw (write_sendable_lem d.dev r.sendable n),
    (
      record { safe = r.safe; sendable = r.sendable; voices = r.voices },
      length-layout d.dev.output_state,
      h,
      refl,
    ),
  )

module _ (fl : Floats) (laws : FloatLaws fl) (j : JackRing) where
  -- The rest of a round, behind a batch that ended.
  pub written_lem :
      (s : System fl j) (most : ℕ)
      → IsRunning fl laws j s
      → (q : _) → Left fl laws j (in_places fl laws j) most q
      → Returns
          (λ t.
            IsRunning fl laws j t
            × (t.driver.dev.input_state ≡ s.driver.dev.input_state)
            × ((r : j.Ring) × (t.in_buf.buf ≡ some r) × (j.read_space r ≤ most)))
          (write_if fl q.1
              (some output_report_size)
              (record (s.driver) { dev = record (s.driver.dev) { output_state = q.0 } })
            >>= λ d. ok (record { driver = d; in_buf = q.2 }))
  unfolding Left
  written_lem s most h q (v, (rest, a, l, held)) =
      let d : Driver fl = record (s.driver) {
        dev = record (s.driver.dev) { output_state = q.0 };
      } in
      let (g, run, (r, n, shape, same)) =
        write_if_lem fl laws q.1 d
          (record { safe = h.ready.safe; sendable = v; voices = h.ready.voices }) h.report_81
          h.shape in
      (
        record { driver = g; in_buf = q.2 },
        rw run,
        (
          record { ready = r; report_81 = n; shape = shape; bytes = (rest, a, held) },
          same,
          (held.ring, held.is_ring, omega (arith, l, read_space-Holds j byte_layout held)),
        ),
      )

  -- A round of the main thread that ends keeps the invariant.
  pub midi_round-IsRunning :
      (address : ℕ) (s : System fl j)
      → IsRunning fl laws j s
      → Ends (IsRunning fl laws j) (midi_round fl j (some output_report_size) address s)
  unfolding midi_round
  midi_round-IsRunning address s h =
      let (bs, a, held) = h.bytes in
      Ends-bind (Left fl laws j (in_places fl laws j) (length bs)) (IsRunning fl laws j)
        (midi_batch fl j batch_size address s.in_buf s.driver.io_mapper s.driver.dev.output_state
          false)
        _
        (midi_batch-Left fl laws j batch_size address bs s.driver.io_mapper
          s.driver.dev.output_state false a held h.ready.safe h.ready.sendable)
        (λ q f. let (t, run, (h', same, left)) = written_lem s (length bs) h q f in rw run h')
