-- ===== src/Driver/Batch/Lights.antt =====
-- What a batch leaves: lights that can be written, and a ring of bytes.
use mathlib.Core.Option.{some-injective}
use ni_traktor_kontrol_f.Base.{
  ℕ, zero, suc, ◌-◌, ◌≤◌, ◌<◌, ◌≡◌, refl, ap, sym, subst, ◌∙◌, Bool, List, [], ◌∷◌, length,
  length-drop, drop, some, Result, ok, err, Ends, Ends-bind, Returns, All-drop, arith,
}
use ni_traktor_kontrol_f.Jack.{JackRing}
use ni_traktor_kontrol_f.Ringbuffer.{Ringbuffer}
use ni_traktor_kontrol_f.Ringbuffer.Holds.{Holds, size-Holds}
use ni_traktor_kontrol_f.JackWrapper.{byte_layout, read_event}
use ni_traktor_kontrol_f.JackWrapper.Reading.{
  Bytes, Read, advanced-Holds, read_event-Read, read_event-one_segment,
}
use ni_traktor_kontrol_f.MidiEvent.Parse.Plain.{from_status, plain_status}
use ni_traktor_kontrol_f.F1Device.Types.{OutputState}
use ni_traktor_kontrol_f.F1Device.Output.Sendable.{IsSendable}
use ni_traktor_kontrol_f.IoMapper.Floats.{Floats, FloatLaws}
use ni_traktor_kontrol_f.IoMapper.Hid.{Mapper}
use ni_traktor_kontrol_f.IoMapper.Safety.Config.{IsSafe}
use ni_traktor_kontrol_f.IoMapper.Safety.{process_midi_event-IsSendable}
use ni_traktor_kontrol_f.Driver.Batch.{midi_batch}

module _ (fl : Floats) (laws : FloatLaws fl) (j : JackRing) where
  -- The lights can be written, and the ring holds bytes, at most `most` of them.
  unfoldable pub Left : (places most : ℕ) → OutputState × Bool × Ringbuffer j → Type 0
  Left places most r =
      IsSendable r.0
      × ((rest : List ℕ) × Bytes rest × (length rest ≤ most) × Holds j byte_layout places r.2 rest)

  shorter :
      (places n m : ℕ) (l : n ≤ m) (call : Result (OutputState × Bool × Ringbuffer j))
      → Ends (Left places n) call
      → Ends (Left places m) call
  unfolding Left
  shorter places n m l (ok r) f = (f.0, (f.1.0, f.1.1, omega (arith, l, f.1.2), f.1.3))
  shorter places n m l (err e) f = tt

  -- A batch that ends leaves lights that can be written and a ring of bytes.
  pub midi_batch-Left :
      (n address : ℕ) {places : ℕ} {b : Ringbuffer j} (bs : List ℕ) (m : Mapper fl)
      (o : OutputState) (write_hid : Bool)
      → Bytes bs
      → Holds j byte_layout places b bs
      → IsSafe fl laws m
      → IsSendable o
      → Ends (Left places (length bs)) (midi_batch fl j n address b m o write_hid)
  unfolding midi_batch Left Read
  midi_batch-Left zero address bs m o w a h s v = (v, (bs, a, omega arith, h))
  midi_batch-Left (suc n) address [] m o w a h s v =
      rw (size-Holds j byte_layout h) (v, ([], a, omega arith, h))
  midi_batch-Left (suc n) address {places} {b} (c ∷ cs) m o w a h s v =
      rw (size-Holds j byte_layout h) (
        Ends-bind (Read j places (c ∷ cs)) (Left places (length (c ∷ cs))) (read_event j address b)
          _ (read_event-Read j address a h)
          (λ p f.
            let (d, (rest, a', l, h')) = f in
            let (r, run, v') = process_midi_event-IsSendable fl laws m p.0 o s v d in
            rw run (
              shorter places (length rest) (length (c ∷ cs)) l
                (midi_batch fl j n address p.1 m r.0 r.1)
                (midi_batch-Left n address rest m r.0 r.1 a' h' s v'))))

  -- On a ring whose bytes stand in one segment a batch ends, and takes `n` bytes or all.
  pub midi_batch-one_segment :
      (n address : ℕ) {places : ℕ} {b : Ringbuffer j} (r : j.Ring) (bs : List ℕ) (m : Mapper fl)
      (o : OutputState) (write_hid : Bool)
      → Bytes bs
      → Holds j byte_layout places b bs
      → b.buf ≡ some r
      → (j.read_vector r).1 ≡ []
      → IsSafe fl laws m
      → IsSendable o
      → Returns (Left places (length bs - n)) (midi_batch fl j n address b m o write_hid)
  unfolding midi_batch Left Read
  midi_batch-one_segment zero address r bs m o w a h is_r one s v =
      (_, refl, (v, (bs, a, omega arith, h)))
  midi_batch-one_segment (suc n) address {places} {b} r [] m o w a h is_r one s v =
      ((o, w, b), rw (size-Holds j byte_layout h), (v, ([], a, omega arith, h)))
  midi_batch-one_segment (suc n) address {places} {b} r (x ∷ xs) m o w a h is_r one s v =
      let bs = x ∷ xs in
      let one' : (j.read_vector h.ring).1 ≡ [] =
        ap (λ t. (j.read_vector t).1) (some-injective _ _ (sym h.is_ring ∙ is_r)) ∙ one in
      let (c, run, pos, few, count) = read_event-one_segment j address h one' (omega arith) in
      let (d, rest) = subst (Ends (Read j places bs)) run (read_event-Read j address a h) in
      let (p, run', v') =
        process_midi_event-IsSendable fl laws m (plain_status (from_status bs)).0 o s v d in
      let (q, run'', (v'', (left, a'', l, h''))) =
        midi_batch-one_segment n address (j.read_advance h.ring c) (drop c bs) m p.0 p.1
          (All-drop (λ b. b < 256) c bs a) (advanced-Holds j c (omega (arith, count)) h) refl
          (j.advance-segment h.ring c few one') s v' in
      (
        q,
        rw (size-Holds j byte_layout h, run, run') run'',
        (v'', (left, a'', omega (arith, l, pos, length-drop c bs), h'')),
      )
