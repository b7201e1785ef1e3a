-- ===== src/MidiStream/Events.antt =====
-- Reading a `MidiStream` by its iterators (MidiStream.cpp).
use ni_traktor_kontrol_f.Base.{
  ℕ, zero, suc, ◌+◌, ◌-◌, ◌≤◌, ◌≡◌, refl, ap, sym, ◌∙◌, true, false, Bool-cases, inl, inr, List, [],
  ◌∷◌, length, length-append, drop, drop-length_append, All, Result, ok, ◌>>=◌, if◌then◌else◌,
  ge→ltb, lt→ltb, ◌<◌, ==_iff, ne→==_false, length-drop, drop-drop, drop_whole, Returns, arith,
}
use ni_traktor_kontrol_f.Jack.{JackRing}
use ni_traktor_kontrol_f.MidiEvent.Types.{MidiEvent}
use ni_traktor_kontrol_f.MidiEvent.Parse.{parse}
use ni_traktor_kontrol_f.MidiEvent.Parse.Plain.{readable}
use ni_traktor_kontrol_f.MidiEvent.Parse.RoundTrip.{IsVoice, event_bytes, length-event_bytes}
use ni_traktor_kontrol_f.MidiEvent.Parse.Stream.{bytes_of_all, parse-bytes_of_all}
use ni_traktor_kontrol_f.RingIterator.{
  RingbufferReadIterator, same_position, begin_iter, end_iter, parse_at, is_readable,
  is_end as iter_is_end, advance_read_ptr,
}
use ni_traktor_kontrol_f.RingIterator.Segments.{at_offset}
use ni_traktor_kontrol_f.RingIterator.Parsing.{parse_at-one_segment}
use ni_traktor_kontrol_f.MidiStream.{
  StreamIterator, MidiStream, deref, increment, is_end, begin, advance_stream,
}

some_bytes :
    (e : MidiEvent) (es : List MidiEvent)
    → length (bytes_of_all es) + 3 ≡ length (bytes_of_all (e ∷ es))
unfolding bytes_of_all
some_bytes e es =
    omega (arith, length-append (event_bytes e) (bytes_of_all es), length-event_bytes e)

-- `for (it = begin(); it != end(); ++it) events.push_back(*it)`, with a bound on its rounds.
unfoldable pub collect : (rounds : ℕ) → StreamIterator → Result (List MidiEvent × StreamIterator)
collect zero it = ok ([], it)
collect (suc rounds) it = if is_end it then ok ([], it) else do
  (event, it) ← deref it
  it ← increment it
  (events, it) ← collect rounds it
  ok (event ∷ events, it)

-- The increment moves to where the event ends, whether the event was read before or not.
increment-parsed :
    (it : StreamIterator) (e : MidiEvent) (x : RingbufferReadIterator)
    → parse_at it.buf_iter ≡ ok (e, x)
    → increment (record it { next_buf_iter = x })
      ≡ ok (record it { buf_iter = x; next_buf_iter = it.end_iter })
unfolding increment deref
increment-parsed it e x parsed = elim (Bool-cases (same_position x it.end_iter)) [
  | inl t ↦ rw (t, parsed)
  | inr f ↦ rw f
]

module _ (j : JackRing) (s : MidiStream j) where
  abbrev bytes : List ℕ
  bytes = j.contents s.buf

  abbrev total : ℕ
  total = length (j.read_vector s.buf).0 + length (j.read_vector s.buf).1

  -- The iterator of the stream at a byte.
  abbrev pub stream_at : ℕ → StreamIterator
  stream_at i =
      let last = end_iter j s.address s.buf in
      record { buf_iter = at_offset j s.address s.buf i; end_iter = last; next_buf_iter = last }

  total-bytes : total ≡ length bytes
  total-bytes =
      sym (length-append (j.read_vector s.buf).0 (j.read_vector s.buf).1)
      ∙ ap length (j.vector-contents s.buf)

  at_end : (i : ℕ) → total ≤ i → is_end (stream_at i) ≡ true
  unfolding is_end same_position iter_is_end is_readable begin_iter end_iter
  at_end i h = rw (ge→ltb i total h, ge→ltb total total (omega arith))

  not_at_end : (i : ℕ) → i < total → is_end (stream_at i) ≡ false
  unfolding is_end same_position iter_is_end is_readable begin_iter end_iter
  not_at_end i h = rw (
    lt→ltb i total h,
    (==_iff s.address s.address).1 refl,
    ne→==_false i total (λ e. omega arith),
  )

  -- One round of the loop takes the first event.
  collect-round :
      (i : ℕ) (e : MidiEvent) (es : List MidiEvent) (rounds : ℕ)
      → (j.read_vector s.buf).1 ≡ []
      → All IsVoice (e ∷ es)
      → drop i bytes ≡ bytes_of_all (e ∷ es)
      → collect (suc rounds) (stream_at i) ≡ (
          collect rounds (stream_at (length bytes - length (bytes_of_all es))) >>= λ r.
          ok (e ∷ r.0, r.1))
  unfolding collect deref
  collect-round i e es rounds one v d = rw (
    not_at_end i before,
    parsed,
    increment-parsed (stream_at i) e
        (at_offset j s.address s.buf (length bytes - length (bytes_of_all es))) parsed,
  )
    where
      parsed :
          parse_at (at_offset j s.address s.buf i)
          ≡ ok (e, at_offset j s.address s.buf (length bytes - length (bytes_of_all es)))
      parsed =
          parse_at-one_segment j s.address s.buf one i e (bytes_of_all es)
            (ap (λ x. parse (readable x)) d ∙ parse-bytes_of_all [] e es tt v)

      before : i < total
      before = omega (arith, total-bytes, length-drop i bytes, ap length d, some_bytes e es)

  collect-from :
      (i : ℕ) (es : List MidiEvent)
      → (j.read_vector s.buf).1 ≡ []
      → All IsVoice es
      → i + length (bytes_of_all es) ≡ length bytes
      → drop i bytes ≡ bytes_of_all es
      → collect (suc (length es)) (stream_at i) ≡ ok (es, stream_at (length bytes))
  unfolding collect bytes_of_all
  collect-from i [] one v e d =
      rw (at_end i (omega (arith, total-bytes)))
        (ap (λ n. ok ([], stream_at n)) {x = i} {y = length bytes} (omega arith))
  collect-from i (x ∷ es) one v e d = rw (
    collect-round i x es (suc (length es)) one v d,
    collect-from k es one v.1 (omega (arith, more)) (left ∙ drop_three),
  )
    where
      k : ℕ
      k = length bytes - length (bytes_of_all es)

      more : (k ≡ i + length (event_bytes x)) × (length (bytes_of_all es) ≤ length bytes)
      more = omega (arith, some_bytes x es, length-event_bytes x)

      left : drop k bytes ≡ drop (length (event_bytes x)) (drop i bytes)
      left = ap (λ n. drop n bytes) more.0 ∙ sym (drop-drop i (length (event_bytes x)) bytes)

      drop_three : drop (length (event_bytes x)) (drop i bytes) ≡ bytes_of_all es
      drop_three =
          ap (drop (length (event_bytes x))) d
          ∙ drop-length_append (event_bytes x) (bytes_of_all es)

  -- A stream that holds the bytes of events that can be sent, in one segment of its ring, gives
  -- these events in their order; the iterator then is at the end, and advancing the stream to it
  -- empties the ring.
  pub collect-begin :
      (es : List MidiEvent)
      → (j.read_vector s.buf).1 ≡ []
      → All IsVoice es
      → j.contents s.buf ≡ bytes_of_all es
      → Returns
          (λ r. (r.0 ≡ es) × (is_end r.1 ≡ true) × (j.contents (advance_stream j r.1 s).buf ≡ []))
          (collect (suc (length es)) (begin j s))
  unfolding begin advance_stream advance_read_ptr begin_iter
  collect-begin es one v h = (
    (es, stream_at (length bytes)),
    collect-from 0 es one v (omega (arith, ap length h)) h,
    (
      refl,
      at_end (length bytes) (omega (arith, total-bytes)),
      j.advance-contents s.buf (length bytes) (omega (arith, j.read_space-contents s.buf))
          ∙ drop_whole bytes,
    ),
  )
