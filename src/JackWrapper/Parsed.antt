-- ===== src/JackWrapper/Parsed.antt =====
-- Reading events by `operator>>` (JackWrapper.cpp) from the bytes of the input ring.
use ni_traktor_kontrol_f.Base.{
  ℕ, ◌+◌, ◌-◌, ◌≤◌, ◌≡◌, refl, ap, ap₂, sym, ◌∙◌, some, List, [], ◌∷◌, ◌++◌, length, drop,
  length-append, drop-length_append, All, ok, Returns, ==_iff, ge→ltb, arith,
}
use mathlib.Core.Option.{some-injective}
use mathlib.Core.List.{append_assoc}
use ni_traktor_kontrol_f.Jack.{JackRing, Layout}
use ni_traktor_kontrol_f.MidiEvent.Types.{MidiEvent}
use ni_traktor_kontrol_f.MidiEvent.Parse.{parse}
use ni_traktor_kontrol_f.MidiEvent.Parse.Plain.{readable}
use ni_traktor_kontrol_f.MidiEvent.Parse.RoundTrip.{IsVoice, IsData, event_bytes}
use ni_traktor_kontrol_f.MidiEvent.Parse.Stream.{bytes_of_all, parse-bytes_of_all}
use ni_traktor_kontrol_f.Ringbuffer.{Ringbuffer}
use ni_traktor_kontrol_f.Ringbuffer.Holds.{encode_all, Holds}
use ni_traktor_kontrol_f.RingIterator.{begin_iter, distance, parse_at}
use ni_traktor_kontrol_f.RingIterator.Segments.{at_offset}
use ni_traktor_kontrol_f.RingIterator.Parsing.{parse_at-one_segment}
use ni_traktor_kontrol_f.JackWrapper.{Wrapper, byte_layout, shift_in, read_event}

pub encode_all-bytes : (bs : List ℕ) → encode_all byte_layout bs ≡ bs
unfolding encode_all
encode_all-bytes [] = refl
encode_all-bytes (b ∷ bs) = ap (λ r. b ∷ r) (encode_all-bytes bs)

module _ (j : JackRing) where
  -- The position of an iterator is its distance from the beginning.
  pub distance-begin :
      (address : ℕ) (r : j.Ring) (n : ℕ)
      → distance (at_offset j address r n) (begin_iter j address r) ≡ ok n
  unfolding distance begin_iter
  distance-begin address r n =
      rw ((==_iff address address).1 refl, ge→ltb n 0 (omega arith)) (ap ok (omega arith))

  -- A ring of bytes whose read pointer was advanced holds the bytes behind it.
  pub read_advance-Holds :
      {places : ℕ} {b : Ringbuffer j} {q : List ℕ} (front rest : List ℕ) (n : ℕ)
      → q ≡ front ++ rest
      → n ≡ length front
      → (h : Holds j byte_layout places b q)
      → Holds j byte_layout places (record b { buf = some (j.read_advance h.ring n) }) rest
  read_advance-Holds {q = q} front rest n parts size h = record {
    ring = j.read_advance h.ring n;
    is_ring = refl;
    bytes =
        j.advance-contents h.ring n room
        ∙ ap₂ drop size all
        ∙ drop-length_append front rest
        ∙ sym (encode_all-bytes rest);
    enough = omega (arith, j.advance-space h.ring n room, h.enough, count);
    not_more = omega (arith, j.advance-space h.ring n room, h.not_more, count);
  }
    where
      all : j.contents h.ring ≡ front ++ rest
      all = h.bytes ∙ encode_all-bytes q ∙ parts

      count : length q ≡ length front + length rest
      count = ap length parts ∙ length-append front rest

      room : n ≤ j.read_space h.ring
      room = omega (arith, j.read_space-contents h.ring, ap length all, length-append front rest)

module _ (j : JackRing) (layout : Layout MidiEvent) where
  -- The input operator skips data bytes, returns the first event behind them and leaves the others
  -- in the ring, if the ring's bytes stand in one segment.
  pub shift_in-Holds :
      {places : ℕ} (address : ℕ) (r : j.Ring) (w : Wrapper j layout) (junk : List ℕ) (e : MidiEvent)
      (es : List MidiEvent)
      → All IsData junk
      → All IsVoice (e ∷ es)
      → Holds j byte_layout places w.in_buf (junk ++ bytes_of_all (e ∷ es))
      → w.in_buf.buf ≡ some r
      → (j.read_vector r).1 ≡ []
      → Returns
          (λ r. (r.0 ≡ e) × Holds j byte_layout places (r.1).in_buf (bytes_of_all es))
          (shift_in j layout address w)
  unfolding shift_in read_event begin_iter bytes_of_all
  shift_in-Holds {places} address r w junk e es a v h is_r one = (
    (e, record w { in_buf = record (w.in_buf) { buf = some (j.read_advance h.ring n) } }),
    rw (h.is_ring, parsed, distance-begin j address h.ring n),
    (refl, read_advance-Holds j front (bytes_of_all es) n parts size h),
  )
    where
      front : List ℕ
      front = junk ++ event_bytes e

      n : ℕ
      n = length (j.contents h.ring) - length (bytes_of_all es)

      all : j.contents h.ring ≡ junk ++ bytes_of_all (e ∷ es)
      all = h.bytes ∙ encode_all-bytes _

      one_segment : (j.read_vector h.ring).1 ≡ []
      one_segment = ap (λ x. (j.read_vector x).1) (some-injective _ _ (sym h.is_ring ∙ is_r)) ∙ one

      parsed : parse_at (begin_iter j address h.ring) ≡ ok (e, at_offset j address h.ring n)
      parsed =
          parse_at-one_segment j address h.ring one_segment 0 e (bytes_of_all es)
            (ap (λ x. parse (readable x)) all ∙ parse-bytes_of_all junk e es a v)

      parts : junk ++ bytes_of_all (e ∷ es) ≡ front ++ bytes_of_all es
      parts = sym (append_assoc junk (event_bytes e) (bytes_of_all es))

      size : n ≡ length front
      size = omega (arith, ap length (all ∙ parts), length-append front (bytes_of_all es))
