-- ===== src/RingIterator/Parsing.antt =====
-- Parsing from an iterator of a ring whose readable bytes stand in one segment.
use ni_traktor_kontrol_f.Base.{ℕ, ◌-◌, ◌≡◌, sym, List, [], length, length-append, drop, ok}
use ni_traktor_kontrol_f.Jack.{JackRing}
use ni_traktor_kontrol_f.MidiEvent.Types.{MidiEvent}
use ni_traktor_kontrol_f.MidiEvent.Parse.{parse}
use ni_traktor_kontrol_f.MidiEvent.Parse.Plain.{length-readable, readable}
use ni_traktor_kontrol_f.RingIterator.{begin_iter, parse_at}
use ni_traktor_kontrol_f.RingIterator.Segments.{at_offset, range-one_segment}

module _ (j : JackRing) (p : ℕ) (r : j.Ring) (one : (j.read_vector r).1 ≡ []) where
  -- The iterator returned stands where the bytes left begin.
  pub parse_at-one_segment :
      (i : ℕ) (e : MidiEvent) (rest : List ℕ)
      → parse (readable (drop i (j.contents r))) ≡ ok (e, readable rest)
      → parse_at (at_offset j p r i) ≡ ok (e, at_offset j p r (length (j.contents r) - length rest))
  unfolding parse_at begin_iter
  parse_at-one_segment i e rest parsed = rw (
    range-one_segment j p r i one,
    parsed,
    length-readable rest,
    sym (length-append (j.read_vector r).0 (j.read_vector r).1),
    j.vector-contents r,
  )
