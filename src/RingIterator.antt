-- ===== src/RingIterator.antt =====
-- `RingbufferReadIterator` of driver/src/io/RingbufferIterator.hpp and RingbufferIterator.cpp.
pub mod Segments
pub mod Parsing
use ni_traktor_kontrol_f.Base.{
  ℕ, ◌+◌, ◌-◌, ◌%◌, ◌^◌, ltb, ◌==◌, if◌then◌else◌, Bool, not, ◌&&◌, ◌||◌, List, length, tabulate,
  Result, ok, err, out_of_range, invalid_argument, assert_failed, undefined, index, check, ◌>>=◌,
  ◌>>◌,
}
use ni_traktor_kontrol_f.Jack.{JackRing}
use ni_traktor_kontrol_f.MidiEvent.Types.{MidiEvent}
use ni_traktor_kontrol_f.MidiEvent.Parse.{Range, parse}

-- The pointer to the ring is a number. JACK hands out pointers into the ring, so the assertion on
-- the first segment's pointer holds in every iterator that a constructor made.
pub record RingbufferReadIterator : Type 0 where
  pub ringbuf : ℕ
  pub read_data : List ℕ × List ℕ
  pub read_offset : ℕ

abbrev pub readable_bytes : RingbufferReadIterator → ℕ
readable_bytes it = length it.read_data.0 + length it.read_data.1

-- `operator++` and `operator+=`; `std::size_t` wraps.
unfoldable pub advance : ℕ → RingbufferReadIterator → RingbufferReadIterator
advance n it = record it { read_offset = (it.read_offset + n) % 2 ^ 64 }

unfoldable pub is_readable : RingbufferReadIterator → Bool
is_readable it = ltb it.read_offset (readable_bytes it)

unfoldable pub is_end : RingbufferReadIterator → Bool
is_end it = not (is_readable it)

-- `operator-`
unfoldable pub distance : (lhs rhs : RingbufferReadIterator) → Result ℕ
distance lhs rhs =
    if not (lhs.ringbuf == rhs.ringbuf)
    then err invalid_argument
    else if ltb lhs.read_offset rhs.read_offset
    then ok (rhs.read_offset - lhs.read_offset)
    else ok (lhs.read_offset - rhs.read_offset)

-- `operator==`
unfoldable pub same_position : (lhs rhs : RingbufferReadIterator) → Bool
same_position lhs rhs =
    (is_end lhs && is_end rhs) || (lhs.ringbuf == rhs.ringbuf && lhs.read_offset == rhs.read_offset)

-- `operator*`. A read behind the last byte of a segment is undefined.
unfoldable pub deref : RingbufferReadIterator → Result ℕ
deref it =
    let (first, second) = it.read_data in
    if not (is_readable it)
    then err out_of_range
    else if ltb it.read_offset (length first)
    then index undefined first it.read_offset
    else (check (ltb 0 (length second)) >> index undefined second it.read_offset)

module _ (j : JackRing) where
  -- The two constructors, `begin` and `end`, on the ring `r` that `ringbuf` points to.
  unfoldable pub begin_iter : (ringbuf : ℕ) → (r : j.Ring) → RingbufferReadIterator
  begin_iter ringbuf r = record { ringbuf = ringbuf; read_data = j.read_vector r; read_offset = 0 }

  unfoldable pub end_iter : (ringbuf : ℕ) → (r : j.Ring) → RingbufferReadIterator
  end_iter ringbuf r =
      let (first, second) = j.read_vector r in
      record {
        ringbuf = ringbuf;
        read_data = (first, second);
        read_offset = length first + length second;
      }

  unfoldable pub advance_read_ptr : RingbufferReadIterator → j.Ring → j.Ring
  advance_read_ptr it r = j.read_advance r it.read_offset

-- What reading each position from the iterator to the end of its ring gives.
unfoldable pub range : RingbufferReadIterator → Range
range it =
    tabulate (readable_bytes it - it.read_offset) it.read_offset
      (λ i. deref (record it { read_offset = i }))

-- `MidiEvent::parse` from an iterator to the end of its ring, with the iterator that it returns.
unfoldable pub parse_at : RingbufferReadIterator → Result (MidiEvent × RingbufferReadIterator)
parse_at it = do
  (event, rest) ← parse (range it)
  ok (event, record it { read_offset = readable_bytes it - length rest })
