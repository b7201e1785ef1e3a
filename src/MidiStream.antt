-- ===== src/MidiStream.antt =====
-- `MidiStream` and its iterator, driver/src/io/MidiStream.hpp and MidiStream.cpp.
pub mod Events
use ni_traktor_kontrol_f.Base.{
  ℕ, ltb, if◌then◌else◌, Bool, true, false, ◌&&◌, List, Option, Result, ok, err, bad_alloc,
  from_option, ◌>>=◌,
}
use ni_traktor_kontrol_f.Jack.{JackRing}
use ni_traktor_kontrol_f.MidiEvent.Types.{MidiEvent}
use ni_traktor_kontrol_f.RingIterator.{
  RingbufferReadIterator, same_position, begin_iter, end_iter, advance_read_ptr, parse_at,
}

-- `MidiStream::iterator`
pub record StreamIterator : Type 0 where
  pub buf_iter : RingbufferReadIterator
  pub end_iter : RingbufferReadIterator
  pub next_buf_iter : RingbufferReadIterator

-- `operator*`; the iterator remembers where the event ends.
unfoldable pub deref : StreamIterator → Result (MidiEvent × StreamIterator)
deref it = do (event, next) ← parse_at it.buf_iter; ok (event, record it { next_buf_iter = next })

-- `operator++`; an event that was not read yet is read to find its end.
unfoldable pub increment : StreamIterator → Result StreamIterator
increment it = do
  it ← if same_position it.next_buf_iter it.end_iter then (deref it >>= λ r. ok r.1) else ok it
  ok (record it { buf_iter = it.next_buf_iter; next_buf_iter = it.end_iter })

unfoldable pub is_end : StreamIterator → Bool
is_end it = same_position it.buf_iter it.end_iter

module _ (j : JackRing) where
  -- The ring that `buf` points to, its address, and whether a notification is wanted.
  pub record MidiStream : Type 0 where
    pub address : ℕ
    pub buf : j.Ring
    pub write_notification_callback : Bool

  unfoldable pub construct : (address buf_size : ℕ) → Result MidiStream
  construct address buf_size = do
    r ← from_option bad_alloc (j.create buf_size)
    ok (record { address = address; buf = r; write_notification_callback = false })

  unfoldable pub set_write_notification_callback : MidiStream → MidiStream
  set_write_notification_callback s = record s { write_notification_callback = true }

  -- How many bytes were written, and whether the callback is called.
  unfoldable pub write : MidiStream → List ℕ → ℕ × Bool × MidiStream
  write s bytes =
      let (written, r) = j.write s.buf bytes in
      (written, ltb 0 written && s.write_notification_callback, record s { buf = r })

  -- `begin` and `end`
  unfoldable pub begin : MidiStream → StreamIterator
  begin s =
      let last = end_iter j s.address s.buf in
      record { buf_iter = begin_iter j s.address s.buf; end_iter = last; next_buf_iter = last }

  unfoldable pub end : MidiStream → StreamIterator
  end s =
      let last = end_iter j s.address s.buf in
      record { buf_iter = last; end_iter = last; next_buf_iter = last }

  -- `iterator::advance_read_ptr`
  unfoldable pub advance_stream : StreamIterator → MidiStream → MidiStream
  advance_stream it s = record s { buf = advance_read_ptr j it.buf_iter s.buf }
