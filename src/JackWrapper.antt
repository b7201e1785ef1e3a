-- ===== src/JackWrapper.antt =====
-- `JackWrapper` of driver/src/io/JackWrapper.hpp and JackWrapper.cpp: two ring buffers between the
-- program's threads and JACK's process thread.
pub mod Setup
pub mod Output
pub mod Input
pub mod Parsed
pub mod Reading
pub mod Cycles
use ni_traktor_kontrol_f.Base.{
  ℕ, zero, suc, refl, arith, ◌&&◌, ◌+◌, ◌/◌, ◌==◌, if◌then◌else◌, Bool, true, false, not, Option,
  some, none, List, [], ◌∷◌, Result, ok, err, jack_wrapper_exception, assert_failed, check,
  from_option, ◌>>=◌, ◌>>◌,
}
use ni_traktor_kontrol_f.Jack.{JackRing, JackMidi, Layout}
use ni_traktor_kontrol_f.MidiEvent.Types.{MidiEvent, to_bytes}
use ni_traktor_kontrol_f.Ringbuffer.{Ringbuffer, construct, empty, full, size, push, pop}
use ni_traktor_kontrol_f.RingIterator.{begin_iter, distance, parse_at}

-- `jack_midi_data_t` is a byte.
abbrev pub byte_layout : Layout ℕ
byte_layout = record {
  sizeof = 1;
  encode = λ b. b ∷ [];
  decode = first_byte;
  sizeof_pos = omega arith;
  length-encode = λ b. refl;
  decode-encode = λ b. refl;
}
  where
    first_byte : List ℕ → ℕ
    first_byte [] = 0
    first_byte (b ∷ bs) = b

abbrev pub in_buf_size : ℕ
in_buf_size = 8192

abbrev pub out_buf_size : ℕ
out_buf_size = 128

-- What JACK answers to the calls of the constructor.
pub record Server : Type 0 where
  pub client_open : Bool
  pub register_in : Bool
  pub register_out : Bool
  pub set_process_callback : ℕ
  pub set_xrun_callback : ℕ

-- `throw JackWrapperException` unless the call succeeded.
abbrev pub require : Bool → Result (Unit {0})
require true = ok tt
require false = err jack_wrapper_exception

module _ (j : JackRing) where
  -- What `operator>>` does with the input ring; `std::distance` is the difference of the positions.
  unfoldable pub read_event : (address : ℕ) → Ringbuffer j → Result (MidiEvent × Ringbuffer j)
  read_event address in_buf = do
    r ← from_option assert_failed in_buf.buf
    (event, next) ← parse_at (begin_iter j address r)
    n ← distance next (begin_iter j address r)
    ok (event, record in_buf { buf = some (j.read_advance r n) })

module _ (j : JackRing) (layout : Layout MidiEvent) where
  -- `JackWrapper::Impl`
  pub record Wrapper : Type 0 where
    pub active : Bool
    pub write_cb : Bool
    pub read_cb : Bool
    pub in_buf : Ringbuffer j
    pub out_buf : Ringbuffer j

  -- `init_client`, `init_ports`, `init_process_callback` and `init_xrun_callback`.
  unfoldable pub init_jack : Server → Result (Unit {0})
  init_jack s = do
    opened ← require s.client_open
    in_port ← require s.register_in
    out_port ← require s.register_out
    process_set ← require (s.set_process_callback == 0)
    require (s.set_xrun_callback == 0)

  unfoldable pub construct_wrapper : Server → Result Wrapper
  construct_wrapper s = do
    in_buf ← construct j byte_layout in_buf_size
    out_buf ← construct j layout out_buf_size
    ready ← init_jack s
    ok (record {
      active = false;
      write_cb = true;
      read_cb = true;
      in_buf = in_buf;
      out_buf = out_buf;
    })

  -- `activate` and `deactivate`, given what JACK answers; with whether JACK is called.
  unfoldable pub activate : (res : ℕ) → Wrapper → Result (Bool × Wrapper)
  activate res w =
      if w.active
      then ok (false, w)
      else if res == 0
      then ok (true, w)
      else err jack_wrapper_exception

  unfoldable pub deactivate : (res : ℕ) → Wrapper → Result (Bool × Wrapper)
  deactivate res w =
      if not w.active
      then ok (false, w)
      else if res == 0
      then ok (true, w)
      else err jack_wrapper_exception

  unfoldable pub read_bufsize : Wrapper → Result ℕ
  read_bufsize w = size j byte_layout w.in_buf

  unfoldable pub write_bufsize : Wrapper → Result ℕ
  write_bufsize w = size j layout w.out_buf

  -- `operator<<`
  unfoldable pub shift_out : Wrapper → MidiEvent → Result Wrapper
  shift_out w event = do
    is_full ← full j layout w.out_buf
    checked ← check (not is_full)
    out_buf ← push j layout w.out_buf event
    ok (record w { out_buf = out_buf })

  -- `operator>>`
  unfoldable pub shift_in : (address : ℕ) → Wrapper → Result (MidiEvent × Wrapper)
  unfolding read_event
  shift_in address w = do
    (event, in_buf) ← read_event j address w.in_buf
    ok (event, record w { in_buf = in_buf })

  module _ (k : JackMidi) where
    -- The loop of `write_callback`, with the rounds that its limit leaves.
    unfoldable pub write_events :
        (rounds : ℕ) → k.Port → Ringbuffer j → Result (k.Port × Ringbuffer j)
    write_events zero port out_buf = ok (port, out_buf)
    write_events (suc rounds) port out_buf = do
      is_empty ← empty j layout out_buf
      if is_empty then ok (port, out_buf) else do
        (event, out_buf) ← pop j layout out_buf
        bytes ← to_bytes event
        port ← from_option assert_failed (k.event_write port bytes)
        write_events rounds port out_buf

    -- `write_callback`; it returns 0 whenever it returns.
    unfoldable pub write_callback : (nframes : ℕ) → k.Port → Wrapper → Result (ℕ × k.Port × Wrapper)
    write_callback nframes port w = do
      (port, out_buf) ← write_events (nframes / 3) (k.clear_buffer port) w.out_buf
      ok (0, port, record w { out_buf = out_buf })

    -- The inner loop of `read_callback`: the result is 1 if the ring is full before the last byte.
    unfoldable pub push_bytes : List ℕ → Ringbuffer j → Result (ℕ × Ringbuffer j)
    push_bytes [] in_buf = ok (0, in_buf)
    push_bytes (b ∷ bs) in_buf = do
      is_full ← full j byte_layout in_buf
      if is_full
          then ok (1, in_buf)
          else do in_buf ← push j byte_layout in_buf b; push_bytes bs in_buf

    -- Its outer loop from event `i` on.
    unfoldable pub read_events : (rounds i : ℕ) → k.Port → Ringbuffer j → Result (ℕ × Ringbuffer j)
    read_events zero i port in_buf = ok (0, in_buf)
    read_events (suc rounds) i port in_buf = elim (k.event_get port i) [
      | none ↦ ok (1, in_buf)
      | some bytes ↦ do
        (res, in_buf) ← push_bytes bytes in_buf
        if res == 0 then read_events rounds (suc i) port in_buf else ok (1, in_buf)
    ]

    unfoldable pub read_callback : k.Port → Wrapper → Result (ℕ × Wrapper)
    read_callback port w = do
      (res, in_buf) ← read_events (k.event_count port) 0 port w.in_buf
      ok (res, record w { in_buf = in_buf })

    -- `process_int`, with the buffers that JACK hands out for both ports.
    unfoldable pub process_int :
        (nframes : ℕ)
        → (midi_out midi_in : Option k.Port) → Wrapper
        → Result (ℕ × Option k.Port × Wrapper)
    process_int nframes midi_out midi_in w =
        if not (w.write_cb && w.read_cb) then ok (1, midi_out, w) else do
          write_buf ← from_option assert_failed midi_out
          (write_res, written, w) ← write_callback nframes write_buf w
          read_buf ← from_option assert_failed midi_in
          (read_res, w) ← read_callback read_buf w
          ok (write_res + read_res, some written, w)
