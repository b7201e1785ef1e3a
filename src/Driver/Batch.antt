-- ===== src/Driver/Batch.antt =====
-- The main thread of driver/src/main.cpp: a batch of incoming MIDI events, each read from the input
-- ring by `JackWrapper::operator>>` and given to the mapper.
pub mod Lights
use ni_traktor_kontrol_f.Base.{ℕ, zero, suc, Bool, Result, ok, ◌>>=◌}
use ni_traktor_kontrol_f.F1Device.Types.{OutputState}
use ni_traktor_kontrol_f.Jack.{JackRing}
use ni_traktor_kontrol_f.Ringbuffer.{Ringbuffer, size}
use ni_traktor_kontrol_f.JackWrapper.{byte_layout, read_event}
use ni_traktor_kontrol_f.IoMapper.Floats.{Floats}
use ni_traktor_kontrol_f.IoMapper.Hid.{Mapper}
use ni_traktor_kontrol_f.IoMapper.Midi.{process_midi_event}

module _ (fl : Floats) (j : JackRing) where
  -- The loop of at most `n` events: the output state, `write_hid` and the input ring. The ring stands
  -- at `address`.
  unfoldable pub midi_batch :
      (n address : ℕ) (in_buf : Ringbuffer j)
      → Mapper fl
      → OutputState
      → (write_hid : Bool) → Result (OutputState × Bool × Ringbuffer j)
  midi_batch zero address in_buf m o write_hid = ok (o, write_hid, in_buf)
  midi_batch (suc n) address in_buf m o write_hid = do
    waiting ← size j byte_layout in_buf
    elim waiting [
      | zero ↦ ok (o, write_hid, in_buf)
      | suc more ↦ do
        (event, in_buf) ← read_event j address in_buf
        r ← process_midi_event fl m event o
        midi_batch n address in_buf m r.0 r.1
    ]
