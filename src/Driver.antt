-- ===== src/Driver.antt =====
-- The input thread of driver/src/main.cpp: one round reads a report, turns it into events, maps
-- them to MIDI and lights, and writes the lights back. With it, `F1Device::read_events`, `read` and
-- `write`, `HidDevice::read` and `write`, and `JackWrapper::operator<<`.
pub mod Report
pub mod Round
pub mod Batch
pub mod Main
pub mod Landlock
use ni_traktor_kontrol_f.Base.{
  ℕ, ltb, leb, if◌then◌else◌, List, [], ◌∷◌, ◌++◌, length, Option, some, none, Result, ok, err,
  hid_error, assert_failed, from_option, ◌>>=◌,
}
use ni_traktor_kontrol_f.F1Device.Types.{Impl, InputEvent, input_report_size, output_report_size}
use ni_traktor_kontrol_f.F1Device.Input.{update_in_state}
use ni_traktor_kontrol_f.F1Device.Output.{update_out_report}
use ni_traktor_kontrol_f.F1Device.Events.{generate_input_events}
use ni_traktor_kontrol_f.MidiEvent.Types.{MidiEvent}
use ni_traktor_kontrol_f.IoMapper.Floats.{Floats}
use ni_traktor_kontrol_f.IoMapper.Hid.{Mapper, process_hid_input}

-- `HidDevice::read`, given what the system call stored: nothing if it failed, else its bytes. A
-- short read is refused.
unfoldable pub hid_read : Option (List ℕ) → ℕ → Result (List ℕ)
hid_read received size = do
  bytes ← from_option hid_error received
  if ltb (length bytes) size then err hid_error else ok bytes

-- `HidDevice::write`, given how many bytes the system call wrote, if it did not fail.
unfoldable pub hid_write : Option ℕ → List ℕ → Result (List ℕ)
hid_write written bytes = do
  n ← from_option hid_error written
  if ltb n (length bytes) then err hid_error else ok bytes

-- `F1Device::read`.
unfoldable pub read : Option (List ℕ) → Impl → Result Impl
unfolding hid_read
read received d = do
  bytes ← hid_read received input_report_size
  update_in_state (record d { in_report = bytes })

-- `F1Device::write`, with the bytes that the device was given.
unfoldable pub write : Option ℕ → Impl → Result (Impl × List ℕ)
unfolding hid_write
write written d = do d ← update_out_report d; bytes ← hid_write written d.out_report; ok (d, bytes)

-- `JackWrapper::operator<<` on a ring that has room for `room` events.
unfoldable pub push_event : (room : ℕ) → MidiEvent → List MidiEvent → Result (List MidiEvent)
push_event room event out_buf =
    if leb room (length out_buf) then err assert_failed else ok (out_buf ++ (event ∷ []))

unfoldable pub push_if : (room : ℕ) → Option MidiEvent → List MidiEvent → Result (List MidiEvent)
unfolding push_event
push_if room none out_buf = ok out_buf
push_if room (some event) out_buf = push_event room event out_buf

module _ (fl : Floats) where
  pub record Driver : Type 0 where
    pub io_mapper : Mapper fl
    pub dev : Impl
    pub out_buf : List MidiEvent

  -- The handler that the input thread passes to `read_events`.
  unfoldable pub handle_event : (room : ℕ) → InputEvent → Driver → Result Driver
  unfolding push_if
  handle_event room event d = do
    r ← process_hid_input fl d.io_mapper event d.dev.output_state
    out_buf ← push_if room r.0 d.out_buf
    ok (record { io_mapper = r.1; dev = record (d.dev) { output_state = r.2 }; out_buf = out_buf })

  unfoldable pub handle_events : (room : ℕ) → List InputEvent → Driver → Result Driver
  unfolding handle_event
  handle_events room [] d = ok d
  handle_events room (event ∷ events) d = do
    d ← handle_event room event d
    handle_events room events d

  -- `F1Device::read_events`, with that handler.
  unfoldable pub read_events : (room : ℕ) → Option (List ℕ) → Driver → Result Driver
  unfolding read handle_events
  read_events room received d = do
    dev ← read received d.dev
    dev ← generate_input_events dev
    handle_events room dev.input_events (record d { dev = dev })

  -- The body of the thread's loop, with the report that the device was given.
  unfoldable pub input_round :
      (room : ℕ) → Option (List ℕ) → (written : Option ℕ) → Driver → Result (Driver × List ℕ)
  unfolding read_events write
  input_round room received written d = do
    d ← read_events room received d
    w ← write written d.dev
    ok (record d { dev = w.0 }, w.1)
