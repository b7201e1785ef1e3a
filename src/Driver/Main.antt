-- ===== src/Driver/Main.antt =====
-- `main` of driver/src/main.cpp: the mapper's configuration, the two threads and JACK's thread around
-- the buffers. A system is what they share, and they take turns in whole rounds: the code has no lock
-- around the mapper and the output state. The output ring is a list of events.
pub mod Start
pub mod Rounds
pub mod Reach
use ni_traktor_kontrol_f.Base.{
  ℕ, ◌+◌, ◌≤◌, ◌≡◌, if◌then◌else◌, Bool, true, false, List, [], ◌∷◌, All, replicate, length, drop,
  Option, none, some, ◌⊎◌, inl, inr, Result, ok, ◌>>=◌,
}
use ni_traktor_kontrol_f.F1Device.Types.{
  ButtonColor, InputState, HasShape, InRange, dark, full_brightness, input_report_id,
  output_report_size,
}
use ni_traktor_kontrol_f.F1Device.Helpers.{rgb2color}
use ni_traktor_kontrol_f.F1Device.Output.{construct}
use ni_traktor_kontrol_f.F1Device.Input.RoundTrip.{encode}
use ni_traktor_kontrol_f.F1Device.Events.Device.{InScale}
use ni_traktor_kontrol_f.MidiEvent.Types.{MidiEvent}
use ni_traktor_kontrol_f.Jack.{JackRing, JackMidi, Layout}
use ni_traktor_kontrol_f.Ringbuffer.{Ringbuffer}
use ni_traktor_kontrol_f.Ringbuffer as Buffer
use ni_traktor_kontrol_f.JackWrapper.{byte_layout, in_buf_size, read_events}
use ni_traktor_kontrol_f.JackWrapper.Reading.{Bytes}
use ni_traktor_kontrol_f.IoMapper.Floats.{Floats}
use ni_traktor_kontrol_f.IoMapper.Types.{default_mapper}
use ni_traktor_kontrol_f.IoMapper.Hid.{Mapper}
use ni_traktor_kontrol_f.Driver.{Driver, write, input_round}
use ni_traktor_kontrol_f.HidDevice.{Node, discover_device}
use ni_traktor_kontrol_f.Driver.Batch.{midi_batch}

-- `colors`
abbrev pub red : ButtonColor
unfolding rgb2color
red = rgb2color full_brightness dark dark

abbrev pub green : ButtonColor
unfolding rgb2color
green = rgb2color dark full_brightness dark

abbrev pub blue : ButtonColor
unfolding rgb2color
blue = rgb2color dark dark full_brightness

abbrev pub yellow : ButtonColor
unfolding rgb2color
yellow = rgb2color full_brightness full_brightness dark

abbrev pub batch_size : ℕ
batch_size = 1024

abbrev pub no_device_found : ℕ
no_device_found = 2

module _ (fl : Floats) where
  -- `io_mapper`, as `main` configures it.
  unfoldable pub main_mapper : Mapper fl
  unfolding default_mapper
  main_mapper =
      let m = default_mapper fl in
      record m {
        matrix_colors =
            red ∷ green ∷ green ∷ red ∷ green ∷ yellow ∷ yellow ∷ green ∷ green ∷ blue ∷ yellow
            ∷ green ∷ red ∷ green ∷ green ∷ red ∷ [];
        button_toggle = record (m.button_toggle) { matrix = replicate 16 true };
      }

  -- `dev->write()` after a batch that changed the lights.
  unfoldable pub write_if :
      (write_hid : Bool) → (written : Option ℕ) → Driver fl → Result (Driver fl)
  write_if write_hid written d =
      if write_hid then (write written d.dev >>= λ w. ok (record d { dev = w.0 })) else ok d

module _ (fl : Floats) (j : JackRing) where
  pub record System : Type 0 where
    pub driver : Driver fl
    pub in_buf : Ringbuffer j

  -- The system when both threads start, given what the device's members held. The wrapper of JACK is
  -- the one that makes the input ring.
  unfoldable pub start : (input_state old_input_state : InputState) → Result System
  unfolding construct main_mapper
  start input_state old_input_state = do
    dev ← construct input_state old_input_state
    in_buf ← Buffer.construct j byte_layout in_buf_size
    ok (record {
      driver = record { io_mapper = main_mapper fl; dev = dev; out_buf = [] };
      in_buf = in_buf;
    })

  -- `main` from the search for a device on, up to its threads: an exit code, or that system.
  -- `connected` is what the construction of the JackWrapper and `activate` end in.
  unfoldable pub main_program :
      (closes : ℕ → Bool) (nodes : ℕ → Node)
      → List ℕ
      → (input_state old_input_state : InputState) (connected : Result (Unit {0}))
      → Result (ℕ ⊎ System)
  unfolding start
  main_program closes nodes open_fds input_state old_input_state connected = do
    (f, open_fds) ← discover_device closes nodes open_fds
    elim f [
      | none ↦ ok (inl no_device_found)
      | some fd ↦ (start input_state old_input_state >>= λ s. connected >>= λ _. ok (inr s))
    ]

  -- The body of the main thread's loop, without its pause.
  unfoldable pub midi_round : (written : Option ℕ) → (address : ℕ) → System → Result System
  unfolding write_if
  midi_round written address s = do
    r ←
        midi_batch fl j batch_size address s.in_buf s.driver.io_mapper s.driver.dev.output_state
          false
    d ←
        write_if fl r.1 written
          (record (s.driver) { dev = record (s.driver.dev) { output_state = r.0 } })
    ok (record { driver = d; in_buf = r.2 })

module _ (fl : Floats) (j : JackRing) (layout : Layout MidiEvent) (k : JackMidi) where
  -- What a thread can do to the system: a round of the input thread with a report of the device, a
  -- round of the main thread, and JACK's thread, which takes events and puts the bytes of messages into
  -- the ring.
  -- JACK keeps up: there is always room for the events of one more report.
  pub data Step (room : ℕ) : System fl j → System fl j → Type 0 where
    by_input :
        {s : System fl j} {d : Driver fl} (t : InputState) (p q r : Bool) (report : List ℕ)
        → HasShape t
        → InRange t
        → InScale t
        → t.report_id ≡ input_report_id
        → length s.driver.out_buf + 38 ≤ room
        → input_round fl room (some (encode p q r t)) (some output_report_size) s.driver
          ≡ ok (d, report)
        → Step room s (record s { driver = d })
    by_midi :
        {s t : System fl j} (address : ℕ)
        → midi_round fl j (some output_report_size) address s ≡ ok t
        → Step room s t
    by_sending :
        {s : System fl j} (n : ℕ)
        → Step room s
            (record s { driver = record (s.driver) { out_buf = drop n s.driver.out_buf } })
    by_receiving :
        {s : System fl j} (port : k.Port) (res : ℕ) (in_buf : Ringbuffer j)
        → All Bytes (k.messages port)
        → read_events j layout k (k.event_count port) 0 port s.in_buf ≡ ok (res, in_buf)
        → Step room s (record s { in_buf = in_buf })

  pub data Reachable (room : ℕ) : System fl j → Type 0 where
    started :
        {s : System fl j} (a b : InputState) → HasShape a → start fl j a b ≡ ok s → Reachable room s
    then_ : {s t : System fl j} → Reachable room s → Step room s t → Reachable room t
