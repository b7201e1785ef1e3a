-- ===== src/Lib.antt =====
-- The ni-traktor-kontrol-f1 drivers: two programs that make the Traktor Kontrol F1 of Native
-- Instruments, a grid of lit buttons with faders, knobs and a wheel, usable as a MIDI or an OSC
-- controller.
--
-- The JACK driver (driver/src) has an input thread: it reads a report from the device
-- (`F1Device::read_events`), compares it with the state before, and hands one event for each control
-- that changed to the mapper (`IOMapper::process_HID_input`), which answers with a MIDI event and
-- changes the lights in the device's output state; then the output report is written. The main thread
-- parses incoming MIDI (`MidiEvent::parse`) and lets the mapper change lights
-- (`IOMapper::process_MIDI_event`). The OSC driver (driver-osc/src) reads the same reports
-- (`F1HidDev`), sends their differences to peers, and finds the peers by a session protocol
-- (`NonSessionHandler`).
--
-- Which file models which part:
--   Base            results with the errors of the code, lists, loops, bits, comparison loops
--   F1Device        driver/src/tkf1/F1Device.{hpp,cpp}: Types and SegmentChar for the data, Input for
--                   update_in_state, Output for update_out_report, Events for generate_input_events,
--                   Helpers for the static functions
--   MidiEvent       driver/src/io/MidiEvent.{hpp,cpp}: Types, Parse, Notes, Print
--   IoMapper        driver/src/tkf1/IOMapper.{hpp,cpp}: Types for the configuration, Hid for
--                   process_HID_input, Midi for process_MIDI_event, Floats for the arithmetic
--   Driver          driver/src/main.cpp's input thread with F1Device::read, read_events and write,
--                   HidDevice::read and write, and JackWrapper::operator<< on a list of events; Batch
--                   for the main thread's loop over incoming MIDI, Main for the start and the two threads
--                   together, Landlock for setup_landlock
--   Devtest         driver/src/devtest.cpp: Lights for what its first thread shows, Reach for both threads
--   Jack            what both drivers use of JACK, as parameters
--   HidDevice       driver/src/io/FileDescriptor.hpp, the opening of a device by HidDevice.cpp, and
--                   discover_device of driver/src/main.cpp
--   Ringbuffer      driver/src/io/Ringbuffer.hpp; Holds, Steps, Refine and Copy relate a ring buffer to
--                   the list of its items
--   RingIterator    driver/src/io/RingbufferIterator.{hpp,cpp}
--   MidiStream      driver/src/io/MidiStream.{hpp,cpp}
--   JackWrapper     driver/src/io/JackWrapper.{hpp,cpp}: Setup for the constructor, Output and Cycles for
--                   the way out, Input, Parsed and Reading for the way in
--   OscDriver       driver-osc/src: HidDev for F1HidDev.cpp, InputChange for F1InputState.cpp,
--                   NonSession for NonSessionHandler.cpp, JackClient for JackClient.cpp, Loop for
--                   the loop of exe/osc_driver.cpp, Program for the rest of it, Signals for NonSignal.hpp and
--                   broadcast_input_event, Messages for the methods of register_callbacks
--   Tests           concrete inputs
--
-- How code is modelled. A call ends in a `Result`: a value, or the exception, failed assertion or
-- undefined behaviour that ends it. `.at()` is `at`, whose error is `std::out_of_range`; `operator[]`
-- of a bitset or an array out of range is undefined. Arrays and bitsets are lists; the extents that
-- C++ fixes in types are hypotheses on lengths (`HasShape`, `IsValid`). Bytes and words are numbers
-- whose wrap-around is written out. Mutable members are passed and returned. Counted loops are
-- `for_range`. The session's state machine calls itself; it is run for at most six passes.
--
-- The JACK driver's threads take turns in whole rounds (`Driver.Main`), and so do those of the test
-- program (`Devtest`): what they do to each other
-- within a round, without a lock, is not modelled. The input ring of the JACK driver's rounds is a
-- ring buffer of bytes over JACK's ring, which `JackWrapper::operator>>` reads; the output ring is a
-- list of events, to which JackWrapper relates the ring buffer. What the process callback returns
-- goes to JACK; the cycles of `JackWrapper.Cycles` go on after a result other than 0.
--
-- A loop of JackClient that counts in steps of three runs for a third of its bound, rounded up.
--
-- Parameters: `float` and `double` (`Floats`, with the laws of `FloatLaws`), JACK's ring of bytes
-- and the buffers of its MIDI ports (`JackRing`, `JackMidi`, with the laws that JACK documents),
-- the layout of a trivially copyable type in memory (`Layout`), which method the OSC library picks
-- for a message (`OscServer`), what system calls return and which ids a process has (`Ids`), how a
-- stream prints a number, paths and actions of the landlock library (`Paths`, `Actions`), the
-- outcome of connecting to JACK, client ids with the order of `std::map`, and the signals of peers
-- (texts, in Messages). A ring is used by one thread at a time: JACK's documentation makes its
-- calls atomic for one reader and one writer, so that threads are interleavings of calls.
--
-- Not modelled: the encoding of OSC messages (a position is a number of 12 bits that stands for its
-- part of the whole range), the texts that announce the driver to its server, threads and the mutex,
-- the landlock rule for address sanitizers, the unit tests and the OSC driver's debugging programs.
pub mod Base
pub mod F1Device
pub mod MidiEvent
pub mod IoMapper
pub mod Jack
pub mod Ringbuffer
pub mod RingIterator
pub mod MidiStream
pub mod JackWrapper
pub mod HidDevice
pub mod Driver
pub mod Devtest
pub mod OscDriver
pub mod Tests
