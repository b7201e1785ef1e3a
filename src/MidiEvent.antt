-- ===== src/MidiEvent.antt =====
-- MIDI events: driver/src/io/MidiEvent.{hpp,cpp}.
pub mod Types
pub mod Parse
pub mod Print
pub mod Notes
