-- ===== src/IoMapper.antt =====
-- The mapper between MIDI and HID events: driver/src/tkf1/IOMapper.{hpp,cpp}.
pub mod Floats
pub mod Types
pub mod Hid
pub mod Midi
pub mod Safety
