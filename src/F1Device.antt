-- ===== src/F1Device.antt =====
-- The Traktor Kontrol F1 as the MIDI driver sees it: driver/src/tkf1/F1Device.{hpp,cpp}.
pub mod SegmentChar
pub mod Types
pub mod Shape
pub mod Input
pub mod Output
pub mod Helpers
pub mod Events
