-- ===== src/OscDriver.antt =====
-- driver-osc/src: the second driver, which speaks OSC to a Non session and its peers.
pub mod Signals
pub mod Messages
pub mod Loop
pub mod Program
pub mod JackClient
pub mod HidDev
pub mod InputChange
pub mod NonSession
