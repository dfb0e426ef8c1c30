-- ===== src/X11.antt =====
-- probes/x11/plank-probe-x11-native10.cpp: the unpacking of a captured image of 10 bits a channel.
mod Fields
pub mod Channels
pub mod Planes
pub mod Codes
pub mod Expansion
pub mod Segment
pub mod Workers
mod Tests
