-- ===== src/Wacom.antt =====
-- probes/wacom/plank-wacom-raw-bridge.cpp: a tablet's raw HID reports carried over a socket, from the
-- client that owns the tablet to the host that shows it to its programs as a UHID device.
pub mod Socket
pub mod Frames
pub mod Host
pub mod Client
pub mod Relay
pub mod Identity
pub mod Options
pub mod Connect
mod Tests
