-- ===== src/Kms.antt =====
-- probes/video/plank-probe-client-kms.cpp: decoded frames shown on a display by page flips.
pub mod Output
pub mod Framebuffers
pub mod Schedule
pub mod Display
pub mod Handoff
mod Tests
