-- ===== src/Video.antt =====
-- probes/video/plank-probe-video-pipeline.cpp: capture, conversion and encoding in two slots.
pub mod Encoder
pub mod Gates
pub mod Options
pub mod Percentile
pub mod Queue
mod Tests
