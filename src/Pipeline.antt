-- ===== src/Pipeline.antt =====
-- probes/video/plank-probe-client-pipeline.cpp: the presentation of decoded samples.
pub mod Present
pub mod Process
mod Recorded
mod Sound
pub mod Inflight
mod Tests
