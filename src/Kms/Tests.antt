-- ===== src/Kms/Tests.antt =====
-- The parts of the probe at concrete inputs.
mod Screens
mod Runs
