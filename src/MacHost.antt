-- ===== src/MacHost.antt =====
-- apps/host/macos: the parts of the macOS host that its C headers define.
pub mod Account
pub mod Recovery
pub mod TapBuffer
pub mod FrameTiming
mod Tests
