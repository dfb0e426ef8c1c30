-- ===== src/Transport.antt =====
-- protocol/plank-transport/include: the packets that Host and Client exchange over the transport.
pub mod Wire
pub mod Control
pub mod Event
pub mod Input
pub mod Setup
mod Tests
