-- ===== src/Transport/Event.antt =====
-- protocol/plank-transport/include/plank_transport_event.h: Host-to-Client event packets.
pub mod Codec
use teraguchi.Common.{
  ℕ, ◌+◌, ◌%◌, ◌^◌, Bool, ◌||◌, ◌&&◌, not, List, Option, none, some, ltb, ◌==◌, ◌!=◌, if◌then◌else◌,
  drop,
}
use teraguchi.Common.Memory.{
  Outcome, done, refused, ◌>>=◌, ◌>>◌, refuse_if, Pointer, is_null, bytes_of, memcpy,
}
use teraguchi.Transport.Wire.{write_u16, write_u32, read_u16, read_u32}

abbrev pub magic : ℕ
magic = 0x504c4531

-- `payload` points behind the header; `payload_size` of its bytes belong to the packet.
pub record Packet : Type 0 where
  pub type : ℕ
  pub payload : List ℕ
  pub payload_size : ℕ

-- The test of the early return of `encode_event`.
unfoldable pub encode_event_refuses : Pointer → ℕ → ℕ → Bool → Bool
encode_event_refuses payload payload_size output_capacity wants_size =
    not wants_size
    || payload_size != 0 && is_null payload
    || ltb 65535 payload_size
    || ltb output_capacity ((8 + payload_size) % 2 ^ 64)

-- `wants_size` is false where the caller gives a NULL `output_size`. A successful call returns the
-- bytes of the output buffer and `*output_size`.
pub encode_event : ℕ → Pointer → ℕ → Pointer → ℕ → Bool → Outcome (List ℕ × ℕ)
encode_event type payload payload_size none output_capacity wants_size = refused
encode_event type payload payload_size (some output) output_capacity wants_size = do
  let packet_size = (8 + payload_size) % 2 ^ 64
  refuse_if (encode_event_refuses payload payload_size output_capacity wants_size)
  output ← write_u32 output 0 magic
  output ← write_u16 output 4 type
  output ← write_u16 output 6 (payload_size % 2 ^ 16)
  output ←
      (if payload_size != 0 then memcpy output 8 (bytes_of payload) payload_size else done output)
  done (output, packet_size)

-- `wants_packet` is false where the caller gives a NULL `decoded`.
unfoldable pub decode_event : Pointer → ℕ → Bool → Outcome Packet
decode_event none packet_size wants_packet = refused
decode_event (some packet) packet_size wants_packet = do
  refuse_if (not wants_packet || ltb packet_size 8)
  found ← read_u32 packet 0
  refuse_if (found != magic)
  payload_size ← read_u16 packet 6
  refuse_if (packet_size != 8 + payload_size)
  type ← read_u16 packet 4
  done (record { type = type; payload = drop 8 packet; payload_size = payload_size })
