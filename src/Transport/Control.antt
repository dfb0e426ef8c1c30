-- ===== src/Transport/Control.antt =====
-- protocol/plank-transport/include/plank_transport_control.h: control packets of a session
-- (disconnect, terminate, key frame request, frame invalidation, bit rate, handoff).
pub mod Codec
use teraguchi.Common.{
  ℕ, zero, suc, ◌+◌, ◌*◌, ◌%◌, ◌^◌, Bool, ◌||◌, ◌&&◌, not, List, none, some, ltb, ◌!=◌, drop,
}
use teraguchi.Common.Memory.{
  Outcome, done, refused, ◌>>=◌, ◌>>◌, refuse_if, Pointer, is_null, bytes_of, load,
}
use teraguchi.Transport.Wire.{write_u16, write_u32, read_u16, read_u32}

abbrev pub magic : ℕ
magic = 0x504c4431

-- `payload` points behind the header; `payload_size` of its bytes belong to the packet.
pub record Packet : Type 0 where
  pub type : ℕ
  pub payload : List ℕ
  pub payload_size : ℕ

-- `for (index = 0; index < value_count; ++index)`, with the rounds left as first argument.
unfoldable pub write_values : ℕ → ℕ → List ℕ → List ℕ → Outcome (List ℕ)
unfolding load write_u32
write_values zero index values output = done output
write_values (suc left) index values output = do
  value ← load values index
  output ← write_u32 output (8 + index * 4) value
  write_values left (index + 1) values output

-- `values` points to words of 32 bits. `wants_size` is false where the caller gives a NULL
-- `output_size`. A successful call returns the bytes of the output buffer and `*output_size`.
pub encode_control : ℕ → Pointer → ℕ → Pointer → ℕ → Bool → Outcome (List ℕ × ℕ)
encode_control type values value_count none output_capacity wants_size = refused
encode_control type values value_count (some output) output_capacity wants_size = do
  refuse_if (not wants_size || ltb 3 value_count || value_count != 0 && is_null values)
  let payload_size = value_count * 4
  let packet_size = 8 + payload_size
  refuse_if (ltb output_capacity packet_size)
  output ← write_u32 output 0 magic
  output ← write_u16 output 4 type
  output ← write_u16 output 6 (payload_size % 2 ^ 16)
  output ← write_values value_count 0 (bytes_of values) output
  done (output, packet_size)

-- `wants_packet` is false where the caller gives a NULL `decoded`.
pub decode_control : Pointer → ℕ → Bool → Outcome Packet
decode_control none packet_size wants_packet = refused
decode_control (some packet) packet_size wants_packet = do
  refuse_if (not wants_packet || ltb packet_size 8)
  found ← read_u32 packet 0
  refuse_if (found != magic)
  payload_size ← read_u16 packet 6
  refuse_if (packet_size != 8 + payload_size)
  type ← read_u16 packet 4
  done (record { type = type; payload = drop 8 packet; payload_size = payload_size })
