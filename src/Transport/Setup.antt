-- ===== src/Transport/Setup.antt =====
-- protocol/plank-transport/include/plank_transport_setup.h: the packets of the dialogue before a
-- session (server information, PAM conversation, topology, launch).
pub mod Codec
use teraguchi.Common.{
  ℕ, ◌+◌, ◌%◌, ◌^◌, Bool, ◌||◌, ◌&&◌, not, List, none, some, ltb, ◌==◌, ◌!=◌, if◌then◌else◌, drop,
  bit_and,
}
use teraguchi.Common.Memory.{
  Outcome, done, refused, ◌>>=◌, ◌>>◌, refuse_if, Pointer, is_null, bytes_of, memcpy,
}
use teraguchi.Transport.Wire.{write_u16, write_u32, read_u16, read_u32}

abbrev pub magic : ℕ
magic = 0x504c5331

abbrev pub version : ℕ
version = 1

abbrev pub max_packet_size : ℕ
max_packet_size = 65536

abbrev pub max_payload_size : ℕ
max_payload_size = 65516

-- `flags & ~(RESPONSE | SENSITIVE)`, in 32 bits.
unfoldable pub unknown_flags : ℕ → ℕ
unknown_flags flags = bit_and flags 0xfffffffc

-- `payload` points behind the header; `payload_size` of its bytes belong to the packet.
pub record Packet : Type 0 where
  pub type : ℕ
  pub flags : ℕ
  pub status : ℕ
  pub request_id : ℕ
  pub payload : List ℕ
  pub payload_size : ℕ

-- The test of the early return of `encode_setup`, for an output that is not NULL.
unfoldable pub encode_setup_refuses : ℕ → ℕ → ℕ → Pointer → ℕ → ℕ → Bool → Bool
unfolding unknown_flags
encode_setup_refuses type flags request_id payload payload_size output_capacity wants_size =
    type == 0
    || request_id == 0
    || not wants_size
    || unknown_flags flags != 0
    || payload_size != 0 && is_null payload
    || ltb max_payload_size payload_size
    || ltb output_capacity ((20 + payload_size) % 2 ^ 64)

-- `wants_size` is false where the caller gives a NULL `output_size`. A successful call returns the
-- bytes of the output buffer and `*output_size`.
pub encode_setup : ℕ → ℕ → ℕ → ℕ → Pointer → ℕ → Pointer → ℕ → Bool → Outcome (List ℕ × ℕ)
encode_setup type flags status request_id payload payload_size none output_capacity wants_size =
    refused
encode_setup type flags status request_id payload payload_size (some output) output_capacity
      wants_size =
    do
      let packet_size = (20 + payload_size) % 2 ^ 64
      refuse_if (
          encode_setup_refuses type flags request_id payload payload_size output_capacity
            wants_size)
      output ← write_u32 output 0 magic
      output ← write_u16 output 4 version
      output ← write_u16 output 6 type
      output ← write_u16 output 8 flags
      output ← write_u16 output 10 status
      output ← write_u32 output 12 request_id
      output ← write_u32 output 16 (payload_size % 2 ^ 32)
      output ←
          (if payload_size != 0
            then memcpy output 20 (bytes_of payload) payload_size
            else done output)
      done (output, packet_size)

-- `wants_packet` is false where the caller gives a NULL `decoded`. The reads stand behind the tests
-- that come before them in the source's `||`.
unfoldable pub decode_setup : Pointer → ℕ → Bool → Outcome Packet
decode_setup none packet_size wants_packet = refused
decode_setup (some packet) packet_size wants_packet = do
  refuse_if (not wants_packet || ltb packet_size 20 || ltb max_packet_size packet_size)
  found ← read_u32 packet 0
  refuse_if (found != magic)
  format ← read_u16 packet 4
  refuse_if (format != version)
  type ← read_u16 packet 6
  refuse_if (type == 0)
  request_id ← read_u32 packet 12
  refuse_if (request_id == 0)
  flags ← read_u16 packet 8
  refuse_if (unknown_flags flags != 0)
  payload_size ← read_u32 packet 16
  refuse_if (ltb max_payload_size payload_size || packet_size != (20 + payload_size) % 2 ^ 32)
  status ← read_u16 packet 10
  done (record {
    type = type;
    flags = flags;
    status = status;
    request_id = request_id;
    payload = drop 20 packet;
    payload_size = payload_size;
  })
