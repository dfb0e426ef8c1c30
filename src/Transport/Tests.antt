-- ===== src/Transport/Tests.antt =====
-- The theorems of the transport's codecs at concrete inputs.
use teraguchi.Common.{
  ℕ, ◌+◌, ◌*◌, ◌%◌, ◌^◌, ◌<◌, ◌≡◌, ◌≢◌, ◌⊎◌, inr, refl, true, List, [], ◌∷◌, some, arith, replicate,
  take,
}
use teraguchi.Common.Memory.{done, refused, fault, ◌>>=◌}
use teraguchi.Transport.Wire.{read_u16, read_u32}
use teraguchi.Transport.Event.{encode_event, decode_event}
use teraguchi.Transport.Event.Codec.{decode_event-encode_event, encode_event-decode_event}
use teraguchi.Transport.Input.{FloatBits}
use teraguchi.Transport.Input.Layout.{PenFields}
use mathlib.Core.HLevel.{Σ_prop_path}
use native.Mathlib.Bridge.{le_prop}
use teraguchi.Transport.Setup
use teraguchi.Transport.Setup.{encode_setup, decode_setup}
use teraguchi.Transport.Setup.Codec.{
  encode_setup_cases, decode_setup-encode_setup, decode_setup-ne-fault, encode_setup-decode_setup,
}
use teraguchi.Transport.Control
use teraguchi.Transport.Control.{encode_control, decode_control}
use teraguchi.Transport.Control.Codec.{
  encode_control_cases, decode_control-encode_control, receive_words,
}

abbrev blank : List ℕ
blank = replicate 32 0xaa

abbrev offer : List ℕ
offer = 1 ∷ 2 ∷ 3 ∷ []

abbrev offer_packet : List ℕ
offer_packet = 0x50 ∷ 0x4c ∷ 0x45 ∷ 0x31 ∷ 0 ∷ 5 ∷ 0 ∷ 3 ∷ 1 ∷ 2 ∷ 3 ∷ []

decode_event-encode_event_example :
    (encode_event 5 (some offer) 3 (some blank) 32 true >>= λ sent.
    decode_event (some (take sent.1 sent.0)) sent.1 true)
    ≡ done (record { type = 5; payload = offer; payload_size = 3 })
decode_event-encode_event_example =
    decode_event-encode_event 5 32 offer blank (omega arith) (omega arith) (omega arith)
      (omega arith)

offer_decoded :
    decode_event (some offer_packet) 11 true
    ≡ done (record { type = 5; payload = offer; payload_size = 3 })
unfolding decode_event read_u16 read_u32
offer_decoded = refl

encode_event-decode_event_example :
    encode_event 5 (some offer) 3 (some (replicate 11 0)) 11 true ≡ done (offer_packet, 11)
encode_event-decode_event_example =
    encode_event-decode_event offer_packet (replicate 11 0)
      (record { type = 5; payload = offer; payload_size = 3 }) (omega arith) refl offer_decoded

abbrev start_packet : List ℕ
start_packet =
    0x50 ∷ 0x4c ∷ 0x53 ∷ 0x31 ∷ 0 ∷ 1 ∷ 0 ∷ 3 ∷ 0 ∷ 2 ∷ 0 ∷ 0 ∷ 0 ∷ 0 ∷ 1 ∷ 0 ∷ 0 ∷ 0 ∷ 0 ∷ 3
    ∷ offer

abbrev start : Setup.Packet
start = record {
  type = 3;
  flags = 2;
  status = 0;
  request_id = 256;
  payload = offer;
  payload_size = 3;
}

encode_setup_cases_example :
    (Setup.Codec.Accepted 3 2 256 (some offer) 3 32
      × (encode_setup 3 2 0 256 (some offer) 3 (some blank) 32 true
          ≡ done (Setup.Codec.written 3 2 0 256 offer 3 blank, 20 + 3)))
    ⊎ ((¬ (Setup.Codec.Accepted 3 2 256 (some offer) 3 32))
        × (encode_setup 3 2 0 256 (some offer) 3 (some blank) 32 true ≡ refused))
encode_setup_cases_example =
    encode_setup_cases 3 2 0 256 3 32 (some offer) blank (omega arith)
      (record { room = omega arith; given = λ h. omega arith })

decode_setup-encode_setup_example :
    (encode_setup 3 2 0 256 (some offer) 3 (some blank) 32 true >>= λ sent.
    decode_setup (some (take sent.1 sent.0)) sent.1 true)
    ≡ done start
decode_setup-encode_setup_example =
    decode_setup-encode_setup 3 2 0 256 32 offer blank (omega arith) (omega arith) (omega arith)
      (record {
        typed = omega arith;
        identified = omega arith;
        known = omega arith;
        present = inr refl;
        small = omega arith;
        enough = omega arith;
      })
      (omega arith)

decode_setup-ne-fault_example : decode_setup (some start_packet) 23 true ≢ fault
decode_setup-ne-fault_example = decode_setup-ne-fault start_packet true

start_decoded : decode_setup (some start_packet) 23 true ≡ done start
unfolding decode_setup read_u16 read_u32 Setup.unknown_flags
start_decoded = refl

encode_setup-decode_setup_example :
    encode_setup 3 2 0 256 (some offer) 3 (some (replicate 23 0)) 23 true ≡ done (start_packet, 23)
encode_setup-decode_setup_example =
    encode_setup-decode_setup start_packet (replicate 23 0) start (omega arith) refl start_decoded

abbrev frames : List ℕ
frames = 7 ∷ 0x80030023 ∷ []

encode_control_cases_example :
    (Control.Codec.Accepted (some frames) 2 32
      × (encode_control 4 (some frames) 2 (some blank) 32 true
          ≡ done (Control.Codec.written 4 frames 2 blank, 8 + 2 * 4)))
    ⊎ ((¬ (Control.Codec.Accepted (some frames) 2 32))
        × (encode_control 4 (some frames) 2 (some blank) 32 true ≡ refused))
encode_control_cases_example =
    encode_control_cases 4 2 32 (some frames) blank
      (record { room = omega arith; given = λ h. omega arith })

decode_control-encode_control_example :
    (encode_control 4 (some frames) 2 (some blank) 32 true >>= receive_words 2)
    ≡ done (4, 8, frames)
decode_control-encode_control_example =
    decode_control-encode_control 4 32 frames blank (omega arith) (omega arith, (omega arith, tt))
      (omega arith) (omega arith) (omega arith)

-- A packet without words.
no_words : (encode_control 4 (some []) 0 (some blank) 32 true >>= receive_words 0) ≡ done (4, 0, [])
no_words =
    decode_control-encode_control 4 32 [] blank (omega arith) tt (omega arith) (omega arith)
      (omega arith)

-- A float as its 32 bits.
abbrev Bits32 : Type 0
Bits32 = (n : ℕ) × (n < 2 ^ 32)

bits_value : (x : Bits32) → ◌≡◌ {A = Bits32} (x.0 % 2 ^ 32, omega arith) x
bits_value x = Σ_prop_path (λ n. le_prop) (omega arith)

abbrev bit_floats : FloatBits
bit_floats = record {
  Float = Bits32;
  bits = λ x. x.0;
  value = λ n. (n % 2 ^ 32, omega arith);
  bits_fit = λ x. x.1;
  value-bits = bits_value;
}

abbrev pressed : PenFields bit_floats
pressed = record {
  event_type = 1;
  tool_type = 2;
  buttons = 0;
  tilt = 30;
  rotation = 400;
  x = (0x3f000000, omega arith);
  y = (0x3e800000, omega arith);
  pressure_or_distance = (0x3f800000, omega arith);
  contact_area_major = (0, omega arith);
  contact_area_minor = (0, omega arith);
  reserved = 0;
}
