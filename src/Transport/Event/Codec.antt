-- ===== src/Transport/Event/Codec.antt =====
-- What the event codec writes and accepts.
use teraguchi.Common.{
  IsByte, All, Bool-cases, ◌≢◌, ℕ, ltb, ◌+◌, ◌%◌, ◌^◌, ◌≤◌, ◌<◌, ◌≡◌, refl, ◌∙◌, ◌⊎◌, inl, inr,
  Bool, true, false, List, [], ◌∷◌, ◌++◌, append-nil, none, some, arith, length, take, drop, ◌!=◌,
  length-drop, drop-all, take-all, take_front,
}
use teraguchi.Common.Memory.{done, refused, fault, is_null, ◌>>=◌, Pointer, bytes_of, copy_payload}
use teraguchi.Transport.Wire.{
  Fits, byte_at, write_u16, write_u32, read_u16, join_u16, join_u32, join_u32_sum, join_u16_fields,
  read_u32, join_u16_bytes,
}
use teraguchi.Transport.Event.{encode_event_refuses, Packet, encode_event, decode_event, magic}

abbrev header : ℕ → ℕ → List ℕ → List ℕ
header type size rest =
    0x50
    ∷ 0x4c
    ∷ 0x45
    ∷ 0x31
    ∷ byte_at type 8
    ∷ byte_at type 0
    ∷ byte_at size 8
    ∷ byte_at size 0
    ∷ rest

-- The arguments that a call accepts.
pub record Accepted (payload : Pointer) (payload_size capacity : ℕ) : Type 0 where
  pub present : (payload_size ≡ 0) ⊎ (is_null payload ≡ false)
  pub small : payload_size ≤ 65535
  pub enough : 8 + payload_size ≤ capacity

abbrev pub packet_bytes : ℕ → List ℕ → List ℕ
packet_bytes type payload = header type (length payload) payload

-- The output buffer after a call: the packet, and what stood behind it.
abbrev pub written : ℕ → List ℕ → ℕ → List ℕ → List ℕ
written type payload size output = header type size (take size payload ++ drop size (drop 8 output))

given_bytes :
    (payload : Pointer) (size capacity : ℕ) (output : List ℕ)
    → Fits payload size output capacity
    → Accepted payload size capacity
    → size ≤ length (bytes_of payload)
given_bytes none size capacity output f a = ground arith
given_bytes (some bytes) size capacity output f a = f.given refl

accepts :
    (payload : Pointer) (size capacity : ℕ)
    → Accepted payload size capacity
    → encode_event_refuses payload size capacity true ≡ false
unfolding encode_event_refuses
accepts payload size capacity a = ground arith

refuses :
    (payload : Pointer) (size capacity : ℕ)
    → (Accepted payload size capacity)
      ⊎ ((¬ (Accepted payload size capacity))
          × (encode_event_refuses payload size capacity true ≡ true))
unfolding encode_event_refuses
refuses payload size capacity =
    elim (Bool-cases (encode_event_refuses payload size capacity true)) [
      | inl e ↦ inr (λ a. cc (accepts payload size capacity a), e)
      | inr e ↦
          let fits : ltb 65535 size ≡ false = ground arith in
          inl (record { present = ground arith; small = ground arith; enough = ground arith })
    ]

encode_event_lem :
    (type size capacity : ℕ) (payload : Pointer) (output : List ℕ)
    → Fits payload size output capacity
    → Accepted payload size capacity
    → encode_event type payload size (some output) capacity true
      ≡ done (written type (bytes_of payload) size output, 8 + size)
unfolding encode_event write_u16 write_u32
encode_event_lem type size capacity payload (a ∷ b ∷ c ∷ d ∷ e ∷ f ∷ g ∷ h ∷ rest) fits acc =
    let wraps : (8 + size) % 2 ^ 64 ≡ 8 + size = omega arith in
    let narrow : size % 2 ^ 16 ≡ size = omega arith in
    let given = given_bytes payload size capacity _ fits acc in
    rw (
      accepts payload size capacity acc,
      narrow,
      copy_payload (header type size []) rest (bytes_of payload) size given (omega arith),
      wraps,
    )
encode_event_lem type size capacity payload _ fits acc = absurd (omega arith)

decode_event-header :
    (type size : ℕ) (rest : List ℕ)
    → type < 2 ^ 16
    → size < 2 ^ 16
    → decode_event (some (header type size rest)) (8 + size) true
      ≡ done (record { type = type; payload = rest; payload_size = size })
unfolding decode_event read_u16 read_u32
decode_event-header type size rest ht hs =
    let enough : ltb (8 + size) 8 ≡ false = ground arith in
    let same : ((8 + size) != (8 + size)) ≡ false = ground arith in
    rw (enough, join_u16_bytes size hs, same, join_u16_bytes type ht)

-- Where the buffers are as long as stated, a call writes the packet in front of an untouched rest of
-- the output, or it refuses; it accepts just the payloads of at most 65535 bytes that are present
-- and fit with their header. It never leaves a buffer.
encode_event_cases :
    (type size capacity : ℕ) (payload : Pointer) (output : List ℕ)
    → Fits payload size output capacity
    → (Accepted payload size capacity
        × (encode_event type payload size (some output) capacity true
            ≡ done (written type (bytes_of payload) size output, 8 + size)))
      ⊎ ((¬ (Accepted payload size capacity))
          × (encode_event type payload size (some output) capacity true ≡ refused))
unfolding encode_event
encode_event_cases type size capacity payload output f = elim (refuses payload size capacity) [
  | inl a ↦ inl (a, encode_event_lem type size capacity payload output f a)
  | inr (n, e) ↦ inr (n, rw (e, encode_event))
]

-- What `encode_event` makes of a payload of at most 65535 bytes is decoded to the same type and payload
-- from the packet's own bytes, in any output buffer with room for it.
pub decode_event-encode_event :
    (type capacity : ℕ) (payload output : List ℕ)
    → type < 2 ^ 16
    → length payload ≤ 65535
    → 8 + length payload ≤ capacity
    → capacity ≤ length output
    → (encode_event type (some payload) (length payload) (some output) capacity true >>= λ sent.
        decode_event (some (take sent.1 sent.0)) sent.1 true)
      ≡ done (record { type = type; payload = payload; payload_size = length payload })
decode_event-encode_event type capacity payload output ht hp hc ho =
    let fits : Fits (some payload) (length payload) output capacity = record {
      room = ho;
      given = λ _. omega arith;
    } in
    let acc : Accepted (some payload) (length payload) capacity = record {
      present = inr refl;
      small = hp;
      enough = hc;
    } in
    let size = length payload in
    let whole = take-all size payload refl in
    let sent : take (8 + size) (header type size (payload ++ drop size (drop 8 output)))
        ≡ header type size payload =
      take_front (header type size []) payload (drop size (drop 8 output)) (8 + size)
        (omega arith) in
    rw (encode_event_lem type size capacity (some payload) output fits acc, whole, sent)
      (decode_event-header type (length payload) payload ht (omega arith))

-- Where the packet has the stated size, `decode_event` reads no byte outside it.
decode_event-ne-fault :
    (packet : List ℕ) (wants_packet : Bool)
    → decode_event (some packet) (length packet) wants_packet ≢ fault
unfolding decode_event read_u16 read_u32
decode_event-ne-fault (a ∷ b ∷ c ∷ d ∷ e ∷ f ∷ g ∷ h ∷ rest) true = ground arith
decode_event-ne-fault packet wants_packet = ground arith

decode_event_done :
    (a b c d e f g h : ℕ) (rest : List ℕ) (p : Packet)
    → decode_event (some (a ∷ b ∷ c ∷ d ∷ e ∷ f ∷ g ∷ h ∷ rest)) (8 + length rest) true ≡ done p
    → (join_u32 a b c d ≡ magic)
      × (length rest ≡ join_u16 g h)
      × (p ≡ record { type = join_u16 e f; payload = rest; payload_size = join_u16 g h })
unfolding decode_event read_u16 read_u32
decode_event_done a b c d e f g h rest p hd = ground arith

magic_bytes :
    (a b c d : ℕ)
    → a < 256
    → b < 256
    → c < 256
    → d < 256
    → join_u32 a b c d ≡ magic
    → (a ≡ 0x50) × (b ≡ 0x4c) × (c ≡ 0x45) × (d ≡ 0x31)
magic_bytes a b c d ha hb hc hd e = omega (arith, join_u32_sum a b c d hb hc hd)

-- `decode_event` accepts only what `encode_event` writes: coding the decoded packet again gives the same bytes.
pub encode_event-decode_event :
    (packet output : List ℕ) (d : Packet)
    → All IsByte packet
    → length output ≡ length packet
    → decode_event (some packet) (length packet) true ≡ done d
    → encode_event d.type (some d.payload) d.payload_size (some output) (length packet) true
      ≡ done (packet, length packet)
unfolding decode_event
encode_event-decode_event (a ∷ b ∷ c ∷ d ∷ e ∷ f ∷ g ∷ h ∷ rest) output p
      (ha, (hb, (hc, (hd, (he, (hf, (hg, (hh, hr)))))))) ho eq =
    let (m, l, is) = decode_event_done a b c d e f g h rest p (rw length_eq at eq) in
    let (ea, eb, ec, ed) = magic_bytes a b c d ha hb hc hd m in
    let (te, tf, tb) = join_u16_fields e f he hf in
    let (sg, sh, sb) = join_u16_fields g h hg hh in
    let type = join_u16 e f in
    let size = join_u16 g h in
    let n = length (a ∷ b ∷ c ∷ d ∷ e ∷ f ∷ g ∷ h ∷ rest) in
    let fits : Fits (some rest) size output n = record {
      room = omega arith;
      given = λ _. omega arith;
    } in
    let acc : Accepted (some rest) size n = record {
      present = inr refl;
      small = omega arith;
      enough = omega arith;
    } in
    let whole = take-all size rest l in
    let gone = drop-all size (drop 8 output) (omega (arith, length-drop 8 output)) in
    rw is (
      encode_event_lem type size n (some rest) output fits acc
      ∙ rw (whole, gone, append-nil rest) (ground arith))
  where
    length_eq : length (a ∷ b ∷ c ∷ d ∷ e ∷ f ∷ g ∷ h ∷ rest) ≡ 8 + length rest
    length_eq = omega arith
encode_event-decode_event _ output p bytes ho eq = cc
