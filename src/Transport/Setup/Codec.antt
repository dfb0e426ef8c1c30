-- ===== src/Transport/Setup/Codec.antt =====
-- What the setup codec writes and accepts.
use teraguchi.Common.{
  IsByte, All, Bool-cases, ◌≢◌, ℕ, ltb, ◌+◌, ◌*◌, ◌/◌, ◌%◌, ◌^◌, ◌≤◌, ◌<◌, ◌≡◌, refl, ◌∙◌, ◌⊎◌, inl,
  inr, Bool, true, false, List, [], ◌∷◌, ◌++◌, append-nil, none, some, arith, length, take, drop,
  ◌!=◌, ◌==◌, ◌||◌, length-drop, drop-all, take-all, take_front,
}
use teraguchi.Common.Bits.{bit_and_step, bit_and_low}
use teraguchi.Common.Memory.{done, refused, fault, is_null, ◌>>=◌, Pointer, bytes_of, copy_payload}
use teraguchi.Transport.Wire.{
  Fits, byte_at, write_u16, write_u32, read_u16, join_u16, join_u32, join_u32_sum, join_u16_fields,
  read_u32, join_u16_bytes, join_u32_bytes, join_u32_fields,
}
use teraguchi.Transport.Setup.{
  encode_setup_refuses, Packet, encode_setup, decode_setup, magic, unknown_flags, max_payload_size,
}

abbrev header : ℕ → ℕ → ℕ → ℕ → ℕ → List ℕ → List ℕ
header type flags status id size rest =
    0x50
    ∷ 0x4c
    ∷ 0x53
    ∷ 0x31
    ∷ 0
    ∷ 1
    ∷ byte_at type 8
    ∷ byte_at type 0
    ∷ byte_at flags 8
    ∷ byte_at flags 0
    ∷ byte_at status 8
    ∷ byte_at status 0
    ∷ byte_at id 24
    ∷ byte_at id 16
    ∷ byte_at id 8
    ∷ byte_at id 0
    ∷ byte_at size 24
    ∷ byte_at size 16
    ∷ byte_at size 8
    ∷ byte_at size 0
    ∷ rest

-- The two known flags are the two lowest bits.
unknown_flags_lem : (flags : ℕ) → flags < 2 ^ 16 → unknown_flags flags ≡ flags / 4 * 4
unfolding unknown_flags
unknown_flags_lem flags h = omega (
  arith,
  bit_and_step flags 0xfffffffc,
  bit_and_step (flags / 2) 0x7ffffffe,
  bit_and_low 30 (flags / 2 / 2),
)

-- The arguments that a call accepts.
pub record Accepted (type flags request_id : ℕ) (payload : Pointer) (payload_size capacity : ℕ)
    : Type 0 where
  pub typed : type ≢ 0
  pub identified : request_id ≢ 0
  pub known : flags < 4
  pub present : (payload_size ≡ 0) ⊎ (is_null payload ≡ false)
  pub small : payload_size ≤ max_payload_size
  pub enough : 20 + payload_size ≤ capacity

-- The output buffer after a call: the packet, and what stood behind it.
abbrev pub written : ℕ → ℕ → ℕ → ℕ → List ℕ → ℕ → List ℕ → List ℕ
written type flags status id payload size output =
    header type flags status id size (take size payload ++ drop size (drop 20 output))

given_bytes :
    (payload : Pointer) (size capacity : ℕ) (output : List ℕ)
    → Fits payload size output capacity
    → (size ≡ 0) ⊎ (is_null payload ≡ false)
    → size ≤ length (bytes_of payload)
given_bytes none size capacity output f a = ground arith
given_bytes (some bytes) size capacity output f a = f.given refl

accepts :
    (type flags id : ℕ) (payload : Pointer) (size capacity : ℕ)
    → Accepted type flags id payload size capacity
    → encode_setup_refuses type flags id payload size capacity true ≡ false
unfolding encode_setup_refuses
accepts type flags id payload size capacity a = ground (arith, unknown_flags_lem flags)

refuses :
    (type flags id : ℕ) (payload : Pointer) (size capacity : ℕ)
    → flags < 2 ^ 16
    → (Accepted type flags id payload size capacity)
      ⊎ ((¬ (Accepted type flags id payload size capacity))
          × (encode_setup_refuses type flags id payload size capacity true ≡ true))
unfolding encode_setup_refuses
refuses type flags id payload size capacity hf =
    elim (Bool-cases (encode_setup_refuses type flags id payload size capacity true)) [
      | inl e ↦ inr (λ a. cc (accepts type flags id payload size capacity a), e)
      | inr e ↦ inl (record {
        typed = ground arith;
        identified = ground arith;
        known = ground (arith, unknown_flags_lem flags);
        present = ground arith;
        small = ground arith;
        enough = ground arith;
      })
    ]

encode_setup_lem :
    (type flags status id size capacity : ℕ) (payload : Pointer) (output : List ℕ)
    → Fits payload size output capacity
    → Accepted type flags id payload size capacity
    → encode_setup type flags status id payload size (some output) capacity true
      ≡ done (written type flags status id (bytes_of payload) size output, 20 + size)
unfolding encode_setup write_u16 write_u32
encode_setup_lem type flags status id size capacity payload
      (a ∷ b ∷ c ∷ d ∷ e ∷ f ∷ g ∷ h ∷ i ∷ j ∷ k ∷ l ∷ m ∷ n ∷ o ∷ p ∷ q ∷ r ∷ s ∷ t ∷ rest) fits
      acc =
    let wraps : (20 + size) % 2 ^ 64 ≡ 20 + size = omega arith in
    let narrow : size % 2 ^ 32 ≡ size = omega arith in
    let given = given_bytes payload size capacity _ fits acc.present in
    rw (
      accepts type flags id payload size capacity acc,
      narrow,
      copy_payload (header type flags status id size []) rest (bytes_of payload) size given
          (omega arith),
      wraps,
    )
encode_setup_lem type flags status id size capacity payload _ fits acc = absurd (omega arith)

-- Where the buffers are as long as stated, a call writes the packet in front of an untouched rest of
-- the output, or it refuses; it accepts just a type and a request id other than 0, the two known
-- flags, and a payload of at most 65516 bytes that is present and fits with its header.
pub encode_setup_cases :
    (type flags status id size capacity : ℕ) (payload : Pointer) (output : List ℕ)
    → flags < 2 ^ 16
    → Fits payload size output capacity
    → (Accepted type flags id payload size capacity
        × (encode_setup type flags status id payload size (some output) capacity true
            ≡ done (written type flags status id (bytes_of payload) size output, 20 + size)))
      ⊎ ((¬ (Accepted type flags id payload size capacity))
          × (encode_setup type flags status id payload size (some output) capacity true ≡ refused))
unfolding encode_setup
encode_setup_cases type flags status id size capacity payload output hf f =
    elim (refuses type flags id payload size capacity hf) [
      | inl a ↦ inl (a, encode_setup_lem type flags status id size capacity payload output f a)
      | inr (n, e) ↦ inr (n, rw (e, encode_setup))
    ]

decode_setup-header :
    (type flags status id size : ℕ) (rest : List ℕ)
    → type < 2 ^ 16
    → status < 2 ^ 16
    → id < 2 ^ 32
    → type ≢ 0
    → id ≢ 0
    → flags < 4
    → size ≤ max_payload_size
    → decode_setup (some (header type flags status id size rest)) (20 + size) true
      ≡ done (record {
        type = type;
        flags = flags;
        status = status;
        request_id = id;
        payload = rest;
        payload_size = size;
      })
unfolding decode_setup read_u16 read_u32
decode_setup-header type flags status id size rest ht hs hi nt ni hf hz =
    let enough : (ltb (20 + size) 20 || ltb 65536 (20 + size)) ≡ false = ground arith in
    let typed : (type == 0) ≡ false = ground arith in
    let identified : (id == 0) ≡ false = ground arith in
    let known : (unknown_flags flags != 0) ≡ false = ground (arith, unknown_flags_lem flags) in
    let same : (ltb max_payload_size size || (20 + size) != (20 + size) % 2 ^ 32) ≡ false =
      ground arith in
    rw (
      enough,
      join_u16_bytes type ht,
      typed,
      join_u32_bytes id hi,
      identified,
      join_u16_bytes flags (omega arith),
      known,
      join_u32_bytes size (omega arith),
      same,
      join_u16_bytes status hs,
    )

-- What `encode_setup` accepts is decoded to the same type, flags, status, request id and payload from the
-- packet's own bytes, in any output buffer with room for it.
pub decode_setup-encode_setup :
    (type flags status id capacity : ℕ) (payload output : List ℕ)
    → type < 2 ^ 16
    → status < 2 ^ 16
    → id < 2 ^ 32
    → Accepted type flags id (some payload) (length payload) capacity
    → capacity ≤ length output
    → (encode_setup type flags status id (some payload) (length payload) (some output) capacity true
        >>= λ sent. decode_setup (some (take sent.1 sent.0)) sent.1 true)
      ≡ done (record {
        type = type;
        flags = flags;
        status = status;
        request_id = id;
        payload = payload;
        payload_size = length payload;
      })
decode_setup-encode_setup type flags status id capacity payload output ht hs hi acc ho =
    let size = length payload in
    let fits : Fits (some payload) size output capacity = record {
      room = ho;
      given = λ _. omega arith;
    } in
    let whole = take-all size payload refl in
    let sent : take (20 + size)
          (header type flags status id size (payload ++ drop size (drop 20 output)))
        ≡ header type flags status id size payload =
      take_front (header type flags status id size []) payload (drop size (drop 20 output))
        (20 + size) (omega arith) in
    rw
      (
        encode_setup_lem type flags status id size capacity (some payload) output fits acc,
        whole,
        sent,
      )
      (decode_setup-header type flags status id size payload ht hs hi acc.typed acc.identified
        acc.known acc.small)

-- Where the packet has the stated size, `decode_setup` reads no byte outside it.
pub decode_setup-ne-fault :
    (packet : List ℕ) (wants_packet : Bool)
    → decode_setup (some packet) (length packet) wants_packet ≢ fault
unfolding decode_setup read_u16 read_u32
decode_setup-ne-fault
      (a ∷ b ∷ c ∷ d ∷ e ∷ f ∷ g ∷ h ∷ i ∷ j ∷ k ∷ l ∷ m ∷ n ∷ o ∷ p ∷ q ∷ r ∷ s ∷ t ∷ rest) true =
    ground arith
decode_setup-ne-fault packet wants_packet = ground arith

-- What a successful `decode_setup` has checked, by the packet's bytes.
decode_setup_done :
    (a b c d e f g h i j k l m n o p q r s t : ℕ) (rest : List ℕ) (u : Packet)
    → decode_setup
        (some
          (a ∷ b ∷ c ∷ d ∷ e ∷ f ∷ g ∷ h ∷ i ∷ j ∷ k ∷ l ∷ m ∷ n ∷ o ∷ p ∷ q ∷ r ∷ s ∷ t ∷ rest))
        (20 + length rest)
        true
      ≡ done u
    → (join_u32 a b c d ≡ magic)
      × (join_u16 e f ≡ 1)
      × (join_u16 g h ≢ 0)
      × (join_u32 m n o p ≢ 0)
      × (unknown_flags (join_u16 i j) ≡ 0)
      × (join_u32 q r s t ≤ max_payload_size)
      × (length rest ≡ join_u32 q r s t)
      × (u ≡ record {
        type = join_u16 g h;
        flags = join_u16 i j;
        status = join_u16 k l;
        request_id = join_u32 m n o p;
        payload = rest;
        payload_size = join_u32 q r s t;
      })
unfolding decode_setup read_u16 read_u32
decode_setup_done a b c d e f g h i j k l m n o p q r s t rest u eq = ground arith

magic_bytes :
    (a b c d : ℕ)
    → a < 256
    → b < 256
    → c < 256
    → d < 256
    → join_u32 a b c d ≡ magic
    → (a ≡ 0x50) × (b ≡ 0x4c) × (c ≡ 0x53) × (d ≡ 0x31)
magic_bytes a b c d ha hb hc hd e = omega (arith, join_u32_sum a b c d hb hc hd)

version_bytes : (a b : ℕ) → a < 256 → b < 256 → join_u16 a b ≡ 1 → (a ≡ 0) × (b ≡ 1)
version_bytes a b ha hb e = omega (arith, join_u16_fields a b ha hb)

-- `decode_setup` accepts only what `encode_setup` writes: coding the decoded packet again gives the same bytes.
pub encode_setup-decode_setup :
    (packet output : List ℕ) (u : Packet)
    → All IsByte packet
    → length output ≡ length packet
    → decode_setup (some packet) (length packet) true ≡ done u
    → encode_setup u.type u.flags u.status u.request_id
        (some u.payload)
        u.payload_size
        (some output)
        (length packet)
        true
      ≡ done (packet, length packet)
unfolding decode_setup
encode_setup-decode_setup
      (a ∷ b ∷ c ∷ d ∷ e ∷ f ∷ g ∷ h ∷ i ∷ j ∷ k ∷ l ∷ m ∷ n ∷ o ∷ p ∷ q ∷ r ∷ s ∷ t ∷ rest) output
      u
      (
        ha,
        (
          hb,
          (
            hc,
            (
              hd,
              (
                he,
                (
                  hf,
                  (
                    hg,
                    (hh, (hi, (hj, (hk, (hl, (hm, (hn, (ho, (hp, (hq, (hr, (hs, (ht, _))))))))))))),
                  ),
                ),
              ),
            ),
          ),
        ),
      )
      same eq =
    let packet =
      a ∷ b ∷ c ∷ d ∷ e ∷ f ∷ g ∷ h ∷ i ∷ j ∷ k ∷ l ∷ m ∷ n ∷ o ∷ p ∷ q ∷ r ∷ s ∷ t ∷ rest in
    let size = join_u32 q r s t in
    let n_eq : length packet ≡ 20 + length rest = omega arith in
    let (mg, vs, ty, id, fl, sm, le, is) =
      decode_setup_done a b c d e f g h i j k l m n o p q r s t rest u (rw n_eq at eq) in
    let (ea, eb, ec, ed) = magic_bytes a b c d ha hb hc hd mg in
    let (ee, ef) = version_bytes e f he hf vs in
    let (eg, eh, _) = join_u16_fields g h hg hh in
    let (ei, ej, flags_small) = join_u16_fields i j hi hj in
    let (ek, el, _) = join_u16_fields k l hk hl in
    let (em, en, eo, ep, _) = join_u32_fields m n o p hm hn ho hp in
    let (eq, er, es, et, _) = join_u32_fields q r s t hq hr hs ht in
    let fits : Fits (some rest) size output (length packet) = record {
      room = omega arith;
      given = λ _. omega arith;
    } in
    let known : join_u16 i j < 4 = omega (arith, unknown_flags_lem (join_u16 i j) flags_small) in
    let acc : Accepted (join_u16 g h) (join_u16 i j) (join_u32 m n o p) (some rest) size
        (length packet) =
      record {
        typed = ty;
        identified = id;
        known = known;
        present = inr refl;
        small = sm;
        enough = omega arith;
      } in
    let whole = take-all size rest (omega arith) in
    let gone = drop-all size (drop 20 output) (omega (arith, length-drop 20 output)) in
    rw is (
      encode_setup_lem _ _ _ _ size (length packet) (some rest) output fits acc
      ∙ rw (whole, gone, append-nil rest) (ground arith))
encode_setup-decode_setup _ output p bytes ho eq = cc
