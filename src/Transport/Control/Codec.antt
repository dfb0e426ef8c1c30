-- ===== src/Transport/Control/Codec.antt =====
-- What the control codec writes and accepts.
use teraguchi.Common.{
  All, Bool-cases, ◌≢◌, ℕ, zero, suc, ltb, ◌+◌, ◌*◌, ◌%◌, ◌^◌, ◌≤◌, ◌<◌, ◌≡◌, refl, ◌⊎◌, inl, inr,
  Bool, true, false, List, [], ◌∷◌, ◌++◌, none, some, arith, length, take, drop, ◌!=◌, ◌||◌, ◌&&◌,
  take-all, take_front, not,
}
use teraguchi.Common.Memory.{Outcome, done, refused, fault, is_null, ◌>>=◌, Pointer, bytes_of}
use teraguchi.Transport.Wire.{
  Fits, byte_at, write_u16, write_u32, read_u16, read_u32, join_u16_bytes, join_u32_bytes,
}
use teraguchi.Transport.Control.{encode_control, decode_control, magic, write_values}

abbrev header : ℕ → ℕ → List ℕ → List ℕ
header type size rest =
    0x50
    ∷ 0x4c
    ∷ 0x44
    ∷ 0x31
    ∷ byte_at type 8
    ∷ byte_at type 0
    ∷ byte_at size 8
    ∷ byte_at size 0
    ∷ rest

-- The words as bytes, the highest byte of each first.
abbrev pub big_endian : List ℕ → List ℕ
big_endian [] = []
big_endian (v ∷ vs) = byte_at v 24 ∷ byte_at v 16 ∷ byte_at v 8 ∷ byte_at v 0 ∷ big_endian vs

-- The arguments that a call accepts.
pub record Accepted (values : Pointer) (value_count capacity : ℕ) : Type 0 where
  pub few : value_count ≤ 3
  pub present : (value_count ≡ 0) ⊎ (is_null values ≡ false)
  pub enough : 8 + value_count * 4 ≤ capacity

abbrev pub written : ℕ → List ℕ → ℕ → List ℕ → List ℕ
written type values count output =
    header type (count * 4) (big_endian (take count values) ++ drop (count * 4) (drop 8 output))

given_values :
    (values : Pointer) (count capacity : ℕ) (output : List ℕ)
    → Fits values count output capacity
    → (count ≡ 0) ⊎ (is_null values ≡ false)
    → count ≤ length (bytes_of values)
given_values none count capacity output f a = ground arith
given_values (some words) count capacity output f a = f.given refl

-- The writes of a call that is not refused.
abbrev writes : ℕ → ℕ → List ℕ → List ℕ → Outcome (List ℕ × ℕ)
writes count type words output = do
  output ← write_u32 output 0 magic
  output ← write_u16 output 4 type
  output ← write_u16 output 6 (count * 4 % 2 ^ 16)
  output ← write_values count 0 words output
  done (output, 8 + count * 4)

writes_lem :
    (count type : ℕ) (words output : List ℕ)
    → count ≤ 3
    → count ≤ length words
    → 8 + count * 4 ≤ length output
    → writes count type words output ≡ done (written type words count output, 8 + count * 4)
unfolding write_u16 write_values
writes_lem zero type words (a ∷ b ∷ c ∷ d ∷ e ∷ f ∷ g ∷ h ∷ rest) le hw ho = refl
writes_lem (suc zero) type (u ∷ words) (a ∷ b ∷ c ∷ d ∷ e ∷ f ∷ g ∷ h ∷ i ∷ j ∷ k ∷ l ∷ rest) le hw
      ho =
    refl
writes_lem (suc (suc zero)) type (u ∷ v ∷ words)
      (a ∷ b ∷ c ∷ d ∷ e ∷ f ∷ g ∷ h ∷ i ∷ j ∷ k ∷ l ∷ m ∷ n ∷ o ∷ p ∷ rest) le hw ho =
    refl
writes_lem (suc (suc (suc zero))) type (u ∷ v ∷ w ∷ words)
      (a ∷ b ∷ c ∷ d ∷ e ∷ f ∷ g ∷ h ∷ i ∷ j ∷ k ∷ l ∷ m ∷ n ∷ o ∷ p ∷ q ∷ r ∷ s ∷ t ∷ rest) le hw
      ho =
    refl
writes_lem count type words output le hw ho = absurd (omega arith)

accepts :
    (values : Pointer) (count capacity : ℕ)
    → Accepted values count capacity
    → ((not true || ltb 3 count || count != 0 && is_null values) ≡ false)
      × (ltb capacity (8 + count * 4) ≡ false)
accepts values count capacity a = (ground arith, ground arith)

encode_control_lem :
    (type count capacity : ℕ) (values : Pointer) (output : List ℕ)
    → Fits values count output capacity
    → Accepted values count capacity
    → encode_control type values count (some output) capacity true
      ≡ done (written type (bytes_of values) count output, 8 + count * 4)
unfolding encode_control
encode_control_lem type count capacity values output fits a =
    let (ok, room) = accepts values count capacity a in
    let given = given_values values count capacity output fits a.present in
    rw (ok, room) (writes_lem count type (bytes_of values) output a.few given (omega arith))

refuses :
    (type count capacity : ℕ) (values : Pointer) (output : List ℕ)
    → (Accepted values count capacity)
      ⊎ ((¬ (Accepted values count capacity))
          × (encode_control type values count (some output) capacity true ≡ refused))
unfolding encode_control
refuses type count capacity values output =
    elim (Bool-cases (not true || ltb 3 count || count != 0 && is_null values)) [
      | inl e ↦ inr (λ a. cc ((accepts values count capacity a).0), rw e)
      | inr e ↦ elim (Bool-cases (ltb capacity (8 + count * 4))) [
        | inl r ↦ inr (λ a. cc ((accepts values count capacity a).1), rw (e, r))
        | inr r ↦ inl (record { few = ground arith; present = ground arith; enough = ground arith })
      ]
    ]

-- Where the buffers are as long as stated, a call writes the packet in front of an untouched rest of
-- the output, or it refuses; it accepts just the calls with at most three words, which are present
-- and fit with their header.
pub encode_control_cases :
    (type count capacity : ℕ) (values : Pointer) (output : List ℕ)
    → Fits values count output capacity
    → (Accepted values count capacity
        × (encode_control type values count (some output) capacity true
            ≡ done (written type (bytes_of values) count output, 8 + count * 4)))
      ⊎ ((¬ (Accepted values count capacity))
          × (encode_control type values count (some output) capacity true ≡ refused))
encode_control_cases type count capacity values output f =
    elim (refuses type count capacity values output) [
      | inl a ↦ inl (a, encode_control_lem type count capacity values output f a)
      | inr r ↦ inr r
    ]

decode_header :
    (type size : ℕ) (rest : List ℕ)
    → type < 2 ^ 16
    → size < 2 ^ 16
    → decode_control (some (header type size rest)) (8 + size) true
      ≡ done (record { type = type; payload = rest; payload_size = size })
unfolding decode_control read_u16 read_u32
decode_header type size rest ht hs =
    let enough : ltb (8 + size) 8 ≡ false = ground arith in
    let same : ((8 + size) != (8 + size)) ≡ false = ground arith in
    rw (enough, join_u16_bytes size hs, same, join_u16_bytes type ht)

length-big_endian : (vs : List ℕ) → length (big_endian vs) ≡ length vs * 4
length-big_endian [] = refl
length-big_endian (v ∷ vs) = omega (arith, length-big_endian vs)

-- The first `n` words of the payload.
pub read_words : ℕ → List ℕ → Outcome (List ℕ)
unfolding read_u32
read_words zero payload = done []
read_words (suc n) payload = do
  value ← read_u32 payload 0
  values ← read_words n (drop 4 payload)
  done (value ∷ values)

read_words-big_endian :
    (vs : List ℕ) → All (λ v. v < 2 ^ 32) vs → read_words (length vs) (big_endian vs) ≡ done vs
unfolding read_words
read_words-big_endian [] hv = refl
read_words-big_endian (v ∷ vs) hv = rw (join_u32_bytes v hv.0, read_words-big_endian vs hv.1) refl

-- What a receiver reads of a packet: its type, its payload's size, and its first `n` words.
abbrev pub receive_words : ℕ → List ℕ × ℕ → Outcome (ℕ × ℕ × List ℕ)
receive_words n (bytes, size) = do
  packet ← decode_control (some (take size bytes)) size true
  values ← read_words n packet.payload
  done (packet.type, packet.payload_size, values)

-- At most three words of 32 bits, or none, come out of `decode_control` as `encode_control` was given
-- them: from the packet's own bytes it finds the type, the size, and all the words.
pub decode_control-encode_control :
    (type capacity : ℕ) (values output : List ℕ)
    → type < 2 ^ 16
    → All (λ v. v < 2 ^ 32) values
    → length values ≤ 3
    → 8 + length values * 4 ≤ capacity
    → capacity ≤ length output
    → (encode_control type (some values) (length values) (some output) capacity true
        >>= receive_words (length values))
      ≡ done (type, length values * 4, values)
decode_control-encode_control type capacity values output ht hv hl hc ho =
    let count = length values in
    let size = count * 4 in
    let fits : Fits (some values) count output capacity = record {
      room = ho;
      given = λ _. omega arith;
    } in
    let acc : Accepted (some values) count capacity = record {
      few = hl;
      present = inr refl;
      enough = hc;
    } in
    let whole = take-all count values refl in
    let sent : take (8 + size) (header type size (big_endian values ++ drop size (drop 8 output)))
        ≡ header type size (big_endian values) =
      take_front (header type size []) (big_endian values) (drop size (drop 8 output)) (8 + size)
        (omega (arith, length-big_endian values)) in
    rw (
      encode_control_lem type count capacity (some values) output fits acc,
      whole,
      sent,
      decode_header type size (big_endian values) ht (omega arith),
      read_words-big_endian values hv,
    )

-- Where the packet has the stated size, `decode_control` reads no byte outside it.
decode_control-ne-fault :
    (packet : List ℕ) (wants_packet : Bool)
    → decode_control (some packet) (length packet) wants_packet ≢ fault
unfolding decode_control read_u16 read_u32
decode_control-ne-fault (a ∷ b ∷ c ∷ d ∷ e ∷ f ∷ g ∷ h ∷ rest) true = ground arith
decode_control-ne-fault packet wants_packet = ground arith
