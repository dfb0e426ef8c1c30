-- ===== src/Transport/Input.antt =====
-- protocol/plank-transport/include/plank_transport_input.h: the payloads of pointer and pen input.
-- A float is an element of an abstract type; the two memcpy between a float and its 32 bits are the
-- maps `bits` and `value`, which lose nothing.
pub mod Layout
use teraguchi.Common.{ℕ, ◌+◌, ◌^◌, ◌<◌, ◌≡◌, List}
use teraguchi.Common.Memory.{Outcome, done, ◌>>=◌, store}
use teraguchi.Transport.Wire.{write_u16, write_u32, read_u32}

pub record FloatBits : Type 1 where
  pub Float : Type 0
  pub bits : Float → ℕ
  pub value : ℕ → Float
  pub bits_fit : (x : Float) → bits x < 2 ^ 32
  pub value-bits : (x : Float) → value (bits x) ≡ x

pub encode_absolute_mouse : List ℕ → ℕ → ℕ → ℕ → ℕ → Outcome (List ℕ)
unfolding write_u16
encode_absolute_mouse output x y maximum_x maximum_y = do
  output ← write_u16 output 0 x
  output ← write_u16 output 2 y
  output ← write_u16 output 4 maximum_x
  write_u16 output 6 maximum_y

module _ (floats : FloatBits) where
  open floats use {Float, bits, value}

  unfoldable pub write_float : List ℕ → ℕ → Float → Outcome (List ℕ)
  unfolding write_u32
  write_float output at x = write_u32 output at (bits x)

  unfoldable pub read_float : List ℕ → ℕ → Outcome Float
  unfolding read_u32
  read_float input at = do pattern_bits ← read_u32 input at; done (value pattern_bits)

  pub encode_pen :
      List ℕ → ℕ → ℕ → ℕ → ℕ → ℕ → Float → Float → Float → Float → Float → Outcome (List ℕ)
  unfolding store write_u16 write_float
  encode_pen output event_type tool_type buttons tilt rotation x y pressure_or_distance
        contact_area_major contact_area_minor =
      do
        output ← store output 0 event_type
        output ← store output 1 tool_type
        output ← store output 2 buttons
        output ← store output 3 tilt
        output ← write_u16 output 4 rotation
        output ← store output 6 0
        output ← store output 7 0
        output ← write_float output 8 x
        output ← write_float output 12 y
        output ← write_float output 16 pressure_or_distance
        output ← write_float output 20 contact_area_major
        output ← write_float output 24 contact_area_minor
        write_u32 output 28 0
