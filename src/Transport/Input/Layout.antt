-- ===== src/Transport/Input/Layout.antt =====
-- The payloads read back field by field.
use teraguchi.Common.{ℕ, ◌^◌, ◌≤◌, ◌<◌, ◌≡◌, ap, sym, List, ◌∷◌, length, arith}
use teraguchi.Common.Memory.{Outcome, done, ◌>>=◌, load}
use teraguchi.Transport.Wire.{read_u16, read_u32, join_u32, join_u16_bytes, join_u32_bytes, byte_at}
use teraguchi.Transport.Input.{FloatBits, encode_absolute_mouse, read_float, encode_pen}

pub record MouseFields : Type 0 where
  pub x : ℕ
  pub y : ℕ
  pub maximum_x : ℕ
  pub maximum_y : ℕ

abbrev pub read_mouse : List ℕ → Outcome MouseFields
read_mouse input = do
  x ← read_u16 input 0
  y ← read_u16 input 2
  maximum_x ← read_u16 input 4
  maximum_y ← read_u16 input 6
  done (record { x = x; y = y; maximum_x = maximum_x; maximum_y = maximum_y })

-- The four coordinates of 16 bits stand at the offsets 0, 2, 4 and 6 of any buffer of 8 bytes.
pub read_mouse-encode_absolute_mouse :
    (output : List ℕ) (x y maximum_x maximum_y : ℕ)
    → 8 ≤ length output
    → x < 2 ^ 16
    → y < 2 ^ 16
    → maximum_x < 2 ^ 16
    → maximum_y < 2 ^ 16
    → (encode_absolute_mouse output x y maximum_x maximum_y >>= read_mouse)
      ≡ done (record { x = x; y = y; maximum_x = maximum_x; maximum_y = maximum_y })
unfolding encode_absolute_mouse read_u16
read_mouse-encode_absolute_mouse (a ∷ b ∷ c ∷ d ∷ e ∷ f ∷ g ∷ h ∷ rest) x y mx my ho hx hy hmx hmy =
    rw (join_u16_bytes x hx, join_u16_bytes y hy, join_u16_bytes mx hmx, join_u16_bytes my hmy)
read_mouse-encode_absolute_mouse output x y mx my ho hx hy hmx hmy = absurd (omega arith)

module _ (floats : FloatBits) where
  open floats use {Float, bits, value, bits_fit, value-bits}

  pub record PenFields : Type 0 where
    pub event_type : ℕ
    pub tool_type : ℕ
    pub buttons : ℕ
    pub tilt : ℕ
    pub rotation : ℕ
    pub x : Float
    pub y : Float
    pub pressure_or_distance : Float
    pub contact_area_major : Float
    pub contact_area_minor : Float
    pub reserved : ℕ

  abbrev pub read_pen : List ℕ → Outcome PenFields
  read_pen input = do
    event_type ← load input 0
    tool_type ← load input 1
    buttons ← load input 2
    tilt ← load input 3
    rotation ← read_u16 input 4
    x ← read_float floats input 8
    y ← read_float floats input 12
    pressure_or_distance ← read_float floats input 16
    contact_area_major ← read_float floats input 20
    contact_area_minor ← read_float floats input 24
    reserved ← read_u32 input 28
    done (record {
      event_type = event_type;
      tool_type = tool_type;
      buttons = buttons;
      tilt = tilt;
      rotation = rotation;
      x = x;
      y = y;
      pressure_or_distance = pressure_or_distance;
      contact_area_major = contact_area_major;
      contact_area_minor = contact_area_minor;
      reserved = reserved;
    })

  float_bytes :
      (x : Float)
      → value (
          join_u32
            (byte_at (bits x) 24)
            (byte_at (bits x) 16)
            (byte_at (bits x) 8)
            (byte_at (bits x) 0))
        ≡ x
  float_bytes x = rw (join_u32_bytes (bits x) (bits_fit x)) (value-bits x)

  -- A pen payload of 32 bytes reads back as the fields that it was made of, with 0 in the last
  -- word, which is reserved.
  read_pen-encode_pen :
      (output : List ℕ) (f : PenFields)
      → 32 ≤ length output
      → f.rotation < 2 ^ 16
      → f.reserved ≡ 0
      → (encode_pen floats output f.event_type f.tool_type f.buttons f.tilt f.rotation f.x f.y
            f.pressure_or_distance f.contact_area_major f.contact_area_minor
          >>= read_pen)
        ≡ done f
  unfolding encode_pen read_u16 read_float
  read_pen-encode_pen
        (b0 ∷ b1 ∷ b2 ∷ b3 ∷ b4 ∷ b5 ∷ b6 ∷ b7 ∷ b8 ∷ b9 ∷ b10 ∷ b11 ∷ b12 ∷ b13 ∷ b14 ∷ b15 ∷ b16
          ∷ b17 ∷ b18 ∷ b19 ∷ b20 ∷ b21 ∷ b22 ∷ b23 ∷ b24 ∷ b25 ∷ b26 ∷ b27 ∷ b28 ∷ b29 ∷ b30 ∷ b31
          ∷ rest)
        f ho hr hz =
      rw
        (
          join_u16_bytes f.rotation hr,
          float_bytes f.x,
          float_bytes f.y,
          float_bytes f.pressure_or_distance,
          float_bytes f.contact_area_major,
          float_bytes f.contact_area_minor,
        )
        (ap (λ r. done (record f { reserved = r })) (sym hz))
  read_pen-encode_pen output f ho hr hz = absurd (omega arith)
