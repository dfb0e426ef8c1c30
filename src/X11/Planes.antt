-- ===== src/X11/Planes.antt =====
-- The loops that unpack the rows of an image into its planes. The image is memory read in
-- words of 32 bits, a plane is memory of words of 16 bits; both are functions of the offset. The loops
-- over rows and columns run on the number of rounds left. A worker runs to its end before the next.
use teraguchi.X11.Channels.{Channel, unpack_code}
use teraguchi.Common.{
  List, [], ◌∷◌, ℕ, zero, suc, ◌+◌, ◌-◌, ◌*◌, ◌/◌, ◌%◌, ◌^◌, ◌==◌, if◌then◌else◌,
}

pub record Channels : Type 0 where
  pub red : Channel
  pub green : Channel
  pub blue : Channel

pub record Planes : Type 0 where
  pub red : ℕ → ℕ
  pub green : ℕ → ℕ
  pub blue : ℕ → ℕ

unfoldable pub put : (ℕ → ℕ) → ℕ → ℕ → ℕ → ℕ
put plane offset v i = if i == offset then v else plane i

-- The `n` workers from `index`, each with its first row and the row behind its last one.
unfoldable pub make_workers : ℕ → ℕ → ℕ → ℕ → List (ℕ × ℕ)
make_workers height thread_count zero index = []
make_workers height thread_count (suc n) index =
    (height * index / thread_count, height * (index + 1) / thread_count)
    ∷ make_workers height thread_count n (suc index)

module _ (channels : Channels) (source : ℕ → ℕ) (width row_pitch : ℕ) where
  unfoldable pub unpack_pixel : Planes → ℕ → ℕ → Planes
  unpack_pixel planes offset pixel = record {
    red = put planes.red offset (unpack_code channels.red pixel % 2 ^ 16);
    green = put planes.green offset (unpack_code channels.green pixel % 2 ^ 16);
    blue = put planes.blue offset (unpack_code channels.blue pixel % 2 ^ 16);
  }

  -- The columns from `x` of the row `y`.
  unfoldable pub unpack_columns : ℕ → ℕ → ℕ → Planes → Planes
  unpack_columns zero x y planes = planes
  unpack_columns (suc n) x y planes =
      unpack_columns n (suc x) y
        (unpack_pixel planes (y * width + x) (source (y * row_pitch + x * 4)))

  -- The rows from `y`.
  unfoldable pub unpack_from : ℕ → ℕ → Planes → Planes
  unpack_from zero y planes = planes
  unpack_from (suc n) y planes = unpack_from n (suc y) (unpack_columns width 0 y planes)

  unfoldable pub unpack_identity_rows : ℕ → ℕ → Planes → Planes
  unpack_identity_rows first_row end_row planes = unpack_from (end_row - first_row) first_row planes

  unfoldable pub unpack_identity_single : ℕ → Planes → Planes
  unpack_identity_single height planes = unpack_identity_rows 0 height planes

  unfoldable pub run_workers : List (ℕ × ℕ) → Planes → Planes
  run_workers [] planes = planes
  run_workers ((first_row, end_row) ∷ workers) planes =
      run_workers workers (unpack_identity_rows first_row end_row planes)

  unfoldable pub unpack_identity_parallel : ℕ → ℕ → Planes → Planes
  unpack_identity_parallel height thread_count planes =
      run_workers (make_workers height thread_count thread_count 0) planes
