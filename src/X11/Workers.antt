-- ===== src/X11/Workers.antt =====
-- The workers' rows, one after the other, are all the rows.
use teraguchi.Common.{
  List, [], ◌∷◌, ◌++◌, append-nil, append_assoc, ℕ, zero, suc, ◌+◌, ◌-◌, ◌*◌, ◌/◌, ◌≤◌, ◌<◌, ◌≡◌,
  sym, ap, ◌∙◌, arith,
}
use native.Mathlib.Nat.{le-div_iff_mul-le, div-mul-le_self, mul-div_cancel, zero-div}
use teraguchi.X11.Planes.{
  Channels, Planes, unpack_from, unpack_identity_rows, unpack_identity_single, make_workers,
  run_workers, unpack_identity_parallel,
}

div_mono : (a b n : ℕ) → 0 < n → a ≤ b → a / n ≤ b / n
div_mono a b n pos le = (le-div_iff_mul-le pos).1 (omega (arith, div-mul-le_self a n))

-- The rows from one on, up to another.
abbrev rows_from : ℕ → ℕ → List ℕ
rows_from zero y = []
rows_from (suc n) y = y ∷ rows_from n (suc y)

abbrev pub rows : ℕ → ℕ → List ℕ
rows first_row end_row = rows_from (end_row - first_row) first_row

-- The rows of the workers, one after the other.
abbrev pub rows_of : List (ℕ × ℕ) → List ℕ
rows_of [] = []
rows_of ((first_row, end_row) ∷ workers) = rows first_row end_row ++ rows_of workers

rows_from_split :
    (m n k y z : ℕ) → k ≡ m + n → z ≡ y + m → rows_from m y ++ rows_from n z ≡ rows_from k y
rows_from_split zero n k y z e f =
    ap (λ (t : ℕ). rows_from n t) {x = z} {y = y} (omega (arith, f))
    ∙ ap (λ (t : ℕ). rows_from t y) {x = n} {y = k} (omega (arith, e))
rows_from_split (suc m) n (suc k) y z e f =
    ap (◌∷◌ y) (rows_from_split m n k (suc y) z (omega (arith, e)) (omega (arith, f)))
rows_from_split (suc m) n zero y z e f = absurd (omega (arith, e))

rows-append : (a b c : ℕ) → a ≤ b → b ≤ c → rows a b ++ rows b c ≡ rows a c
rows-append a b c p q =
    rows_from_split (b - a) (c - b) (c - a) a b (omega (arith, p, q)) (omega (arith, p, q))

rows_after :
    (height count n index : ℕ)
    → 0 < count
    → index + n ≡ count
    → rows 0 (height * index / count) ++ rows_of (make_workers height count n index) ≡ rows 0 height
unfolding make_workers
rows_after height count zero index pos e =
    let last : index ≡ count = omega arith in
    append-nil (rows 0 (height * index / count))
    ∙ ap (rows 0) (ap (λ (t : ℕ). height * t / count) last ∙ mul-div_cancel height pos)
rows_after height count (suc n) index pos e =
    let here = height * index / count in
    let there = height * (index + 1) / count in
    let more : here ≤ there =
      div_mono (height * index) (height * (index + 1)) count pos (omega arith) in
    let next : index + 1 ≡ suc index = omega arith in
    let others = rows_of (make_workers height count n (suc index)) in
    sym (append_assoc (rows 0 here) (rows here there) others)
    ∙ ap (λ (l : List ℕ). l ++ others) (rows-append 0 here there (omega arith) more)
    ∙ ap (λ (t : ℕ). rows 0 (height * t / count) ++ others) next
    ∙ rows_after height count n (suc index) pos (omega arith)

rows_of-make_workers :
    (height count : ℕ) → 0 < count → rows_of (make_workers height count count 0) ≡ rows 0 height
rows_of-make_workers height count pos =
    let none_before : 0 ≡ height * 0 / count =
      sym (ap (λ (t : ℕ). t / count) {x = height * 0} {y = 0} (omega arith) ∙ zero-div count) in
    ap (λ (t : ℕ). rows 0 t ++ rows_of (make_workers height count count 0)) none_before
    ∙ rows_after height count count 0 pos (omega arith)

module _ (channels : Channels) (source : ℕ → ℕ) (width row_pitch : ℕ) where
  -- Rows in one go are a part of them and then the others.
  unpack_from_split :
      (m n k y z : ℕ) (planes : Planes)
      → k ≡ m + n
      → z ≡ y + m
      → unpack_from channels source width row_pitch k y planes
        ≡ unpack_from channels source width row_pitch n z
            (unpack_from channels source width row_pitch m y planes)
  unfolding unpack_from
  unpack_from_split zero n k y z planes e f =
      let same : k ≡ n = omega arith in
      let here : y ≡ z = omega arith in
      ap (λ (t : ℕ). unpack_from channels source width row_pitch t y planes) same
      ∙ ap (λ (t : ℕ). unpack_from channels source width row_pitch n t planes) here
  unpack_from_split (suc m) n (suc k) y z planes e f =
      unpack_from_split m n k (suc y) z _ (omega arith) (omega arith)
  unpack_from_split (suc m) n zero y z planes e f = absurd (omega arith)

  rows_join :
      (a b c : ℕ) (planes : Planes)
      → a ≤ b
      → b ≤ c
      → unpack_identity_rows channels source width row_pitch b c
          (unpack_identity_rows channels source width row_pitch a b planes)
        ≡ unpack_identity_rows channels source width row_pitch a c planes
  unfolding unpack_identity_rows
  rows_join a b c planes p q =
      sym (unpack_from_split (b - a) (c - b) (c - a) a b planes (omega arith) (omega arith))

  -- The workers that are left unpack the rows that are left.
  run_workers-rows :
      (height count n index : ℕ) (planes : Planes)
      → 0 < count
      → index + n ≡ count
      → run_workers channels source width row_pitch
          (make_workers height count n index)
          (unpack_identity_rows channels source width row_pitch 0 (height * index / count) planes)
        ≡ unpack_identity_rows channels source width row_pitch 0 height planes
  unfolding run_workers make_workers
  run_workers-rows height count zero index planes pos e =
      let last : index ≡ count = omega arith in
      let all : height * index / count ≡ height =
        ap (λ (t : ℕ). height * t / count) last ∙ mul-div_cancel height pos in
      ap (λ (t : ℕ). unpack_identity_rows channels source width row_pitch 0 t planes) all
  run_workers-rows height count (suc n) index planes pos e =
      let more : height * index / count ≤ height * (index + 1) / count =
        div_mono (height * index) (height * (index + 1)) count pos (omega arith) in
      let next : index + 1 ≡ suc index = omega arith in
      ap (run_workers channels source width row_pitch (make_workers height count n (suc index))) (
        rows_join 0 (height * index / count) (height * (index + 1) / count) planes (omega arith)
          more
        ∙ ap
            (λ (t : ℕ).
              unpack_identity_rows channels source width row_pitch 0 (height * t / count) planes)
            next)
      ∙ run_workers-rows height count n (suc index) planes pos (omega arith)

  parallel_planes :
      (height thread_count : ℕ) (planes : Planes)
      → 0 < thread_count
      → unpack_identity_parallel channels source width row_pitch height thread_count planes
        ≡ unpack_identity_single channels source width row_pitch height planes
  unfolding unpack_identity_parallel unpack_identity_single unpack_identity_rows unpack_from
  parallel_planes height count planes pos =
      let none_before : height * 0 ≡ 0 = omega arith in
      let start : 0 ≡ height * 0 / count =
        sym (ap (λ (t : ℕ). t / count) none_before ∙ zero-div count) in
      ap (run_workers channels source width row_pitch (make_workers height count count 0))
        (ap (λ (t : ℕ). unpack_identity_rows channels source width row_pitch 0 t planes) start)
      ∙ run_workers-rows height count count 0 planes pos (omega arith)

  -- For every number of workers but 0, the rows of the workers, one after the other, are all the rows, each
  -- once, and the workers, each run to its end before the next, leave just the planes that the single
  -- loop leaves.
  pub parallel-single :
      (height thread_count : ℕ) (planes : Planes)
      → 0 < thread_count
      → (rows_of (make_workers height thread_count thread_count 0) ≡ rows 0 height)
        × (unpack_identity_parallel channels source width row_pitch height thread_count planes
            ≡ unpack_identity_single channels source width row_pitch height planes)
  parallel-single height count planes pos =
      (rows_of-make_workers height count pos, parallel_planes height count planes pos)
