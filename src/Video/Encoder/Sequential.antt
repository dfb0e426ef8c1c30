-- ===== src/Video/Encoder/Sequential.antt =====
-- The loop without a queue.
use teraguchi.Common.{ℕ, suc, ◌+◌, ◌%◌, subst, Bool, true, false, List, [], ◌∷◌, length, arith}
use teraguchi.Video.Encoder.{
  Settings, Encoding, Capture, Drain, then_if, drain_slot, encode_and_drain, run_sequential,
}
use teraguchi.Video.Encoder.Output.{
  Succeeds, Written, Flagged, Drained, drain_slot-Drained, Encoded, encode_frame-Encoded,
}

module _ (picture_bytes : ℕ → List ℕ) (settings : Settings) where
  -- The files and the flags after `n` frames.
  pub record Complete (e : Encoding) (n : ℕ) : Type 0 where
    pub written : Written picture_bytes settings e n
    pub flagged : Flagged picture_bytes settings e n

  drain-Complete :
      (e encoded : Encoding) (n : ℕ) (drain : Drain)
      → Complete e n
      → Encoded picture_bytes settings e encoded n
      → Succeeds
          (λ next. Complete next (suc n))
          (drain_slot picture_bytes settings encoded (n % 2) drain)
  drain-Complete e encoded n drain c f = go _ (
      drain_slot-Drained picture_bytes settings encoded (n % 2) n drain f.picture
        (f.written n c.written))
    where
      go :
          (result : Encoding × Bool)
          → Succeeds (λ next. Drained picture_bytes settings encoded next n) result
          → Succeeds (λ next. Complete next (suc n)) result
      go (next, false) h = tt
      go (next, true) h = record {
        written = h.written;
        flagged = h.flagged (suc n) (f.flagged c.flagged);
      }

  round-Complete :
      (e : Encoding) (n : ℕ) (answers : Capture × Drain)
      → Complete e n
      → Succeeds
          (λ next. Complete next (suc n))
          (encode_and_drain picture_bytes settings e n answers)
  unfolding encode_and_drain
  round-Complete e n (capture, drain) c =
      go _ (encode_frame-Encoded picture_bytes settings e n capture)
    where
      go :
          (result : Encoding × Bool)
          → Succeeds (λ next. Encoded picture_bytes settings e next n) result
          → Succeeds
              (λ next. Complete next (suc n))
              (then_if result.1 result.0 (drain_slot picture_bytes settings result.0 (n % 2) drain))
      go (encoded, false) h = tt
      go (encoded, true) h = drain-Complete e encoded n drain c h

  pub run_sequential-Complete :
      (answers : List (Capture × Drain)) (e : Encoding) (n : ℕ)
      → Complete e n
      → Succeeds
          (λ last. Complete last (n + length answers))
          (run_sequential picture_bytes settings e n answers)
  unfolding run_sequential
  run_sequential-Complete [] e n c = subst (λ (k : ℕ). Complete e k) (omega arith) c
  run_sequential-Complete (a ∷ answers) e n c = go _ (round-Complete e n a c) (λ next h.
      subst
        (λ (k : ℕ).
          Succeeds (λ last. Complete last k)
            (run_sequential picture_bytes settings next (suc n) answers))
        (omega arith) (run_sequential-Complete answers next (suc n) h))
    where
      go :
          (result : Encoding × Bool)
          → Succeeds (λ next. Complete next (suc n)) result
          → ((next : Encoding)
              → Complete next (suc n)
              → Succeeds
                  (λ last. Complete last (n + suc (length answers)))
                  (run_sequential picture_bytes settings next (suc n) answers))
          → Succeeds
              (λ last. Complete last (n + suc (length answers)))
              (then_if result.1 result.0
                (run_sequential picture_bytes settings result.0 (suc n) answers))
      go (next, false) h rest = tt
      go (next, true) h rest = rest next h
