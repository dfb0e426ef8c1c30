-- ===== src/MacHost/TapBuffer/Refinement.antt =====
-- The operations of the ring on the queue that it stands for.
use teraguchi.Common.{
  ℕ, ◌%◌, ◌<◌, ◌≡◌, refl, sym, ap, ◌∙◌, Bool, true, false, ◌||◌, List, [], ◌∷◌, ◌++◌, Option, none,
  some, ltb, leb, ◌==◌, if◌then◌else◌, arith,
}
use teraguchi.MacHost.TapBuffer.{max_frames, TapBlock, TapBuffer, copy_frames, fill_slot, push}
use teraguchi.MacHost.TapBuffer.Copy.{source, copy_stereo, copy_finite}
use teraguchi.MacHost.TapBuffer.Fifo.{
  occupancy, queued, WellFormed, TapQueue, queue_of, append, push_queue, both, length-window,
  published-queued, published-WellFormed, unpublished-queued,
}

module _ {F : Type 0} where
  -- A result of the ring that is the queue's.
  abbrev pub Refines : {B : Type 0} → TapBuffer F × B → TapQueue F × B → Type 0
  Refines result expected = ((queue_of result.0, result.1) ≡ expected) × WellFormed result.0

  pub on_branch :
      {B : Type 0} {x x' : TapBuffer F × B} {y y' : TapQueue F × B} (c : Bool)
      → (c ≡ true → Refines x y)
      → (c ≡ false → Refines x' y')
      → Refines (if c then x else x') (if c then y else y')
  on_branch true p q = p refl
  on_branch false p q = q refl

  flagged : (buffer : TapBuffer F) → WellFormed buffer → WellFormed (record buffer { failed = 1 })
  flagged buffer wf = record {
    read_fits = omega arith;
    write_fits = omega arith;
    bounded = omega arith;
  }

module _ {F : Type 0} (is_finite : F → Bool) where
  fill-append :
      (buffer : TapBuffer F) (left : ℕ → F) (right : Option (ℕ → F)) (frames time : ℕ)
      → WellFormed buffer
      → occupancy buffer < 16
      → Refines
          (fill_slot is_finite buffer left right frames time)
          (append is_finite (queue_of buffer) (time, source left right 0 frames))
  unfolding fill_slot
  fill-append buffer left right frames time wf free =
      let samples = (buffer.blocks (buffer.write_index % 16)).samples in
      let copied = copy_frames is_finite left right frames 0 samples in
      let whole = copy_finite is_finite left right frames 0 samples in
      let block : TapBlock F = record { frames = frames; host_time = time; samples = copied.1 } in
      rw (sym whole) (
        on_branch copied.0
          (λ all. (
            ap (λ (xs : List (ℕ × List (F × F))). (record (queue_of buffer) { blocks = xs }, true))
                (published-queued buffer block wf free
                  ∙ ap (λ (fs : List (F × F)). queued buffer ++ ((time, fs) ∷ []))
                      (copy_stereo is_finite left right frames 0 samples all)),
            published-WellFormed buffer block wf free,
          ))
          (λ bad. (
            ap
                (λ (xs : List (ℕ × List (F × F))).
                  (record (queue_of buffer) { blocks = xs; failed = 1 }, false))
                (unpublished-queued buffer block wf free),
            record { read_fits = omega arith; write_fits = omega arith; bounded = omega arith },
          )))

  -- A push does to the ring what it does to the queue, with the same result.
  pub push-push_queue :
      (buffer : TapBuffer F) (left right : Option (ℕ → F)) (frames time : ℕ)
      → WellFormed buffer
      → (both (push is_finite buffer left right frames time)
          ≡ push_queue is_finite (queue_of buffer) left right frames time)
        × WellFormed (push is_finite buffer left right frames time).0
  unfolding push
  push-push_queue buffer none right frames time wf =
      on_branch buffer.stopped (λ _. (refl, wf)) (λ _. (refl, flagged buffer wf))
  push-push_queue buffer (some left) right frames time wf =
      on_branch buffer.stopped (λ _. (refl, wf))
        (λ _.
          on_branch (frames == 0 || ltb max_frames frames || time == 0)
            (λ _. (refl, flagged buffer wf))
            (λ _. rw (length-window buffer.blocks buffer.read_index (occupancy buffer)) (
              on_branch (leb 16 (occupancy buffer))
                (λ full. (
                  refl,
                  record {
                    read_fits = omega arith;
                    write_fits = omega arith;
                    bounded = omega arith;
                  },
                ))
                (λ free. fill-append buffer left right frames time wf (ground arith)))))
