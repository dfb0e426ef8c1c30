-- ===== src/MacHost/TapBuffer/Fifo.antt =====
-- The ring of blocks is a queue of at most 16 blocks.
use teraguchi.Common.{
  ℕ, zero, suc, ◌+◌, ◌-◌, ◌%◌, ◌^◌, ◌≤◌, ◌<◌, ◌≡◌, refl, ap, ap₂, ◌∙◌, Bool, true, false, ◌||◌,
  List, [], ◌∷◌, ◌++◌, Option, none, some, length, ltb, leb, ◌==◌, if◌then◌else◌, arith, ==_refl,
}
use teraguchi.MacHost.TapBuffer.{max_frames, store_at, TapBlock, TapBuffer}
use teraguchi.MacHost.TapBuffer.Copy.{stereo, source, all_finite}

module _ {F : Type 0} where
  -- What a reader takes of a block: its time, and its frames of two samples.
  abbrev pub view : TapBlock F → ℕ × List (F × F)
  view block = (block.host_time, stereo block.samples 0 block.frames)

  -- The `n` blocks from the index `r`.
  abbrev pub window : (ℕ → TapBlock F) → ℕ → ℕ → List (ℕ × List (F × F))
  window blocks r zero = []
  window blocks r (suc n) = view (blocks (r % 16)) ∷ window blocks ((r + 1) % 2 ^ 32) n

  abbrev pub occupancy : TapBuffer F → ℕ
  occupancy buffer = (buffer.write_index + (2 ^ 32 - buffer.read_index)) % 2 ^ 32

  -- The blocks that were published and not yet popped, oldest first.
  abbrev pub queued : TapBuffer F → List (ℕ × List (F × F))
  queued buffer = window buffer.blocks buffer.read_index (occupancy buffer)

  pub record WellFormed (buffer : TapBuffer F) : Type 0 where
    pub read_fits : buffer.read_index < 2 ^ 32
    pub write_fits : buffer.write_index < 2 ^ 32
    pub bounded : occupancy buffer ≤ 16

  window_snoc :
      (blocks : ℕ → TapBlock F) (r n s : ℕ)
      → s ≡ (r + n) % 16
      → window blocks r (suc n) ≡ window blocks r n ++ (view (blocks s) ∷ [])
  window_snoc blocks r zero s e = ap (λ (t : ℕ). view (blocks t) ∷ []) (omega arith)
  window_snoc blocks r (suc n) s e =
      ap (λ (rest : List (ℕ × List (F × F))). view (blocks (r % 16)) ∷ rest)
        (window_snoc blocks ((r + 1) % 2 ^ 32) n s (omega arith))

  -- A slot behind the window is not in it.
  window_store :
      (blocks : ℕ → TapBlock F) (block : TapBlock F) (r n s : ℕ)
      → n < 16
      → s ≡ (r + n) % 16
      → window (store_at blocks s block) r n ≡ window blocks r n
  unfolding store_at
  window_store blocks block r zero s h e = refl
  window_store blocks block r (suc n) s h e =
      let other : (r % 16 == s) ≡ false = ground arith in
      ap₂ (λ (x : TapBlock F) (xs : List (ℕ × List (F × F))). view x ∷ xs)
        (ap (λ (b : Bool). if b then block else blocks (r % 16)) other)
        (window_store blocks block ((r + 1) % 2 ^ 32) n s (omega arith) (omega arith))

  pub length-window : (blocks : ℕ → TapBlock F) (r n : ℕ) → length (window blocks r n) ≡ n
  length-window blocks r zero = refl
  length-window blocks r (suc n) = ap suc (length-window blocks ((r + 1) % 2 ^ 32) n)

-- The bounded queue that the buffer implements.
pub record TapQueue (F : Type 0) : Type 0 where
  pub blocks : List (ℕ × List (F × F))
  pub failed : ℕ
  pub overruns : ℕ
  pub stopped : Bool

module _ {F : Type 0} where
  abbrev pub queue_of : TapBuffer F → TapQueue F
  queue_of buffer = record {
    blocks = queued buffer;
    failed = buffer.failed;
    overruns = buffer.overruns;
    stopped = buffer.stopped;
  }

  abbrev pub append : (F → Bool) → TapQueue F → ℕ × List (F × F) → TapQueue F × Bool
  append is_finite queue (time, frames) =
      if all_finite is_finite frames
      then (record queue { blocks = queue.blocks ++ ((time, frames) ∷ []) }, true)
      else (record queue { failed = 1 }, false)

  abbrev pub push_queue :
      (F → Bool) → TapQueue F → Option (ℕ → F) → Option (ℕ → F) → ℕ → ℕ → TapQueue F × Bool
  push_queue is_finite queue none right frames time =
      if queue.stopped then (queue, false) else (record queue { failed = 1 }, false)
  push_queue is_finite queue (some left) right frames time =
      if queue.stopped
      then (queue, false)
      else if frames == 0 || ltb max_frames frames || time == 0
      then (record queue { failed = 1 }, false)
      else if leb 16 (length queue.blocks)
      then (record queue { overruns = (queue.overruns + 1) % 2 ^ 32 }, false)
      else append is_finite queue (time, source left right 0 frames)

  abbrev pub both : TapBuffer F × Bool → TapQueue F × Bool
  both (buffer, ok) = (queue_of buffer, ok)

  store_at_hit :
      (blocks : ℕ → TapBlock F) (k : ℕ) (block : TapBlock F) → store_at blocks k block k ≡ block
  unfolding store_at
  store_at_hit blocks k block = ap (λ (b : Bool). if b then block else blocks k) (==_refl k)

  -- The buffer after a block was filled and published.
  abbrev pub published : TapBuffer F → TapBlock F → TapBuffer F
  published buffer block = record buffer {
    blocks = store_at buffer.blocks (buffer.write_index % 16) block;
    write_index = (buffer.write_index + 1) % 2 ^ 32;
  }

  pub published-queued :
      (buffer : TapBuffer F) (block : TapBlock F)
      → WellFormed buffer
      → occupancy buffer < 16
      → queued (published buffer block) ≡ queued buffer ++ (view block ∷ [])
  published-queued buffer block wf free =
      let n = occupancy buffer in
      let r = buffer.read_index in
      let s = buffer.write_index % 16 in
      let blocks = store_at buffer.blocks s block in
      let here : s ≡ (r + n) % 16 = omega arith in
      let more : occupancy (published buffer block) ≡ suc n = omega arith in
      ap (window blocks r) more
      ∙ window_snoc blocks r n s here
      ∙ ap₂ (λ (xs : List (ℕ × List (F × F))) (x : TapBlock F). xs ++ (view x ∷ []))
          (window_store buffer.blocks block r n s free here) (store_at_hit buffer.blocks s block)

  pub published-WellFormed :
      (buffer : TapBuffer F) (block : TapBlock F)
      → WellFormed buffer
      → occupancy buffer < 16
      → WellFormed (published buffer block)
  published-WellFormed buffer block wf free = record {
    read_fits = omega arith;
    write_fits = omega arith;
    bounded = omega arith;
  }

  -- A slot that is filled and not published leaves the queue as it is.
  pub unpublished-queued :
      (buffer : TapBuffer F) (block : TapBlock F)
      → WellFormed buffer
      → occupancy buffer < 16
      → window
          (store_at buffer.blocks (buffer.write_index % 16) block)
          buffer.read_index
          (occupancy buffer)
        ≡ queued buffer
  unpublished-queued buffer block wf free =
      window_store buffer.blocks block buffer.read_index (occupancy buffer) _ free (omega arith)
