-- ===== src/MacHost/TapBuffer/Tests.antt =====
-- The ring of blocks at concrete inputs.
use teraguchi.Common.{ℕ, ◌≡◌, refl, Bool, true, false, List, [], ◌∷◌, none, some, ◌!=◌}
use teraguchi.MacHost.TapBuffer.{
  TapBlock, TapBuffer, push, fill_slot, copy_frames, left_sample, right_sample, store_frame,
  store_at, peek, pop,
}
use teraguchi.MacHost.TapBuffer.Runs.{Call, pushes, takes, accepted, taken, take_peeked, step, run}

-- Samples that are numbers, all finite but 7.
abbrev finite_sample : ℕ → Bool
finite_sample x = x != 7

abbrev empty_block : TapBlock ℕ
empty_block = record { frames = 0; host_time = 0; samples = λ i. 0 }

abbrev empty_ring : TapBuffer ℕ
empty_ring = record {
  read_index = 4294967295;
  write_index = 4294967295;
  failed = 0;
  overruns = 0;
  stopped = false;
  blocks = λ i. empty_block;
}

abbrev ring_calls : List (Call ℕ)
ring_calls =
    pushes (some (λ i. i)) none 2 100 ∷ (pushes (some (λ i. i)) none 5 101 ∷ (takes ∷ (takes ∷ [])))

-- One push is accepted across the end of the indices, the next holds a value that is not finite.
ring_answers :
    run finite_sample empty_ring ring_calls
    ≡ accepted true
      ∷ (accepted false ∷ (taken (some (100, (0, 1) ∷ ((2, 3) ∷ []))) ∷ (taken none ∷ [])))
unfolding run step push fill_slot copy_frames left_sample right_sample store_frame store_at
    take_peeked peek pop
ring_answers = refl
