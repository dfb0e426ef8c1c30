-- ===== src/Video/Encoder/Output.antt =====
-- What a frame's encoding and its draining leave in the files, the slots and the flags.
use teraguchi.Common.{
  ℕ, zero, suc, ◌+◌, ◌%◌, ◌≡◌, ◌≢◌, sym, ap, ◌∙◌, subst, Bool, true, false, not, ◌&&◌, ◌||◌, List,
  [], ◌++◌, length, leb, ◌==◌, ◌!=◌, if◌then◌else◌, arith, length-append,
}
use teraguchi.Video.Encoder.{
  Settings, EncodeSlot, Encoding, Capture, Drain, then_if, set_slot, write_picture, write_reference,
  release_slot, drain_locked, drain_slot, invalidates_at, invalidate, set_up_picture,
  submit_picture, encode_frame,
}

-- What holds of the state of a call that succeeds.
abbrev pub Succeeds : (Encoding → Type 0) → Encoding × Bool → Type 0
Succeeds P (e, true) = P e
Succeeds P (e, false) = Unit {0}

then_if-Succeeds :
    (P : Encoding → Type 0) (b : Bool) (e : Encoding) (rest : Encoding × Bool)
    → Succeeds P rest
    → Succeeds P (then_if b e rest)
then_if-Succeeds P true e rest h = h
then_if-Succeeds P false e rest h = tt

module _ (picture_bytes : ℕ → List ℕ) (settings : Settings) where
  abbrev pub is_lost : ℕ → Bool
  is_lost stamp = settings.simulate_loss_frame != 0 && stamp == settings.simulate_loss_frame

  -- The first `n` pictures, all of them, and those that are not lost.
  unfoldable pub all_pictures : ℕ → List ℕ
  all_pictures zero = []
  all_pictures (suc n) = all_pictures n ++ picture_bytes (suc n)

  unfoldable pub kept_pictures : ℕ → List ℕ
  kept_pictures zero = []
  kept_pictures (suc n) =
      if is_lost (suc n) then kept_pictures n else kept_pictures n ++ picture_bytes (suc n)

  -- The files and their counts after `n` pictures.
  pub record Written (e : Encoding) (n : ℕ) : Type 0 where
    pub bitstream : e.bitstream ≡ kept_pictures n
    pub reference :
        e.reference_bitstream ≡ (if settings.has_reference_bitstream then all_pictures n else [])
    pub counted : e.bitstream_frames_written + e.bitstream_frames_dropped ≡ n
    pub dropped :
        e.bitstream_frames_dropped
        ≡ (if settings.simulate_loss_frame != 0 && leb settings.simulate_loss_frame n then 1 else 0)
    pub bytes : e.encoded_bytes ≡ length (kept_pictures n)

  -- The flags after `n` frames were encoded.
  pub record Flagged (e : Encoding) (n : ℕ) : Type 0 where
    pub invalidated : e.reference_invalidation_called ≡ (
        settings.simulate_loss_frame != 0
        && (settings.reference_invalidation_enabled
            && leb (settings.simulate_loss_frame + settings.invalidate_delay_frames) n))
    pub forced :
        e.forced_idr_submitted ≡ (settings.force_idr_frame != 0 && leb settings.force_idr_frame n)

  -- What draining a slot with the next picture does.
  pub record Drained (e next : Encoding) (n : ℕ) : Type 0 where
    pub written : Written next (suc n)
    pub flagged : (k : ℕ) → Flagged e k → Flagged next k
    pub pictures : (j : ℕ) → (next.slots j).picture ≡ (e.slots j).picture

  -- The files after the picture was written to both.
  pictures_written : Encoding → ℕ → Encoding
  pictures_written e n =
      write_picture picture_bytes settings (write_reference picture_bytes settings e (suc n))
        (suc n)

  pictures-Written : (e : Encoding) (n : ℕ) → Written e n → Written (pictures_written e n) (suc n)
  unfolding pictures_written write_picture write_reference all_pictures kept_pictures
  pictures-Written e n w = record {
    bitstream = ground (arith, w.bitstream);
    reference = ground (arith, w.reference);
    counted = ground (arith, w.counted);
    dropped = ground (arith, w.dropped);
    bytes = ground (arith, w.bytes, length-append (kept_pictures n) (picture_bytes (suc n)));
  }

  same_slots : (e : Encoding) (n : ℕ) → (pictures_written e n).slots ≡ e.slots
  unfolding pictures_written write_picture write_reference
  same_slots e n = ground arith

  pictures-Flagged : (e : Encoding) (n k : ℕ) → Flagged e k → Flagged (pictures_written e n) k
  unfolding pictures_written write_picture write_reference
  pictures-Flagged e n k f = record {
    invalidated = ground (arith, f.invalidated);
    forced = ground (arith, f.forced);
  }

  locked_slot : Encoding → ℕ → Encoding
  locked_slot e i = set_slot e i (record (e.slots i) { bitstream_locked = true })

  locked-Written : (e : Encoding) (i n : ℕ) → Written e n → Written (locked_slot e i) n
  unfolding locked_slot
  locked-Written e i n w = record {
    bitstream = w.bitstream;
    reference = w.reference;
    counted = w.counted;
    dropped = w.dropped;
    bytes = w.bytes;
  }

  locked-Flagged : (e : Encoding) (i k : ℕ) → Flagged e k → Flagged (locked_slot e i) k
  unfolding locked_slot
  locked-Flagged e i k f = record { invalidated = f.invalidated; forced = f.forced }

  locked_picture :
      (e : Encoding) (i j : ℕ) → ((locked_slot e i).slots j).picture ≡ (e.slots j).picture
  unfolding locked_slot
  locked_picture e i j = ground arith

  -- The slot's release changes no file, no flag and no picture.
  record Released (e next : Encoding) : Type 0 where
    written : (n : ℕ) → Written e n → Written next n
    flagged : (k : ℕ) → Flagged e k → Flagged next k
    pictures : (j : ℕ) → (next.slots j).picture ≡ (e.slots j).picture

  release-Released :
      (e : Encoding) (i : ℕ) (drain : Drain)
      → Succeeds (Released e) (release_slot picture_bytes settings e i drain)
  unfolding release_slot
  release-Released e i drain = then_if-Succeeds (Released e) drain.unlocks _ _ (
      then_if-Succeeds (Released e) drain.unmaps _ _ (record {
        written = λ n w. record {
          bitstream = w.bitstream;
          reference = w.reference;
          counted = w.counted;
          dropped = w.dropped;
          bytes = w.bytes;
        };
        flagged = λ k f. record { invalidated = f.invalidated; forced = f.forced };
        pictures = λ j. ground arith;
      }))

  Released-Drained :
      (locked : Encoding) (n : ℕ) (result : Encoding × Bool)
      → Written locked n
      → Succeeds (Released (pictures_written locked n)) result
      → Succeeds (λ next. Drained locked next n) result
  Released-Drained locked n (next, false) w h = tt
  Released-Drained locked n (next, true) w h = record {
    written = h.written (suc n) (pictures-Written locked n w);
    flagged = λ k f. h.flagged k (pictures-Flagged locked n k f);
    pictures = λ j. h.pictures j ∙ ap (λ (s : ℕ → EncodeSlot). (s j).picture) (same_slots locked n);
  }

  drain_locked-Drained :
      (locked : Encoding) (i n : ℕ) (drain : Drain)
      → Written locked n
      → Succeeds
          (λ next. Drained locked next n)
          (drain_locked picture_bytes settings locked (suc n) i drain)
  unfolding drain_locked pictures_written
  drain_locked-Drained locked i n drain w =
      then_if-Succeeds (λ next. Drained locked next n)
        (not settings.has_reference_bitstream || drain.writes_reference) _ _
        (then_if-Succeeds (λ next. Drained locked next n) (is_lost (suc n) || drain.writes) _ _
          (Released-Drained locked n _ w (release-Released (pictures_written locked n) i drain)))

  unlocked-Succeeds :
      (e : Encoding) (i n : ℕ) (result : Encoding × Bool)
      → Succeeds (λ next. Drained (locked_slot e i) next n) result
      → Succeeds (λ next. Drained e next n) result
  unlocked-Succeeds e i n (next, false) h = tt
  unlocked-Succeeds e i n (next, true) h = record {
    written = h.written;
    flagged = λ k f. h.flagged k (locked-Flagged e i k f);
    pictures = λ j. h.pictures j ∙ locked_picture e i j;
  }

  -- A slot that holds the picture behind the first `n` is drained, or the call fails.
  pub drain_slot-Drained :
      (e : Encoding) (i n : ℕ) (drain : Drain)
      → (e.slots i).picture ≡ suc n
      → Written e n
      → Succeeds (λ next. Drained e next n) (drain_slot picture_bytes settings e i drain)
  unfolding drain_slot locked_slot
  drain_slot-Drained e i n drain at w =
      then_if-Succeeds (λ next. Drained e next n) drain.locks _ _
        (unlocked-Succeeds e i n _ (
          subst
            (λ (stamp : ℕ).
              Succeeds (λ next. Drained (locked_slot e i) next n)
                (drain_locked picture_bytes settings (locked_slot e i) stamp i drain))
            (sym at) (drain_locked-Drained (locked_slot e i) i n drain (locked-Written e i n w))))

  -- What the encoding of the frame behind the first `n` does.
  pub record Encoded (e next : Encoding) (n : ℕ) : Type 0 where
    pub written : (k : ℕ) → Written e k → Written next k
    pub flagged : Flagged e n → Flagged next (suc n)
    pub picture : (next.slots (n % 2)).picture ≡ suc n
    pub others : (j : ℕ) → j ≢ n % 2 → (next.slots j).picture ≡ (e.slots j).picture

  pub encode_frame-Encoded :
      (e : Encoding) (n : ℕ) (capture : Capture)
      → Succeeds (λ next. Encoded e next n) (encode_frame picture_bytes settings e n capture)
  unfolding encode_frame invalidate set_up_picture submit_picture
  encode_frame-Encoded e n capture =
      then_if-Succeeds P
        (not (invalidates_at picture_bytes settings (n + 1)) || capture.invalidates) _ _
        (then_if-Succeeds P capture.grabs _ _ (
          then_if-Succeeds P capture.converts _ _ (
            then_if-Succeeds P capture.maps _ _ (
              then_if-Succeeds P capture.encodes _ _ (record {
                written = λ k w. record {
                  bitstream = w.bitstream;
                  reference = w.reference;
                  counted = w.counted;
                  dropped = w.dropped;
                  bytes = w.bytes;
                };
                flagged = λ f. record {
                  invalidated = ground (arith, f.invalidated);
                  forced = ground (arith, f.forced);
                };
                picture = ground arith;
                others = λ j ne. ground (arith, ne);
              })))))
    where
      P : Encoding → Type 0
      P next = Encoded e next n
