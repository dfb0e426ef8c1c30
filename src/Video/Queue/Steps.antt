-- ===== src/Video/Queue/Steps.antt =====
-- What one action does to the slots in use and the frames that they hold.
use teraguchi.Common.{
  ℕ, suc, ◌+◌, ◌-◌, ◌%◌, ◌≤◌, ◌<◌, ◌≡◌, ◌≢◌, refl, sym, ap, ◌∙◌, subst, inl, inr, Bool, true, false,
  List, [], ◌∷◌, ◌++◌, ltb, ◌==◌, arith, Bool-cases,
}
use teraguchi.Video.Encoder.{Settings, Encoding, Capture}
use teraguchi.Video.Encoder.Output.{Succeeds, Flagged, Encoded, encode_frame-Encoded}
use teraguchi.Video.Queue.{
  Main, at_frame, encoding, queueing, joining, leaving, done, failed, Threads, acquire, encoded,
  encode, queue,
}
use teraguchi.Video.Queue.Order.{
  slots_from, slots_from-snoc, AtWorker, AtMain, AtWorker-going, AtWorker-done, AtWorker-le,
  encoded_at, breaks, is_broken, Healthy, Fate, broken, healthy, branch,
}

module _ (picture_bytes : ℕ → List ℕ) (settings : Settings) (t : Threads)
    (taken written freed : ℕ) where
  -- `main` goes on to another place, with the encoding as it was.
  moved :
      (m : Main) (input_done : Bool)
      → Healthy picture_bytes settings t taken written freed
      → AtWorker t.frame input_done t.worker taken written freed
      → encoded_at m t.frame ≡ encoded_at t.main t.frame
      → AtMain settings.frame_count t.frame input_done
          (t.encoding.slots (t.frame % 2)).picture
          m
          freed
      → Fate picture_bytes settings (record t { main = m; input_done = input_done })
  moved m input_done h w same at = healthy taken written freed (record {
    worker = w;
    main = at;
    taken_le = h.taken_le;
    full = h.full;
    within = h.within;
    pending = h.pending;
    used = h.used;
    unused = h.unused;
    pictures = h.pictures;
    output = h.output;
    flagged = subst (λ (n : ℕ). Flagged picture_bytes settings t.encoding n) (sym same) h.flagged;
    no_error = h.no_error;
  })

  -- The slot of the next frame is free again.
  waited :
      Healthy picture_bytes settings t taken written freed
      → t.slot_in_use (t.frame % 2) ≡ false
      → t.frame < freed + 2
  waited h u = elim (Bool-cases (t.frame == freed + 2)) [
    | inl e ↦ absurd (
        ground (
          arith,
          u,
          subst (λ (i : ℕ). t.slot_in_use i ≡ true) (same (equal e))
              (h.used freed (omega arith) (omega (arith, equal e))),
        ))
    | inr e ↦ ground (arith, e, h.full)
  ]
    where
      equal : (t.frame == freed + 2) ≡ true → t.frame ≡ freed + 2
      equal e = ground (arith, e)

      same : t.frame ≡ freed + 2 → freed % 2 ≡ t.frame % 2
      same e = omega (arith, e)

  pub acquire-Fate :
      (m : Main)
      → t.main ≡ m
      → AtMain settings.frame_count t.frame t.input_done
          (t.encoding.slots (t.frame % 2)).picture
          m
          freed
      → Healthy picture_bytes settings t taken written freed
      → Fate picture_bytes settings (acquire picture_bytes settings t m)
  unfolding acquire
  acquire-Fate at_frame eq at h =
      branch picture_bytes settings (ltb t.frame settings.frame_count) _ _
        (λ lt.
          branch picture_bytes settings t.worker_error _ _ (λ e. absurd (cc (e, h.no_error)))
            (λ _.
              branch picture_bytes settings (t.slot_in_use (t.frame % 2)) _ _
                (λ _. healthy taken written freed h)
                (λ u.
                  moved encoding t.input_done h h.worker
                    (ap (λ (m : Main). encoded_at m t.frame) (sym eq))
                    (at, ground (arith, lt), waited h u))))
        (λ ge.
          moved joining true h
            (AtWorker-done t.worker t.frame t.input_done taken written freed h.worker)
            (ap (λ (m : Main). encoded_at m t.frame) (sym eq)) (ground (arith, ge, h.within)))
  acquire-Fate encoding eq at h = healthy taken written freed h
  acquire-Fate queueing eq at h = healthy taken written freed h
  acquire-Fate joining eq at h = healthy taken written freed h
  acquire-Fate leaving eq at h = healthy taken written freed h
  acquire-Fate done eq at h = healthy taken written freed h
  acquire-Fate failed eq at h = healthy taken written freed h

  -- The frame is encoded, or the loop is left.
  encoded-Fate :
      (result : Encoding × Bool)
      → t.main ≡ encoding
      → AtMain settings.frame_count t.frame t.input_done
          (t.encoding.slots (t.frame % 2)).picture
          encoding
          freed
      → Healthy picture_bytes settings t taken written freed
      → Succeeds (λ next. Encoded picture_bytes settings t.encoding next t.frame) result
      → Fate picture_bytes settings (encoded picture_bytes settings t result)
  unfolding encoded is_broken breaks
  encoded-Fate (e, false) eq at h f = broken refl
  encoded-Fate (e, true) eq at h f = healthy taken written freed (record {
    worker = h.worker;
    main = (at.0, at.1, at.2, f.picture);
    taken_le = h.taken_le;
    full = h.full;
    within = h.within;
    pending = h.pending;
    used = h.used;
    unused = h.unused;
    pictures =
        λ k le lt. f.others (k % 2) (omega (arith, at.2, le, lt, order)) ∙ h.pictures k le lt;
    output = f.written written h.output;
    flagged = f.flagged (
        subst (λ (m : Main). Flagged picture_bytes settings t.encoding (encoded_at m t.frame)) eq
          h.flagged);
    no_error = h.no_error;
  })
    where
      order : freed ≤ written
      order = (AtWorker-le t.worker t.frame t.input_done taken written freed h.worker).0

  pub encode-Fate :
      (m : Main) (capture : Capture)
      → t.main ≡ m
      → AtMain settings.frame_count t.frame t.input_done
          (t.encoding.slots (t.frame % 2)).picture
          m
          freed
      → Healthy picture_bytes settings t taken written freed
      → Fate picture_bytes settings (encode picture_bytes settings t m capture)
  unfolding encode
  encode-Fate encoding capture eq at h =
      encoded-Fate _ eq at h
        (encode_frame-Encoded picture_bytes settings t.encoding t.frame capture)
  encode-Fate at_frame capture eq at h = healthy taken written freed h
  encode-Fate queueing capture eq at h = healthy taken written freed h
  encode-Fate joining capture eq at h = healthy taken written freed h
  encode-Fate leaving capture eq at h = healthy taken written freed h
  encode-Fate done capture eq at h = healthy taken written freed h
  encode-Fate failed capture eq at h = healthy taken written freed h

  pub queue-Fate :
      (m : Main)
      → t.main ≡ m
      → AtMain settings.frame_count t.frame t.input_done
          (t.encoding.slots (t.frame % 2)).picture
          m
          freed
      → Healthy picture_bytes settings t taken written freed
      → Fate picture_bytes settings (queue picture_bytes settings t m)
  unfolding queue
  queue-Fate queueing eq at h = healthy taken written freed (record {
    worker =
        AtWorker-going t.worker t.frame (t.frame + 1) t.input_done taken written freed at.0
          h.worker;
    main = at.0;
    taken_le = omega (arith, h.taken_le);
    full = omega (arith, at.2);
    within = omega (arith, at.1);
    pending =
        ap (λ (l : List ℕ). l ++ (t.frame % 2 ∷ [])) h.pending
        ∙ ap (λ (n : ℕ). slots_from taken (t.frame - taken) ++ (n % 2 ∷ []))
            (omega (arith, h.taken_le))
        ∙ slots_from-snoc (t.frame - taken) taken
        ∙ ap (slots_from taken) {x = suc (t.frame - taken)} (omega (arith, h.taken_le));
    used = λ k le lt. elim (Bool-cases (k == t.frame)) [
      | inl e ↦ ground (arith, e)
      | inr e ↦ ground (arith, h.used k le (ground (arith, e, lt)))
    ];
    unused = λ k le lt. ground (arith, other k le lt, h.unused k (omega (arith, le)) lt);
    pictures = λ k le lt. elim (Bool-cases (k == t.frame)) [
      | inl e ↦ ground (arith, e, at.3)
      | inr e ↦ h.pictures k le (ground (arith, e, lt))
    ];
    output = h.output;
    flagged =
        subst (λ (n : ℕ). Flagged picture_bytes settings t.encoding n) (omega arith)
          (subst (λ (m : Main). Flagged picture_bytes settings t.encoding (encoded_at m t.frame)) eq
            h.flagged);
    no_error = h.no_error;
  })
    where
      other : (k : ℕ) → t.frame + 1 ≤ k → k < freed + 2 → k % 2 ≢ t.frame % 2
      other k le lt = omega (arith, le, lt, ordered)
        where
          ordered : freed ≤ t.frame
          ordered = omega (
            arith,
            AtWorker-le t.worker t.frame t.input_done taken written freed h.worker,
            h.taken_le,
          )
  queue-Fate at_frame eq at h = healthy taken written freed h
  queue-Fate encoding eq at h = healthy taken written freed h
  queue-Fate joining eq at h = healthy taken written freed h
  queue-Fate leaving eq at h = healthy taken written freed h
  queue-Fate done eq at h = healthy taken written freed h
  queue-Fate failed eq at h = healthy taken written freed h
