-- ===== src/Video/Queue/Drains.antt =====
-- What an action of the worker, or the join, does to the slots in use and the frames that they hold.
use teraguchi.Common.{
  ℕ, suc, ◌+◌, ◌-◌, ◌%◌, ◌≤◌, ◌<◌, ◌≡◌, ◌≢◌, refl, sym, ap, ◌∙◌, subst, inl, inr, Bool, true, false,
  List, [], ◌∷◌, ◌==◌, if◌then◌else◌, arith, Bool-cases,
}
use teraguchi.Video.Encoder.{Settings, Encoding, Drain}
use teraguchi.Video.Encoder.Output.{Succeeds, Flagged, Drained, drain_slot-Drained}
use teraguchi.Video.Queue.{
  Main, at_frame, encoding, queueing, joining, leaving, done, failed, Worker, idle, draining,
  freeing, failing, stopped, Threads, join_stopped, join, take_pending, take_slot, drained,
  drain_one, free,
}
use teraguchi.Video.Queue.Order.{
  slots_from, slots_from-first, slots_from-empty, AtWorker, AtMain, AtMain-freed, encoded_at,
  breaks, AtMain-breaks, has_failed, is_broken, Healthy, Fate, broken, healthy, branch,
}

module _ (picture_bytes : ℕ → List ℕ) (settings : Settings) (t : Threads)
    (taken written freed : ℕ) where
  -- The end of the stream.
  ended-Fate :
      (ends : Bool)
      → t.frame ≡ settings.frame_count
      → freed ≡ t.frame
      → encoded_at t.main t.frame ≡ t.frame
      → Healthy picture_bytes settings t taken written freed
      → Fate picture_bytes settings (record t { main = (if ends then done else failed) })
  unfolding is_broken breaks
  ended-Fate false all empty same h = broken refl
  ended-Fate true all empty same h = healthy taken written freed (record {
    worker = h.worker;
    main = (all, empty);
    taken_le = h.taken_le;
    full = h.full;
    within = h.within;
    pending = h.pending;
    used = h.used;
    unused = h.unused;
    pictures = h.pictures;
    output = h.output;
    flagged = subst (λ (n : ℕ). Flagged picture_bytes settings t.encoding n) same h.flagged;
    no_error = h.no_error;
  })

  join_stopped-Fate :
      (m : Main) (ends : Bool)
      → t.main ≡ m
      → AtMain settings.frame_count t.frame t.input_done
          (t.encoding.slots (t.frame % 2)).picture
          m
          freed
      → AtWorker t.frame t.input_done stopped taken written freed
      → Healthy picture_bytes settings t taken written freed
      → Fate picture_bytes settings (join_stopped picture_bytes settings t m ends)
  unfolding join_stopped
  join_stopped-Fate joining ends eq at w h =
      branch picture_bytes settings t.worker_error _ _ (λ e. absurd (ground (arith, e, h.no_error)))
        (λ _. ended-Fate ends at (w.1 ∙ w.2) (ap (λ (m : Main). encoded_at m t.frame) eq) h)
  join_stopped-Fate at_frame ends eq at w h = healthy taken written freed h
  join_stopped-Fate encoding ends eq at w h = healthy taken written freed h
  join_stopped-Fate queueing ends eq at w h = healthy taken written freed h
  join_stopped-Fate leaving ends eq at w h = elim at [ ]
  join_stopped-Fate done ends eq at w h = healthy taken written freed h
  join_stopped-Fate failed ends eq at w h = healthy taken written freed h

  pub join-Fate :
      (w : Worker) (ends : Bool)
      → AtWorker t.frame t.input_done w taken written freed
      → Healthy picture_bytes settings t taken written freed
      → Fate picture_bytes settings (join picture_bytes settings t w ends)
  unfolding join
  join-Fate stopped ends at h = join_stopped-Fate t.main ends refl h.main at h
  join-Fate idle ends at h = healthy taken written freed h
  join-Fate (draining i) ends at h = healthy taken written freed h
  join-Fate (freeing i) ends at h = healthy taken written freed h
  join-Fate failing ends at h = healthy taken written freed h

  take_pending-Fate :
      (pending : List ℕ)
      → t.pending_slots ≡ pending
      → AtWorker t.frame t.input_done idle taken written freed
      → Healthy picture_bytes settings t taken written freed
      → Fate picture_bytes settings (take_pending picture_bytes settings t pending)
  unfolding take_pending
  take_pending-Fate [] eq at h =
      branch picture_bytes settings t.input_done _ _
        (λ e. healthy taken written freed (record {
          worker = (
            at.0,
            at.1,
            omega
                (arith, slots_from-empty (t.frame - taken) taken (sym eq ∙ h.pending), h.taken_le),
            e,
          );
          main = h.main;
          taken_le = h.taken_le;
          full = h.full;
          within = h.within;
          pending = h.pending;
          used = h.used;
          unused = h.unused;
          pictures = h.pictures;
          output = h.output;
          flagged = h.flagged;
          no_error = h.no_error;
        }))
        (λ _. healthy taken written freed h)
  take_pending-Fate (i ∷ pending) eq at h = healthy (suc taken) written freed (record {
    worker = (
      omega (arith, at.0),
      omega (arith, at.0, at.1),
      first.1 ∙ ap (λ (n : ℕ). n % 2) (sym at.0),
    );
    main = h.main;
    taken_le = omega (arith, first.0);
    full = h.full;
    within = h.within;
    pending = first.2 ∙ ap (slots_from (suc taken)) {x = t.frame - taken - 1} (omega arith);
    used = h.used;
    unused = h.unused;
    pictures = h.pictures;
    output = h.output;
    flagged = h.flagged;
    no_error = h.no_error;
  })
    where
      first :
          (1 ≤ t.frame - taken)
          × (i ≡ taken % 2)
          × (pending ≡ slots_from (suc taken) (t.frame - taken - 1))
      first = slots_from-first (t.frame - taken) taken i pending (sym eq ∙ h.pending)

  pub take_slot-Fate :
      (w : Worker)
      → AtWorker t.frame t.input_done w taken written freed
      → Healthy picture_bytes settings t taken written freed
      → Fate picture_bytes settings (take_slot picture_bytes settings t w)
  unfolding take_slot
  take_slot-Fate idle at h = take_pending-Fate t.pending_slots refl at h
  take_slot-Fate (draining i) at h = healthy taken written freed h
  take_slot-Fate (freeing i) at h = healthy taken written freed h
  take_slot-Fate failing at h = healthy taken written freed h
  take_slot-Fate stopped at h = healthy taken written freed h

  drained-Fate :
      (i : ℕ) (result : Encoding × Bool)
      → AtWorker t.frame t.input_done (draining i) taken written freed
      → Healthy picture_bytes settings t taken written freed
      → Succeeds (λ next. Drained picture_bytes settings t.encoding next written) result
      → Fate picture_bytes settings (drained picture_bytes settings t i result)
  unfolding drained is_broken has_failed
  drained-Fate i (e, false) at h d = broken (
      AtMain-breaks t.main settings.frame_count t.frame t.input_done
        (t.encoding.slots (t.frame % 2)).picture freed h.main
        (omega (arith, at.0, at.1, h.taken_le)))
  drained-Fate i (e, true) at h d = healthy taken (suc written) freed (record {
    worker = (sym at.0, omega (arith, at.0, at.1), at.2 ∙ ap (λ (n : ℕ). n % 2) (sym at.1));
    main =
        AtMain-freed t.main settings.frame_count t.frame t.input_done _ _ freed freed (omega arith)
          (omega (arith, at.0, at.1, h.taken_le)) (d.pictures (t.frame % 2)) h.main;
    taken_le = h.taken_le;
    full = h.full;
    within = h.within;
    pending = h.pending;
    used = h.used;
    unused = h.unused;
    pictures = λ k le lt. d.pictures (k % 2) ∙ h.pictures k (omega (arith, le)) lt;
    output = d.written;
    flagged = d.flagged (encoded_at t.main t.frame) h.flagged;
    no_error = h.no_error;
  })

  pub drain_one-Fate :
      (w : Worker) (drain : Drain)
      → AtWorker t.frame t.input_done w taken written freed
      → Healthy picture_bytes settings t taken written freed
      → Fate picture_bytes settings (drain_one picture_bytes settings t w drain)
  unfolding drain_one
  drain_one-Fate (draining i) drain at h = drained-Fate i _ at h (
      drain_slot-Drained picture_bytes settings t.encoding i written drain
        (ap (λ (j : ℕ). (t.encoding.slots j).picture) at.2
          ∙ h.pictures written (omega arith) (omega (arith, at.0, h.taken_le)))
        h.output)
  drain_one-Fate idle drain at h = healthy taken written freed h
  drain_one-Fate (freeing i) drain at h = healthy taken written freed h
  drain_one-Fate failing drain at h = healthy taken written freed h
  drain_one-Fate stopped drain at h = healthy taken written freed h

  pub free-Fate :
      (w : Worker)
      → AtWorker t.frame t.input_done w taken written freed
      → Healthy picture_bytes settings t taken written freed
      → Fate picture_bytes settings (free picture_bytes settings t w)
  unfolding free
  free-Fate (freeing i) at h = healthy taken written (suc freed) (record {
    worker = (at.0, sym at.1);
    main =
        AtMain-freed t.main settings.frame_count t.frame t.input_done _ _ freed (suc freed)
          (omega arith) (omega (arith, at.1, h.taken_le)) refl h.main;
    taken_le = h.taken_le;
    full = omega (arith, h.full);
    within = h.within;
    pending = h.pending;
    used = λ k le lt. ground (arith, h.used k (omega (arith, le)) lt, other k le lt);
    unused = λ k le lt. elim (Bool-cases (k % 2 == i)) [
      | inl e ↦ ground (arith, e)
      | inr e ↦ ground (arith, e, h.unused k le (least k le lt e))
    ];
    pictures = h.pictures;
    output = h.output;
    flagged = h.flagged;
    no_error = h.no_error;
  })
    where
      least : (k : ℕ) → t.frame ≤ k → k < suc freed + 2 → (k % 2 == i) ≡ false → k < freed + 2
      least k le lt e = ground (arith, lt, e, at.2)

      other : (k : ℕ) → suc freed ≤ k → k < t.frame → k % 2 ≢ i
      other k le lt = omega (arith, le, lt, h.full, at.2)
  free-Fate failing at h = elim at [ ]
  free-Fate idle at h = healthy taken written freed h
  free-Fate (draining i) at h = healthy taken written freed h
  free-Fate stopped at h = healthy taken written freed h
