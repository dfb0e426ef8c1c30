-- ===== src/Video/Queue/Left.antt =====
-- How much is left to the two threads: each action that changes the state leaves less.
use teraguchi.Common.{
  ℕ, ◌+◌, ◌-◌, ◌*◌, ◌<◌, ◌≡◌, refl, ap, ◌∙◌, ◌⊎◌, inl, inr, Bool, true, false, List, length,
  if◌then◌else◌, arith,
}
use teraguchi.Video.Encoder.{Settings}
use teraguchi.Video.Queue.{
  Main, at_frame, encoding, queueing, joining, leaving, done, failed, Worker, idle, draining,
  freeing, failing, stopped, Threads,
}

-- What is left to `main` with `n` frames left.
unfoldable pub main_left : ℕ → Main → ℕ
main_left n at_frame = 6 * n + 2
main_left n encoding = 6 * n + 1
main_left n queueing = 6 * n
main_left n joining = 1
main_left n leaving = 1
main_left n done = 0
main_left n failed = 0

abbrev pub is_over : Main → Bool
is_over at_frame = false
is_over encoding = false
is_over queueing = false
is_over joining = false
is_over leaving = false
is_over done = true
is_over failed = true

unfoldable pub worker_left : Worker → ℕ
worker_left idle = 1
worker_left (draining i) = 3
worker_left (freeing i) = 2
worker_left failing = 2
worker_left stopped = 0

module _ (picture_bytes : ℕ → List ℕ) (settings : Settings) where
  unfoldable pub left_over : Threads → ℕ
  left_over t =
      main_left (settings.frame_count - t.frame) t.main
      + (worker_left t.worker + 3 * length t.pending_slots)

  -- `main` has a frame while it encodes, and has ended the input when it waits for the worker.
  abbrev pub Placed : Main → ℕ → Bool → Type 0
  Placed at_frame frame input_done = Unit {0}
  Placed encoding frame input_done = frame < settings.frame_count
  Placed queueing frame input_done = frame < settings.frame_count
  Placed joining frame input_done = input_done ≡ true
  Placed leaving frame input_done = input_done ≡ true
  Placed done frame input_done = Unit {0}
  Placed failed frame input_done = Unit {0}

  -- An action keeps the place, and does nothing or leaves less.
  pub record Goes (t next : Threads) : Type 0 where
    pub placed : Placed next.main next.frame next.input_done
    pub over : is_over t.main ≡ true → is_over next.main ≡ true
    pub less : (next ≡ t) ⊎ (left_over next < left_over t)

  pub stays : (t : Threads) → Placed t.main t.frame t.input_done → Goes t t
  stays t p = record { placed = p; over = λ o. o; less = inl refl }

  pub cases_if :
      (P : Threads → Type 0) (c : Bool) (a b : Threads)
      → (c ≡ true → P a)
      → (c ≡ false → P b)
      → P (if c then a else b)
  cases_if P true a b p q = p refl
  cases_if P false a b p q = q refl

  -- Only `main` goes on.
  pub advances :
      (t next : Threads) (m : Main)
      → t.main ≡ m
      → is_over m ≡ false
      → Placed next.main next.frame next.input_done
      → worker_left next.worker + 3 * length next.pending_slots
        ≡ worker_left t.worker + 3 * length t.pending_slots
      → main_left (settings.frame_count - next.frame) next.main
        < main_left (settings.frame_count - t.frame) m
      → Goes t next
  unfolding left_over
  advances t next m eq going p same lt = record {
    placed = p;
    over = λ o. absurd (ground (arith, o, ap is_over eq, going));
    less = inr (omega (arith, same, lt, ap (main_left (settings.frame_count - t.frame)) eq));
  }

  -- Only the worker goes on.
  pub works :
      (t next : Threads) (w : Worker)
      → t.worker ≡ w
      → Placed next.main next.frame next.input_done
      → is_over next.main ≡ is_over t.main
      → main_left (settings.frame_count - next.frame) next.main
        ≡ main_left (settings.frame_count - t.frame) t.main
      → worker_left next.worker + 3 * length next.pending_slots
        < worker_left w + 3 * length t.pending_slots
      → Goes t next
  unfolding left_over
  works t next w eq p main same lt = record {
    placed = p;
    over = λ o. main ∙ o;
    less = inr (omega (arith, same, lt, ap worker_left eq));
  }
