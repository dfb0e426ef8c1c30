-- ===== src/Video/Queue/Moves.antt =====
-- The kinds of actions, and when those of a kind change the state.
use teraguchi.Common.{
  ℕ, ◌%◌, ◌≡◌, ◌≢◌, refl, sym, ap, ◌∙◌, subst, ◌⊎◌, inl, inr, Bool, true, false, List, [], ◌∷◌,
  arith,
}
use teraguchi.Video.Encoder.{Settings, Encoding, Capture, Drain}
use teraguchi.Video.Queue.{
  Main, at_frame, encoding, queueing, joining, leaving, done, failed, Worker, idle, draining,
  freeing, failing, stopped, Threads, Action, acquires, encodes, queues, joins, takes, drains,
  frees, acquire, encoded, encode, queue, join_stopped, join, take_pending, take_slot, drained,
  drain_one, free, act,
}
use teraguchi.Video.Queue.Left.{worker_left}

pub data Kind : Type 0 where
  acquiring : Kind
  encoding_frame : Kind
  queueing_slot : Kind
  ending : Kind
  taking : Kind
  draining_slot : Kind
  freeing_slot : Kind

abbrev pub kind_of : Action → Kind
kind_of acquires = acquiring
kind_of (encodes capture) = encoding_frame
kind_of queues = queueing_slot
kind_of (joins ends) = ending
kind_of takes = taking
kind_of (drains drain) = draining_slot
kind_of frees = freeing_slot

-- An action of the kind is in the round.
abbrev pub Meets : Kind → List Action → Type 0
Meets k [] = ⊥
Meets k (action ∷ actions) = (kind_of action ≡ k) ⊎ Meets k actions

abbrev pub IsFair : List Action → Type 0
IsFair actions = (k : Kind) → Meets k actions

module _ (picture_bytes : ℕ → List ℕ) (settings : Settings) where
  abbrev pub next : Threads → Action → Threads
  next = act picture_bytes settings

  -- Each action of the kind changes the state.
  abbrev pub Moves : Threads → Kind → Type 0
  Moves t acquiring = next t acquires ≢ t
  Moves t encoding_frame = (capture : Capture) → next t (encodes capture) ≢ t
  Moves t queueing_slot = next t queues ≢ t
  Moves t ending = (ends : Bool) → next t (joins ends) ≢ t
  Moves t taking = next t takes ≢ t
  Moves t draining_slot = (drain : Drain) → next t (drains drain) ≢ t
  Moves t freeing_slot = next t frees ≢ t

  pub Moves-next : (t : Threads) (action : Action) → Moves t (kind_of action) → next t action ≢ t
  Moves-next t acquires h = h
  Moves-next t (encodes capture) h = h capture
  Moves-next t queues h = h
  Moves-next t (joins ends) h = h ends
  Moves-next t takes h = h
  Moves-next t (drains drain) h = h drain
  Moves-next t frees h = h

  -- Where `main` is, as a number.
  place : Main → ℕ
  place at_frame = 0
  place encoding = 1
  place queueing = 2
  place joining = 3
  place leaving = 4
  place done = 5
  place failed = 6

  main-apart : (t s : Threads) (m : Main) → t.main ≡ m → place s.main ≢ place m → s ≢ t
  main-apart t s m eq ne e = ne (ap (λ (t : Threads). place t.main) e ∙ ap place eq)

  worker-apart :
      (t s : Threads) (w : Worker) → t.worker ≡ w → worker_left s.worker ≢ worker_left w → s ≢ t
  worker-apart t s w eq ne e = ne (ap (λ (t : Threads). worker_left t.worker) e ∙ ap worker_left eq)

  drained-apart :
      (t : Threads) (i : ℕ) (result : Encoding × Bool)
      → t.worker ≡ draining i
      → drained picture_bytes settings t i result ≢ t
  unfolding drained worker_left
  drained-apart t i (e, true) eq = worker-apart t _ (draining i) eq (omega arith)
  drained-apart t i (e, false) eq = worker-apart t _ (draining i) eq (omega arith)

  encoded-apart :
      (t : Threads) (result : Encoding × Bool)
      → t.main ≡ encoding
      → encoded picture_bytes settings t result ≢ t
  unfolding encoded place
  encoded-apart t (e, true) eq = main-apart t _ encoding eq (omega arith)
  encoded-apart t (e, false) eq = main-apart t _ encoding eq (omega arith)

  pub draining-Moves : (t : Threads) (i : ℕ) → t.worker ≡ draining i → Moves t draining_slot
  unfolding act drain_one
  draining-Moves t i eq drain =
      subst (λ (w : Worker). drain_one picture_bytes settings t w drain ≢ t) (sym eq)
        (drained-apart t i _ eq)

  pub freeing-Moves : (t : Threads) (i : ℕ) → t.worker ≡ freeing i → Moves t freeing_slot
  unfolding act free worker_left
  freeing-Moves t i eq =
      subst (λ (w : Worker). free picture_bytes settings t w ≢ t) (sym eq)
        (worker-apart t _ (freeing i) eq (omega arith))

  pub failing-Moves : (t : Threads) → t.worker ≡ failing → Moves t freeing_slot
  unfolding act free worker_left
  failing-Moves t eq =
      subst (λ (w : Worker). free picture_bytes settings t w ≢ t) (sym eq)
        (worker-apart t _ failing eq (omega arith))

  pub encoding-Moves : (t : Threads) → t.main ≡ encoding → Moves t encoding_frame
  unfolding act encode
  encoding-Moves t eq capture =
      subst (λ (m : Main). encode picture_bytes settings t m capture ≢ t) (sym eq)
        (encoded-apart t _ eq)

  pub queueing-Moves : (t : Threads) → t.main ≡ queueing → Moves t queueing_slot
  unfolding act queue place
  queueing-Moves t eq =
      subst (λ (m : Main). queue picture_bytes settings t m ≢ t) (sym eq)
        (main-apart t _ queueing eq (omega arith))

  joined-apart :
      (t : Threads) (ends : Bool)
      → t.main ≡ joining
      → join_stopped picture_bytes settings t joining ends ≢ t
  unfolding join_stopped place
  joined-apart t ends eq = main-apart t _ joining eq (ground arith)

  pub joining-Moves : (t : Threads) → t.worker ≡ stopped → t.main ≡ joining → Moves t ending
  unfolding act join
  joining-Moves t w eq ends =
      subst (λ (w : Worker). join picture_bytes settings t w ends ≢ t) (sym w)
        (subst (λ (m : Main). join_stopped picture_bytes settings t m ends ≢ t) (sym eq)
          (joined-apart t ends eq))

  pub leaving-Moves : (t : Threads) → t.worker ≡ stopped → t.main ≡ leaving → Moves t ending
  unfolding act join join_stopped place
  leaving-Moves t w eq ends =
      subst (λ (w : Worker). join picture_bytes settings t w ends ≢ t) (sym w)
        (subst (λ (m : Main). join_stopped picture_bytes settings t m ends ≢ t) (sym eq)
          (main-apart t _ leaving eq (omega arith)))

  -- A worker that waits has a slot to drain, or the input has ended.
  taken-apart :
      (t : Threads) (pending : List ℕ)
      → t.worker ≡ idle
      → (pending ≢ []) ⊎ (t.input_done ≡ true)
      → take_pending picture_bytes settings t pending ≢ t
  unfolding take_pending worker_left
  taken-apart t (i ∷ pending) w some = worker-apart t _ idle w (omega arith)
  taken-apart t [] w (inl some) = absurd (some refl)
  taken-apart t [] w (inr over) = worker-apart t _ idle w (ground (arith, over))

  pub taking-Moves :
      (t : Threads)
      → t.worker ≡ idle
      → (t.pending_slots ≢ []) ⊎ (t.input_done ≡ true)
      → Moves t taking
  unfolding act take_slot
  taking-Moves t w some =
      subst (λ (w : Worker). take_slot picture_bytes settings t w ≢ t) (sym w)
        (taken-apart t t.pending_slots w some)

  -- A `main` in front of a frame goes on when its slot is free, or the worker has met an exception.
  acquired-apart :
      (t : Threads)
      → t.main ≡ at_frame
      → (t.slot_in_use (t.frame % 2) ≡ false) ⊎ (t.worker_error ≡ true)
      → acquire picture_bytes settings t at_frame ≢ t
  unfolding acquire place
  acquired-apart t eq (inl unused) = main-apart t _ at_frame eq (ground (arith, unused))
  acquired-apart t eq (inr error) = main-apart t _ at_frame eq (ground (arith, error))

  pub acquiring-Moves :
      (t : Threads)
      → t.main ≡ at_frame
      → (t.slot_in_use (t.frame % 2) ≡ false) ⊎ (t.worker_error ≡ true)
      → Moves t acquiring
  unfolding act
  acquiring-Moves t eq free =
      subst (λ (m : Main). acquire picture_bytes settings t m ≢ t) (sym eq)
        (acquired-apart t eq free)
