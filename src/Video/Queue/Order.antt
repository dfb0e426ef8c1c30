-- ===== src/Video/Queue/Order.antt =====
-- The slots in use and the frames that they hold, in every state before an exception.
use teraguchi.Common.{
  ℕ, zero, suc, ◌+◌, ◌-◌, ◌%◌, ◌≤◌, ◌<◌, ◌≡◌, refl, ap, ◌∙◌, Bool, true, false, List, [], ◌∷◌, ◌++◌,
  if◌then◌else◌, arith,
}
use teraguchi.Video.Encoder.{Settings}
use teraguchi.Video.Encoder.Output.{Written, Flagged}
use teraguchi.Video.Queue.{
  Main, at_frame, encoding, queueing, joining, leaving, done, failed, Worker, idle, draining,
  freeing, failing, stopped, Threads,
}

-- The slots of `n` frames from `k` on.
abbrev pub slots_from : ℕ → ℕ → List ℕ
slots_from k zero = []
slots_from k (suc n) = k % 2 ∷ slots_from (suc k) n

pub slots_from-snoc : (n k : ℕ) → slots_from k n ++ ((k + n) % 2 ∷ []) ≡ slots_from k (suc n)
slots_from-snoc zero k = ap (λ (i : ℕ). i % 2 ∷ []) (omega arith)
slots_from-snoc (suc n) k =
    ap (λ (xs : List ℕ). k % 2 ∷ xs)
      (ap (λ (i : ℕ). slots_from (suc k) n ++ (i % 2 ∷ [])) (omega arith)
        ∙ slots_from-snoc n (suc k))

pub slots_from-empty : (n k : ℕ) → [] ≡ slots_from k n → n ≡ 0
slots_from-empty zero k e = refl
slots_from-empty (suc n) k e = absurd (ground (arith, e))

-- The first slot of those that wait.
pub slots_from-first :
    (n k i : ℕ) (rest : List ℕ)
    → i ∷ rest ≡ slots_from k n
    → (1 ≤ n) × (i ≡ k % 2) × (rest ≡ slots_from (suc k) (n - 1))
slots_from-first zero k i rest e = absurd (ground (arith, e))
slots_from-first (suc n) k i rest e =
    (omega arith, cc e, tail ∙ ap (slots_from (suc k)) (omega arith))
  where
    tail : rest ≡ slots_from (suc k) n
    tail = cc e

-- Where the worker is when `frame` frames were queued, `taken` taken, `written` written and `freed` freed.
abbrev pub AtWorker : ℕ → Bool → Worker → ℕ → ℕ → ℕ → Type 0
AtWorker frame input_done idle taken written freed = (written ≡ taken) × (freed ≡ taken)
AtWorker frame input_done (draining i) taken written freed =
    (taken ≡ suc written) × (freed ≡ written) × (i ≡ written % 2)
AtWorker frame input_done (freeing i) taken written freed =
    (written ≡ taken) × (taken ≡ suc freed) × (i ≡ freed % 2)
AtWorker frame input_done failing taken written freed = ⊥
AtWorker frame input_done stopped taken written freed =
    (written ≡ taken) × (freed ≡ taken) × (taken ≡ frame) × (input_done ≡ true)

-- How many frames were encoded when `frame` were queued.
abbrev pub encoded_at : Main → ℕ → ℕ
encoded_at queueing frame = suc frame
encoded_at at_frame frame = frame
encoded_at encoding frame = frame
encoded_at joining frame = frame
encoded_at leaving frame = frame
encoded_at done frame = frame
encoded_at failed frame = frame

-- Where `main` is when `freed` slots are free again; `picture` is that of the slot of the next frame.
abbrev pub AtMain : ℕ → ℕ → Bool → ℕ → Main → ℕ → Type 0
AtMain count frame input_done picture at_frame freed = input_done ≡ false
AtMain count frame input_done picture encoding freed =
    (input_done ≡ false) × (frame < count) × (frame < freed + 2)
AtMain count frame input_done picture queueing freed =
    (input_done ≡ false) × (frame < count) × (frame < freed + 2) × (picture ≡ suc frame)
AtMain count frame input_done picture joining freed = frame ≡ count
AtMain count frame input_done picture leaving freed = ⊥
AtMain count frame input_done picture done freed = (frame ≡ count) × (freed ≡ frame)
AtMain count frame input_done picture failed freed = ⊥

pub AtMain-freed :
    (m : Main) (count frame : ℕ) (input_done : Bool) (picture next freed more : ℕ)
    → freed ≤ more
    → more ≤ frame
    → next ≡ picture
    → AtMain count frame input_done picture m freed
    → AtMain count frame input_done next m more
AtMain-freed at_frame count frame input_done picture next freed more le up e h = h
AtMain-freed encoding count frame input_done picture next freed more le up e h =
    (h.0, h.1, omega (arith, h.2, le))
AtMain-freed queueing count frame input_done picture next freed more le up e h =
    (h.0, h.1, omega (arith, h.2, le), e ∙ h.3)
AtMain-freed leaving count frame input_done picture next freed more le up e h = elim h [ ]
AtMain-freed failed count frame input_done picture next freed more le up e h = elim h [ ]
AtMain-freed joining count frame input_done picture next freed more le up e h = h
AtMain-freed done count frame input_done picture next freed more le up e h =
    (h.0, omega (arith, h.1, le, up))

pub AtWorker-going :
    (w : Worker) (frame next : ℕ) (input_done : Bool) (taken written freed : ℕ)
    → input_done ≡ false
    → AtWorker frame input_done w taken written freed
    → AtWorker next input_done w taken written freed
AtWorker-going idle frame next input_done taken written freed e h = h
AtWorker-going (draining i) frame next input_done taken written freed e h = h
AtWorker-going (freeing i) frame next input_done taken written freed e h = h
AtWorker-going failing frame next input_done taken written freed e h = elim h [ ]
AtWorker-going stopped frame next input_done taken written freed e h =
    absurd (ground (arith, e, h.3))

pub AtWorker-done :
    (w : Worker) (frame : ℕ) (input_done : Bool) (taken written freed : ℕ)
    → AtWorker frame input_done w taken written freed
    → AtWorker frame true w taken written freed
AtWorker-done idle frame input_done taken written freed h = h
AtWorker-done (draining i) frame input_done taken written freed h = h
AtWorker-done (freeing i) frame input_done taken written freed h = h
AtWorker-done failing frame input_done taken written freed h = elim h [ ]
AtWorker-done stopped frame input_done taken written freed h = (h.0, h.1, h.2, refl)

-- The worker's numbers in order.
pub AtWorker-le :
    (w : Worker) (frame : ℕ) (input_done : Bool) (taken written freed : ℕ)
    → AtWorker frame input_done w taken written freed
    → (freed ≤ written) × (written ≤ taken)
AtWorker-le idle frame input_done taken written freed h = omega (arith, h.0, h.1)
AtWorker-le (draining i) frame input_done taken written freed h = omega (arith, h.0, h.1)
AtWorker-le (freeing i) frame input_done taken written freed h = omega (arith, h.0, h.1)
AtWorker-le failing frame input_done taken written freed h = elim h [ ]
AtWorker-le stopped frame input_done taken written freed h = omega (arith, h.0, h.1)

-- An exception of `main`, or one of the worker that `main` has not missed.
unfoldable pub breaks : Main → Bool → Bool
breaks at_frame worker_failed = worker_failed
breaks encoding worker_failed = worker_failed
breaks queueing worker_failed = worker_failed
breaks joining worker_failed = worker_failed
breaks leaving worker_failed = true
breaks done worker_failed = false
breaks failed worker_failed = true

pub breaks_more :
    (m : Main) (worker_failed : Bool) → breaks m false ≡ true → breaks m worker_failed ≡ true
unfolding breaks
breaks_more leaving worker_failed h = refl
breaks_more failed worker_failed h = refl
breaks_more at_frame worker_failed h = absurd (ground (arith, h))
breaks_more encoding worker_failed h = absurd (ground (arith, h))
breaks_more queueing worker_failed h = absurd (ground (arith, h))
breaks_more joining worker_failed h = absurd (ground (arith, h))
breaks_more done worker_failed h = absurd (ground (arith, h))

pub AtMain-breaks :
    (m : Main) (count frame : ℕ) (input_done : Bool) (picture freed : ℕ)
    → AtMain count frame input_done picture m freed
    → freed < frame
    → breaks m true ≡ true
unfolding breaks
AtMain-breaks at_frame count frame input_done picture freed h lt = refl
AtMain-breaks encoding count frame input_done picture freed h lt = refl
AtMain-breaks queueing count frame input_done picture freed h lt = refl
AtMain-breaks joining count frame input_done picture freed h lt = refl
AtMain-breaks leaving count frame input_done picture freed h lt = refl
AtMain-breaks failed count frame input_done picture freed h lt = refl
AtMain-breaks done count frame input_done picture freed h lt = absurd (omega (arith, h.1, lt))

unfoldable pub has_failed : Worker → Bool → Bool
has_failed idle worker_error = false
has_failed (draining i) worker_error = false
has_failed (freeing i) worker_error = false
has_failed failing worker_error = true
has_failed stopped worker_error = worker_error

unfoldable pub is_broken : Threads → Bool
is_broken t = breaks t.main (has_failed t.worker t.worker_error)

module _ (picture_bytes : ℕ → List ℕ) (settings : Settings) where
  pub record Healthy (t : Threads) (taken written freed : ℕ) : Type 0 where
    pub worker : AtWorker t.frame t.input_done t.worker taken written freed
    pub main :
        AtMain settings.frame_count t.frame t.input_done
          (t.encoding.slots (t.frame % 2)).picture
          t.main
          freed
    pub taken_le : taken ≤ t.frame
    pub full : t.frame ≤ freed + 2
    pub within : t.frame ≤ settings.frame_count
    pub pending : t.pending_slots ≡ slots_from taken (t.frame - taken)
    pub used : (k : ℕ) → freed ≤ k → k < t.frame → t.slot_in_use (k % 2) ≡ true
    pub unused : (k : ℕ) → t.frame ≤ k → k < freed + 2 → t.slot_in_use (k % 2) ≡ false
    pub pictures : (k : ℕ) → written ≤ k → k < t.frame → (t.encoding.slots (k % 2)).picture ≡ suc k
    pub output : Written picture_bytes settings t.encoding written
    pub flagged : Flagged picture_bytes settings t.encoding (encoded_at t.main t.frame)
    pub no_error : t.worker_error ≡ false

  pub data Fate (t : Threads) : Type 0 where
    broken : is_broken t ≡ true → Fate t
    healthy : (taken written freed : ℕ) → Healthy t taken written freed → Fate t

  pub branch :
      (c : Bool) (a b : Threads)
      → (c ≡ true → Fate a)
      → (c ≡ false → Fate b)
      → Fate (if c then a else b)
  branch true a b p q = p refl
  branch false a b p q = q refl
