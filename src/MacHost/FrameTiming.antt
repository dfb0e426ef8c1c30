-- ===== src/MacHost/FrameTiming.antt =====
-- apps/host/macos/media/frame-timing.h: the bounded trace of captured frames.
mod Tests
use teraguchi.Common.{
  ℕ, zero, suc, ◌+◌, ◌-◌, ◌≤◌, ◌<◌, ◌≡◌, refl, Bool, true, false, ◌||◌, List, [], ◌∷◌, ◌++◌, Option,
  none, some, length, ltb, leb, ◌==◌, if◌then◌else◌, arith, All, Bool-cases, inl, inr,
  length-append, ap, sym, ◌∙◌,
}

-- `PLANK_FRAME_TIMING_CAPACITY` and `PLANK_FRAME_TIMING_DURATION_NS`
abbrev pub capacity : ℕ
capacity = 8192

abbrev pub duration : ℕ
duration = 120000000000

-- The capture times of the records in use, oldest first.
pub record Trace : Type 0 where
  pub origin : ℕ
  pub captures : List ℕ

-- The trace after a call, and the index of the record that the caller gets to fill in.
unfoldable pub append_unless : Bool → Trace → ℕ → Option Trace × Option ℕ
append_unless true trace now = (some trace, none)
append_unless false trace now =
    (some (record trace { captures = trace.captures ++ (now ∷ []) }), some (length trace.captures))

-- `none` is a NULL trace.
unfoldable pub append : Option Trace → ℕ → Option Trace × Option ℕ
append none now = (none, none)
append (some trace) now =
    append_unless
      (ltb now trace.origin
        || leb duration (now - trace.origin)
        || length trace.captures == capacity)
      trace now

-- The trace after calls at some times.
unfoldable pub append_all : Option Trace → List ℕ → Option Trace
append_all trace [] = trace
append_all trace (now ∷ times) = append_all (append trace now).0 times

abbrev pub InTime : ℕ → ℕ → Type 0
InTime origin t = (origin ≤ t) × (t < origin + duration)

pub record Bounded (trace : Trace) : Type 0 where
  pub fits : length trace.captures ≤ capacity
  pub in_time : All (InTime trace.origin) trace.captures

All-snoc :
    {A : Type 0} (P : A → Type 0) (xs : List A) (x : A) → All P xs → P x → All P (xs ++ (x ∷ []))
All-snoc P [] x a p = (p, tt)
All-snoc P (y ∷ xs) x a p = (a.0, All-snoc P xs x a.1 p)

-- What a call leaves, where its time is refused or not.
kept_or_added :
    (refuses : Bool) (trace : Trace) (now : ℕ)
    → (refuses ≡ false → InTime trace.origin now × (length trace.captures < capacity))
    → Bounded trace
    → (next : Trace) × ((append_unless refuses trace now).0 ≡ some next)
      × (next.origin ≡ trace.origin)
      × Bounded next
unfolding append_unless
kept_or_added true trace now ok b = (trace, refl, refl, b)
kept_or_added false trace now ok b =
    let (time, room) = ok refl in
    (
      record trace { captures = trace.captures ++ (now ∷ []) },
      refl,
      refl,
      record {
        fits = omega (arith, length-append trace.captures (now ∷ []));
        in_time = All-snoc (InTime trace.origin) trace.captures now b.in_time time;
      },
    )

append-Bounded :
    (trace : Trace) (now : ℕ)
    → Bounded trace
    → (next : Trace) × ((append (some trace) now).0 ≡ some next)
      × (next.origin ≡ trace.origin)
      × Bounded next
unfolding append
append-Bounded trace now b =
    kept_or_added
      (ltb now trace.origin
        || leb duration (now - trace.origin)
        || length trace.captures == capacity)
      trace now (λ ok. ((ground arith, ground arith), ground (arith, b.fits))) b

-- However often and whenever frames are captured, a trace holds at most 8192 records, each of the first
-- two minutes from its origin, which stays as it was.
pub append_all-Bounded :
    (times : List ℕ) (trace : Trace)
    → Bounded trace
    → (last : Trace) × (append_all (some trace) times ≡ some last)
      × (last.origin ≡ trace.origin)
      × Bounded last
unfolding append_all
append_all-Bounded [] trace b = (trace, refl, refl, b)
append_all-Bounded (now ∷ times) trace b =
    let (next, step, same, kept) = append-Bounded trace now b in
    let (last, rest, still, bounded) = append_all-Bounded times next kept in
    (last, ap (λ (t : Option Trace). append_all t times) step ∙ rest, still ∙ same, bounded)
