-- ===== src/Kms/Schedule/Stamps.antt =====
-- Stamps in the order of their frames, and what happens to a schedule.
use teraguchi.Common.{
  ℕ, ◌+◌, ◌≤◌, ◌<◌, ◌≡◌, subst, inl, inr, Bool, true, false, List, [], ◌∷◌, ◌++◌, Option, some,
  ◌==◌, arith, All, Bool-cases,
}
use teraguchi.Kms.Schedule.{
  SubmitStamp, Schedule, Moment, Verdict, waits, passes, drops, find_stamp,
}

-- What happens to the schedule: the decoder's thread enters the probe, or goes on from its wait, an output
-- is matched, the worker sets a phase, or some thread fails.
pub data Event : Type 0 where
  enters : Moment → Event
  resumes : Moment → Event
  outputs : Option ℕ → Event
  first_phase : ℕ → Event
  steady_phase : ℕ → Event
  fails : Event

-- The schedule, and whether the decoder's thread stands in its wait, with the frame counted last.
pub record Runner : Type 0 where
  pub schedule : Schedule
  pub waiting : Bool

abbrev pub is_waiting : Verdict → Bool
is_waiting waits = true
is_waiting passes = false
is_waiting drops = false

abbrev pub after : Schedule × Verdict → Runner
after (s, verdict) = record { schedule = s; waiting = is_waiting verdict }

-- Frames that increase from one above `low`.
abbrev pub Chain : ℕ → List SubmitStamp → Type 0
Chain low [] = Unit {0}
Chain low (stamp ∷ stamps) = (low < stamp.frame) × Chain stamp.frame stamps

abbrev pub held_back : Bool → ℕ
held_back true = 1
held_back false = 0

-- The stamps that wait for their output are in order, behind the last one that was matched, and in front
-- of a frame that is waiting.
pub record InOrder (low : ℕ) (r : Runner) : Type 0 where
  pub chain : Chain low r.schedule.submit_queue
  pub matched : low + held_back r.waiting ≤ r.schedule.submitted
  pub counted :
      All
        (λ (stamp : SubmitStamp). stamp.frame + held_back r.waiting ≤ r.schedule.submitted)
        r.schedule.submit_queue

pub Chain-weaken : (low high : ℕ) (q : List SubmitStamp) → low ≤ high → Chain high q → Chain low q
Chain-weaken low high [] le c = tt
Chain-weaken low high (stamp ∷ q) le c = (omega (arith, c.0), c.1)

pub Chain-snoc :
    (low : ℕ) (q : List SubmitStamp) (new : SubmitStamp)
    → Chain low q
    → low < new.frame
    → All (λ (stamp : SubmitStamp). stamp.frame < new.frame) q
    → Chain low (q ++ (new ∷ []))
Chain-snoc low [] new c lt all = (lt, tt)
Chain-snoc low (stamp ∷ q) new c lt all = (c.0, Chain-snoc stamp.frame q new c.1 all.0 all.1)

pub All-snoc :
    {A : Type 0} (P : A → Type 0) (xs : List A) (x : A) → All P xs → P x → All P (xs ++ (x ∷ []))
All-snoc P [] x a p = (p, tt)
All-snoc P (y ∷ xs) x a p = (a.0, All-snoc P xs x a.1 p)

pub All_imp :
    {A : Type 0} (P Q : A → Type 0) (xs : List A) → ((x : A) → P x → Q x) → All P xs → All Q xs
All_imp P Q [] f a = tt
All_imp P Q (x ∷ xs) f a = (f x a.0, All_imp P Q xs f a.1)

abbrev pub Found : ℕ → ℕ → ℕ → SubmitStamp × List SubmitStamp → Type 0
Found w bound low (stamp, rest) =
    (low < stamp.frame)
    × (stamp.frame + w ≤ bound)
    × Chain stamp.frame rest
    × All (λ (s : SubmitStamp). s.frame + w ≤ bound) rest

some_pair : (a b : SubmitStamp × List SubmitStamp) → some a ≡ some b → a ≡ b
some_pair a b e = cc

-- A stamp that was found is above all that were matched before, and below all that stay.
pub find_stamp-Chain :
    (w bound low pts : ℕ) (q : List SubmitStamp) (stamp : SubmitStamp) (rest : List SubmitStamp)
    → Chain low q
    → All (λ (s : SubmitStamp). s.frame + w ≤ bound) q
    → find_stamp pts q ≡ some (stamp, rest)
    → Found w bound low (stamp, rest)
unfolding find_stamp
find_stamp-Chain w bound low pts [] stamp rest c a e = cc
find_stamp-Chain w bound low pts (first ∷ q) stamp rest c a e =
    elim (Bool-cases (first.pts == pts)) [
      | inl here ↦
          subst (Found w bound low) (some_pair (first, q) (stamp, rest) (rw here at e))
            (c.0, a.0, c.1, a.1)
      | inr later ↦
          find_stamp-Chain w bound low pts q stamp rest
            (Chain-weaken low first.frame q (omega (arith, c.0)) c.1) a.1 (rw later at e)
    ]
