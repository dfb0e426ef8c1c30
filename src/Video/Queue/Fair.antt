-- ===== src/Video/Queue/Fair.antt =====
-- Schedules of rounds in which every kind of action has a turn.
use mathlib.Core.List.{flatten}
use teraguchi.Common.{
  ℕ, ◌+◌, ◌-◌, ◌*◌, ◌≤◌, ◌<◌, ◌≡◌, refl, sym, ap, subst, ◌⊎◌, inl, inr, true, false, List, [], ◌∷◌,
  ◌++◌, length, arith, Bool-cases, All,
}
use teraguchi.Video.Encoder.{Settings}
use teraguchi.Video.Queue.{
  Main, at_frame, encoding, queueing, joining, leaving, done, failed, Threads, Action, act, run,
  start,
}
use teraguchi.Video.Queue.Order.{Fate}
use teraguchi.Video.Queue.Reach.{run-Fate, start-Fate}
use teraguchi.Video.Queue.Left.{main_left, worker_left, left_over, is_over, Placed, Goes}
use teraguchi.Video.Queue.Progress.{act-Goes}
use teraguchi.Video.Queue.Moves.{Kind, kind_of, Moves, Moves-next}
use teraguchi.Video.Queue.CanMove.{going-CanMove}

-- An action of the kind is in the round.
abbrev pub Meets : Kind → List Action → Type 0
Meets k [] = ⊥
Meets k (action ∷ actions) = (kind_of action ≡ k) ⊎ Meets k actions

abbrev pub IsFair : List Action → Type 0
IsFair actions = (k : Kind) → Meets k actions

module _ (picture_bytes : ℕ → List ℕ) (settings : Settings) where
  abbrev At : Threads → Type 0
  At t = Placed picture_bytes settings t.main t.frame t.input_done

  -- A sequence of actions keeps the place, stays over, and leaves no more.
  record Ran (t next : Threads) : Type 0 where
    placed : At next
    over : is_over t.main ≡ true → is_over next.main ≡ true
    less : left_over picture_bytes settings next ≤ left_over picture_bytes settings t

  no_more :
      {t next : Threads}
      → (next ≡ t) ⊎ (left_over picture_bytes settings next < left_over picture_bytes settings t)
      → left_over picture_bytes settings next ≤ left_over picture_bytes settings t
  no_more (inl e) = omega (arith, ap (left_over picture_bytes settings) e)
  no_more (inr lt) = omega (arith, lt)

  run-Ran :
      (actions : List Action) (t : Threads) → At t → Ran t (run picture_bytes settings t actions)
  unfolding run
  run-Ran [] t p = record { placed = p; over = λ o. o; less = omega arith }
  run-Ran (action ∷ actions) t p =
      go (act-Goes picture_bytes settings t action p)
        (run-Ran actions _ (act-Goes picture_bytes settings t action p).placed)
    where
      go :
          Goes picture_bytes settings t (act picture_bytes settings t action)
          → Ran
              (act picture_bytes settings t action)
              (run picture_bytes settings (act picture_bytes settings t action) actions)
          → Ran t (run picture_bytes settings (act picture_bytes settings t action) actions)
      go g rest = record {
        placed = rest.placed;
        over = λ o. rest.over (g.over o);
        less = omega (arith, rest.less, no_more g.less);
      }

  -- A round with an action that changes the state leaves less.
  Meets-left_over :
      (actions : List Action) (t : Threads) (k : Kind)
      → At t
      → Moves picture_bytes settings t k
      → Meets k actions
      → left_over picture_bytes settings (run picture_bytes settings t actions)
        < left_over picture_bytes settings t
  unfolding run
  Meets-left_over [] t k p m i = elim i [ ]
  Meets-left_over (action ∷ actions) t k p m i = go i g.less (Meets-left_over actions t k p m)
    where
      g : Goes picture_bytes settings t (act picture_bytes settings t action)
      g = act-Goes picture_bytes settings t action p

      go :
          Meets k (action ∷ actions)
          → (act picture_bytes settings t action ≡ t)
            ⊎ (left_over picture_bytes settings (act picture_bytes settings t action)
                < left_over picture_bytes settings t)
          → (Meets k actions
              → left_over picture_bytes settings (run picture_bytes settings t actions)
                < left_over picture_bytes settings t)
          → left_over picture_bytes settings
              (run picture_bytes settings (act picture_bytes settings t action) actions)
            < left_over picture_bytes settings t
      go i (inr lt) rest =
          omega (arith, lt, (run-Ran actions (act picture_bytes settings t action) g.placed).less)
      go (inl e) (inl same) rest = absurd (
          Moves-next picture_bytes settings t action
            (subst (Moves picture_bytes settings t) (sym e) m) same)
      go (inr i) (inl same) rest =
          subst
            (λ (s : Threads).
              left_over picture_bytes settings (run picture_bytes settings s actions)
              < left_over picture_bytes settings t)
            (sym same) (rest i)

  fair_less :
      (actions : List Action) (t : Threads)
      → Fate picture_bytes settings t
      → At t
      → IsFair actions
      → is_over t.main ≡ false
      → left_over picture_bytes settings (run picture_bytes settings t actions)
        < left_over picture_bytes settings t
  fair_less actions t f p fair o =
      let (k, m) = going-CanMove picture_bytes settings t f o p in
      Meets-left_over actions t k p m (fair k)

  run-append :
      (actions more : List Action) (t : Threads)
      → run picture_bytes settings t (actions ++ more)
        ≡ run picture_bytes settings (run picture_bytes settings t actions) more
  unfolding run
  run-append [] more t = refl
  run-append (action ∷ actions) more t = run-append actions more _

  none_left :
      (t : Threads) (m : Main)
      → t.main ≡ m
      → Placed picture_bytes settings m t.frame t.input_done
      → left_over picture_bytes settings t ≤ 0
      → is_over m ≡ true
  unfolding left_over main_left
  none_left t at_frame eq p le =
      absurd (omega (arith, le, ap (main_left (settings.frame_count - t.frame)) eq))
  none_left t encoding eq p le =
      absurd (omega (arith, le, ap (main_left (settings.frame_count - t.frame)) eq))
  none_left t queueing eq p le =
      absurd (omega (arith, le, p, ap (main_left (settings.frame_count - t.frame)) eq))
  none_left t joining eq p le =
      absurd (omega (arith, le, ap (main_left (settings.frame_count - t.frame)) eq))
  none_left t leaving eq p le =
      absurd (omega (arith, le, ap (main_left (settings.frame_count - t.frame)) eq))
  none_left t done eq p le = refl
  none_left t failed eq p le = refl

  rounds_over :
      (rounds : List (List Action)) (t : Threads)
      → Fate picture_bytes settings t
      → At t
      → All IsFair rounds
      → left_over picture_bytes settings t ≤ length rounds
      → is_over (run picture_bytes settings t (flatten rounds)).main ≡ true
  unfolding flatten run
  rounds_over [] t f p fair le = none_left t t.main refl p le
  rounds_over (actions ∷ rounds) t f p fair le =
      subst (λ (s : Threads). is_over s.main ≡ true) (sym (run-append actions (flatten rounds) t))
        (elim (Bool-cases (is_over t.main)) [
          | inl o ↦ (run-Ran (flatten rounds) _ r.placed).over (r.over o)
          | inr o ↦
              rounds_over rounds _ (run-Fate picture_bytes settings actions t f) r.placed fair.1
                (omega (arith, le, fair_less actions t f p fair.0 o))
        ])
    where
      r : Ran t (run picture_bytes settings t actions)
      r = run-Ran actions t p

  -- Under every schedule of rounds in which each kind of action has a turn, whatever the calls answer and in whatever
  -- order a round has them, the two threads have come to an end, done or failed, after six rounds for
  -- each frame and three.
  pub fair_run-is_over :
      (rounds : List (List Action))
      → All IsFair rounds
      → 6 * settings.frame_count + 3 ≤ length rounds
      → is_over (run picture_bytes settings start (flatten rounds)).main ≡ true
  unfolding left_over main_left worker_left
  fair_run-is_over rounds fair enough =
      rounds_over rounds start (start-Fate picture_bytes settings) tt fair (omega (arith, enough))
