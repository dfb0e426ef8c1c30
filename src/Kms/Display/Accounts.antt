-- ===== src/Kms/Display/Accounts.antt =====
-- Samples are released once each, and the statistics count the flips.
use teraguchi.Common.{
  ℕ, ◌+◌, ◌≡◌, refl, sym, ap, ◌∙◌, subst, inl, inr, Bool, true, false, List, [], ◌∷◌, Option, none,
  some, length, ltb, ◌==◌, if◌then◌else◌, arith, Bool-cases, length-append,
}
use teraguchi.Kms.Framebuffers.{Strtoull, SampleInfo, create_frame}
use teraguchi.Kms.Schedule.{SubmitStamp}
use teraguchi.Kms.Display.{
  Stats, Frame, Display, Screen, wait_for_flip, release, release_frame, show_first, note_flip,
  note_interval, note_target, present, show_flip, show_next, show_created, is_stale, display_sample,
}

-- How often a sample stands in a list, and whether it is shown.
abbrev pub times : ℕ → List ℕ → ℕ
times x [] = 0
times x (y ∷ ys) = (if y == x then 1 else 0) + times x ys

abbrev pub is_shown : ℕ → Option Frame → ℕ
is_shown x none = 0
is_shown x (some frame) = if frame.sample == x then 1 else 0

abbrev pub owned : ℕ → Display → ℕ
owned x d = is_shown x d.current + times x d.released

abbrev pub showing : Option Frame → ℕ
showing none = 0
showing (some frame) = 1

-- The flips and the first frame are the frames displayed.
pub record Counted (d : Display) : Type 0 where
  pub displayed : d.displayed ≡ length d.stats.submit_to_present + showing d.current

-- What a call does: it takes the sample over, and keeps the counts.
pub record Accounted (x sample : ℕ) (before : Display) (result : Display × Bool) : Type 0 where
  pub once : owned x result.0 ≡ (if sample == x then 1 else 0) + owned x before
  pub counted : Counted before → Counted result.0

note_interval_same :
    (s : Stats) (previous time : ℕ)
    → (note_interval s previous time).submit_to_present ≡ s.submit_to_present
unfolding note_interval
note_interval_same s previous time = elim (Bool-cases (previous == 0)) [
  | inl first ↦ rw first refl
  | inr later ↦ rw later refl
]

note_target_same :
    (s : Stats) (submit : SubmitStamp) (surface started previous time : ℕ)
    → (note_target s submit surface started previous time).submit_to_present ≡ s.submit_to_present
unfolding note_target
note_target_same s submit surface started previous time =
    elim (Bool-cases (submit.target_ns == 0)) [
      | inl unplanned ↦ rw unplanned refl
      | inr planned ↦ rw planned refl
    ]

present_counts :
    (d : Display) (next : Frame) (submit : SubmitStamp) (surface : ℕ) (screen : Screen) (time : ℕ)
    → length (present d next submit surface screen time).stats.submit_to_present
      ≡ length d.stats.submit_to_present + 1
unfolding present note_flip
present_counts d next submit surface screen time =
    ap length (
      note_target_same
        (note_interval (note_flip d.stats submit surface screen time) d.last_present_ns time) submit
        surface screen.worker_started d.last_present_ns time
      ∙ note_interval_same (note_flip d.stats submit surface screen time) d.last_present_ns time)
    ∙ length-append d.stats.submit_to_present _

-- A call that only releases its sample.
released-Accounted :
    (x sample : ℕ) (before d : Display) (ok : Bool)
    → d.current ≡ before.current
    → d.released ≡ sample ∷ before.released
    → d.displayed ≡ before.displayed
    → d.stats ≡ before.stats
    → Accounted x sample before (d, ok)
released-Accounted x sample before d ok c r n s = record {
  once = omega (arith, ap (is_shown x) c, ap (times x) r);
  counted = λ b. record {
    displayed =
        omega
          (arith, n, ap (λ (t : Stats). length t.submit_to_present) s, ap showing c, b.displayed);
  };
}

show_first-Accounted :
    (x : ℕ) (d : Display) (next : Frame) (sets : Bool) (vblank : Option (ℕ × ℕ))
    → d.current ≡ none
    → Accounted x next.sample d (show_first d next sets vblank)
unfolding show_first release
show_first-Accounted x d next false vblank e =
    released-Accounted x next.sample d _ false refl refl refl refl
show_first-Accounted x d next true none e =
    released-Accounted x next.sample d _ false refl refl refl refl
show_first-Accounted x d next true (some (seconds, microseconds)) e = record {
  once = omega (arith, ap (is_shown x) e);
  counted = λ b. record { displayed = omega (arith, b.displayed, ap showing e) };
}

-- The flip releases the frame that was shown before.
presented-Accounted :
    (x : ℕ) (d : Display) (current next : Frame) (submit : SubmitStamp) (surface : ℕ)
    (screen : Screen) (time : ℕ)
    → d.current ≡ some current
    → Accounted x next.sample d
        (present (release d current.sample) next submit surface screen time, true)
unfolding present release
presented-Accounted x d current next submit surface screen time e = record {
  once = omega (arith, ap (is_shown x) e);
  counted = λ b. record {
    displayed = omega (
      arith,
      b.displayed,
      ap showing e,
      present_counts (release d current.sample) next submit surface screen time,
    );
  };
}

show_flip-Accounted :
    (x : ℕ) (d : Display) (current next : Frame) (submit : SubmitStamp) (surface : ℕ)
    (screen : Screen) (time : Option ℕ)
    → d.current ≡ some current
    → Accounted x next.sample d (show_flip d next submit surface screen time)
unfolding show_flip release_frame
show_flip-Accounted x d current next submit surface screen none e =
    released-Accounted x next.sample d _ false refl refl refl refl
show_flip-Accounted x d current next submit surface screen (some time) e =
    elim (Bool-cases (ltb time submit.submitted_ns)) [
      | inl early ↦ rw early (released-Accounted x next.sample d _ false refl refl refl refl)
      | inr fine ↦ rw fine (
          subst
            (λ (c : Option Frame).
              Accounted x next.sample d
                (present (release_frame d c) next submit surface screen time, true))
            (sym e) (presented-Accounted x d current next submit surface screen time e))
    ]

show_created-Accounted :
    (x sample : ℕ) (d : Display) (submit : SubmitStamp) (surface : ℕ) (screen : Screen)
    (framebuffer : Option ℕ)
    → Accounted x sample d (show_created d sample submit surface screen framebuffer)
unfolding show_created show_next release
show_created-Accounted x sample d submit surface screen none =
    released-Accounted x sample d _ false refl refl refl refl
show_created-Accounted x sample d submit surface screen (some framebuffer) =
    by_current d.current refl
  where
    next : Frame
    next = record { sample = sample; framebuffer = framebuffer }

    by_current :
        (c : Option Frame)
        → d.current ≡ c
        → Accounted x sample d (show_next d c next submit surface screen)
    by_current none e = show_first-Accounted x d next screen.sets_crtc screen.vblank e
    by_current (some current) e =
        show_flip-Accounted x d current next submit surface screen
          (if screen.queues_flip then wait_for_flip screen.polls else none) e

-- A call of `display_sample`, whether it succeeds or not, takes over one reference to its sample: the frame
-- shown and the releases together hold each sample as often as before, and this sample once more. The
-- frames displayed stay one more than the flips that were measured, once a frame is shown.
pub display_sample-Accounted :
    (strtoull : Strtoull) (hdisplay vdisplay : ℕ) (x sample : ℕ) (d : Display) (info : SampleInfo)
    (submit : SubmitStamp) (surface : ℕ) (screen : Screen)
    → Accounted x sample d
        (display_sample strtoull hdisplay vdisplay d sample info submit surface screen)
unfolding display_sample release
display_sample-Accounted strtoull hdisplay vdisplay x sample d info submit surface screen =
    let (cache, framebuffer) =
      create_frame strtoull hdisplay vdisplay d.cache info screen.answers in
    let shown =
      show_created-Accounted x sample (record d { cache = cache }) submit surface screen
        framebuffer in
    elim (Bool-cases (is_stale d.current submit.target_ns d.latest_present_ns)) [
      | inl stale ↦ rw stale (released-Accounted x sample d _ true refl refl refl refl)
      | inr timely ↦ rw timely (record {
        once = shown.once;
        counted = λ b. shown.counted (record { displayed = b.displayed });
      })
    ]
