-- ===== src/Kms/Display.antt =====
-- The showing of a sample: `wait_for_flip`, `establish_phase`, `release_frame` and `display_sample`. A
-- sample is a number, its contents are given with the call, as are the clock and the answers of libdrm.
-- The statistics are kept in nanoseconds, which the code divides by a million.
pub mod Accounts
use teraguchi.Common.Differences.{ℤ, sub_ℕ, sub_u64}
use teraguchi.Common.{
  ℕ, zero, suc, ◌+◌, ◌-◌, ◌*◌, ◌%◌, ◌^◌, Bool, true, false, not, ◌||◌, ◌&&◌, List, [], ◌∷◌, ◌++◌,
  Option, none, some, ltb, leb, ◌==◌, ◌!=◌, if◌then◌else◌,
}
use teraguchi.Kms.Framebuffers.{Strtoull, Cache, SampleInfo, Answers, create_frame}
use teraguchi.Kms.Schedule.{SubmitStamp}

-- What a round of the loop on the file of events meets: an interruption of the poll, its failure or that
-- of the handler, events that are no flip, or the flip with its time.
pub data PollStep : Type 0 where
  interrupted : PollStep
  fails : PollStep
  handles : PollStep
  flips : ℕ → ℕ → PollStep

abbrev pub event_time : ℕ → ℕ → ℕ
event_time seconds microseconds = seconds * 1000000000 + microseconds * 1000

-- The time of the flip, where there is one; the loop ends where the list does.
unfoldable pub wait_for_flip : List PollStep → Option ℕ
wait_for_flip [] = none
wait_for_flip (interrupted ∷ steps) = wait_for_flip steps
wait_for_flip (fails ∷ steps) = none
wait_for_flip (handles ∷ steps) = wait_for_flip steps
wait_for_flip (flips seconds microseconds ∷ steps) = some (event_time seconds microseconds)

pub record Stats : Type 0 where
  pub decode : List ℕ
  pub surface_to_flip : List ℕ
  pub surface_to_worker : List ℕ
  pub framebuffer_lookup : List ℕ
  pub flip_event_delivery : List ℤ
  pub submit_to_present : List ℕ
  pub presentation_interval : List ℕ
  pub flip_vs_target : List ℤ
  pub surface_vs_target : List ℤ
  pub worker_vs_target : List ℤ
  pub previous_present_vs_target : List ℤ

pub record Frame : Type 0 where
  pub sample : ℕ
  pub framebuffer : ℕ

-- The fields of `State` that the worker reads and writes; `released` are the samples that were unreferenced.
pub record Display : Type 0 where
  pub refresh_ns : ℕ
  pub current : Option Frame
  pub latest_present_ns : ℕ
  pub first_present_ns : ℕ
  pub last_present_ns : ℕ
  pub first_target_ns : ℕ
  pub steady_first_target_ns : ℕ
  pub phase_ready : Bool
  pub steady_phase_ready : Bool
  pub stale_frames_dropped : ℕ
  pub displayed : ℕ
  pub cache : Cache
  pub stats : Stats
  pub released : List ℕ

-- The clock at its four readings, what the kernel answers to `create_frame`, whether the CRTC can be set,
-- the time of the next vertical blank, whether the flip is queued, and the rounds of its wait.
pub record Screen : Type 0 where
  pub worker_started : ℕ
  pub framebuffer_ready : ℕ
  pub flip_queued : ℕ
  pub delivered : ℕ
  pub answers : Answers
  pub sets_crtc : Bool
  pub vblank : Option (ℕ × ℕ)
  pub queues_flip : Bool
  pub polls : List PollStep

unfoldable pub release : Display → ℕ → Display
release d sample = record d { released = sample ∷ d.released }

unfoldable pub release_frame : Display → Option Frame → Display
unfolding release
release_frame d none = d
release_frame d (some frame) = release d frame.sample

-- The first frame: its mode is set and the phase is established.
unfoldable pub show_first : Display → Frame → Bool → Option (ℕ × ℕ) → Display × Bool
unfolding release
show_first d next false vblank = (release d next.sample, false)
show_first d next true none = (release d next.sample, false)
show_first d next true (some (seconds, microseconds)) = (
  record d {
    first_target_ns = (event_time seconds microseconds + 120 * d.refresh_ns) % 2 ^ 64;
    current = some next;
    displayed = d.displayed + 1;
    phase_ready = true;
  },
  true,
)

unfoldable pub note_flip : Stats → SubmitStamp → ℕ → Screen → ℕ → Stats
note_flip s submit surface screen time = record s {
  decode = s.decode ++ (sub_u64 surface submit.submitted_ns ∷ []);
  surface_to_flip = s.surface_to_flip ++ (sub_u64 screen.flip_queued surface ∷ []);
  surface_to_worker = s.surface_to_worker ++ (sub_u64 screen.worker_started surface ∷ []);
  framebuffer_lookup =
      s.framebuffer_lookup ++ (sub_u64 screen.framebuffer_ready screen.worker_started ∷ []);
  flip_event_delivery = s.flip_event_delivery ++ (sub_ℕ screen.delivered time ∷ []);
  submit_to_present = s.submit_to_present ++ (sub_u64 time submit.submitted_ns ∷ []);
}

unfoldable pub note_interval : Stats → ℕ → ℕ → Stats
note_interval s previous time = if previous == 0 then s else record s {
  presentation_interval = s.presentation_interval ++ (sub_u64 time previous ∷ []);
}

unfoldable pub note_target : Stats → SubmitStamp → ℕ → ℕ → ℕ → ℕ → Stats
note_target s submit surface started previous time =
    let target = submit.target_ns in
    if target == 0 then s else record s {
      surface_vs_target = s.surface_vs_target ++ (sub_ℕ surface target ∷ []);
      worker_vs_target = s.worker_vs_target ++ (sub_ℕ started target ∷ []);
      previous_present_vs_target =
          (if previous == 0
            then s.previous_present_vs_target
            else s.previous_present_vs_target ++ (sub_ℕ previous target ∷ []));
      flip_vs_target = s.flip_vs_target ++ (sub_ℕ time target ∷ []);
    }

-- A later frame whose flip took place at `time`.
unfoldable pub present : Display → Frame → SubmitStamp → ℕ → Screen → ℕ → Display
present d next submit surface screen time =
    let previous = d.last_present_ns in
    let second = submit.frame == 2 in
    record d {
      current = some next;
      stats =
          note_target (note_interval (note_flip d.stats submit surface screen time) previous time)
            submit surface screen.worker_started previous time;
      first_present_ns = if previous == 0 then time else d.first_present_ns;
      last_present_ns = time;
      latest_present_ns = time;
      steady_first_target_ns =
          (if second then (time + d.refresh_ns) % 2 ^ 64 else d.steady_first_target_ns);
      steady_phase_ready = if second then true else d.steady_phase_ready;
      displayed = d.displayed + 1;
    }

-- A later frame: the frame before it is released where the flip is seen, and not before its submission.
unfoldable pub show_flip : Display → Frame → SubmitStamp → ℕ → Screen → Option ℕ → Display × Bool
unfolding release
show_flip d next submit surface screen none = (release d next.sample, false)
show_flip d next submit surface screen (some time) =
    if ltb time submit.submitted_ns
    then (release d next.sample, false)
    else (present (release_frame d d.current) next submit surface screen time, true)

unfoldable pub show_next :
    Display → Option Frame → Frame → SubmitStamp → ℕ → Screen → Display × Bool
show_next d none next submit surface screen = show_first d next screen.sets_crtc screen.vblank
show_next d (some current) next submit surface screen =
    show_flip d next submit surface screen
      (if screen.queues_flip then wait_for_flip screen.polls else none)

-- The part behind `create_frame`.
unfoldable pub show_created : Display → ℕ → SubmitStamp → ℕ → Screen → Option ℕ → Display × Bool
unfolding release
show_created d sample submit surface screen none = (release d sample, false)
show_created d sample submit surface screen (some framebuffer) =
    show_next d d.current (record { sample = sample; framebuffer = framebuffer }) submit surface
      screen

-- A sample that comes too late for its target, where a frame is shown already.
unfoldable pub is_stale : Option Frame → ℕ → ℕ → Bool
is_stale none target latest = false
is_stale (some frame) target latest = target != 0 && leb target ((latest + 1000000) % 2 ^ 64)

module _ (strtoull : Strtoull) (hdisplay vdisplay : ℕ) where
  unfoldable pub display_sample :
      Display → ℕ → SampleInfo → SubmitStamp → ℕ → Screen → Display × Bool
  unfolding release
  display_sample d sample info submit surface screen =
      let (cache, framebuffer) =
        create_frame strtoull hdisplay vdisplay d.cache info screen.answers in
      if is_stale d.current submit.target_ns d.latest_present_ns
      then (release (record d { stale_frames_dropped = d.stale_frames_dropped + 1 }) sample, true)
      else show_created (record d { cache = cache }) sample submit surface screen framebuffer
