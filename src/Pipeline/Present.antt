-- ===== src/Pipeline/Present.antt =====
-- `record_presentation` and the listeners of asynchronous feedback. What a dispatch of the display brings is
-- a list of events. The statistics are kept in nanoseconds, which the code divides by a million. The
-- feedback objects that are not deleted yet are a list; an event names its object by its place in it. The
-- counters of commit timing and of the barriers, and the format that `main` prints, are left out.
use teraguchi.Common.Differences.{ℤ, sub_ℕ, sub_u64}
use teraguchi.Common.{
  ℕ, zero, suc, ◌+◌, ◌-◌, ◌*◌, ◌%◌, ◌^◌, Bool, true, false, ◌||◌, List, [], ◌∷◌, ◌++◌, Option, none,
  some, ltb, ◌==◌, ◌!=◌, if◌then◌else◌, bit_and,
}

pub record Stamp : Type 0 where
  pub frame : ℕ
  pub time_ns : ℕ
  pub target_present_ns : ℕ

pub record AsyncFeedback : Type 0 where
  pub submit : Stamp
  pub surface_ready_ns : ℕ
  pub render_started_ns : ℕ
  pub swap_submitted_ns : ℕ

-- The flags of the presentation-time protocol.
pub record Kinds : Type 0 where
  pub vsync : ℕ
  pub hw_clock : ℕ
  pub hw_completion : ℕ
  pub zero_copy : ℕ

pub record State : Type 0 where
  pub async_feedback : Bool
  pub async_inflight_limit : ℕ
  pub failed : Bool
  pub presented : ℕ
  pub async_inflight : ℕ
  pub max_async_inflight : ℕ
  pub stale_frames_dropped : ℕ
  pub pending : List AsyncFeedback
  pub decode : List ℕ
  pub surface_to_swap : List ℕ
  pub swap_submit : List ℕ
  pub surface_to_present : List ℕ
  pub submit_to_present : List ℕ
  pub surface_vs_target : List ℤ
  pub swap_vs_target : List ℤ
  pub presentation_vs_target : List ℤ
  pub presentation_interval : List ℕ
  pub stale_drop_late : List ℕ
  pub first_presentation_ns : ℕ
  pub last_presentation_ns : ℕ
  pub vsync_frames : ℕ
  pub hw_clock_frames : ℕ
  pub hw_completion_frames : ℕ
  pub zero_copy_frames : ℕ

module _ (kinds : Kinds) where
  unfoldable pub note_latency : State → AsyncFeedback → ℕ → State
  note_latency s f presented = record s {
    decode = s.decode ++ (sub_u64 f.surface_ready_ns f.submit.time_ns ∷ []);
    surface_to_swap = s.surface_to_swap ++ (sub_u64 f.swap_submitted_ns f.surface_ready_ns ∷ []);
    swap_submit = s.swap_submit ++ (sub_u64 f.swap_submitted_ns f.render_started_ns ∷ []);
    surface_to_present = s.surface_to_present ++ (sub_u64 presented f.surface_ready_ns ∷ []);
    submit_to_present = s.submit_to_present ++ (sub_u64 presented f.submit.time_ns ∷ []);
  }

  unfoldable pub note_target : State → AsyncFeedback → ℕ → State
  note_target s f presented =
      let target = f.submit.target_present_ns in
      if target == 0 then s else record s {
        surface_vs_target = s.surface_vs_target ++ (sub_ℕ f.surface_ready_ns target ∷ []);
        swap_vs_target = s.swap_vs_target ++ (sub_ℕ f.swap_submitted_ns target ∷ []);
        presentation_vs_target = s.presentation_vs_target ++ (sub_ℕ presented target ∷ []);
      }

  unfoldable pub note_interval : State → ℕ → State
  note_interval s presented =
      if s.last_presentation_ns != 0
      then record s {
        presentation_interval =
            s.presentation_interval ++ (sub_u64 presented s.last_presentation_ns ∷ []);
        last_presentation_ns = presented;
      }
      else record s { first_presentation_ns = presented; last_presentation_ns = presented }

  abbrev pub has : ℕ → ℕ → ℕ
  has flags kind = if bit_and flags kind != 0 then 1 else 0

  unfoldable pub note_flags : State → ℕ → State
  note_flags s flags = record s {
    vsync_frames = s.vsync_frames + has flags kinds.vsync;
    hw_clock_frames = s.hw_clock_frames + has flags kinds.hw_clock;
    hw_completion_frames = s.hw_completion_frames + has flags kinds.hw_completion;
    zero_copy_frames = s.zero_copy_frames + has flags kinds.zero_copy;
  }

  unfoldable pub record_presentation : State → AsyncFeedback → ℕ → ℕ → State × Bool
  record_presentation s f presented flags =
      if ltb presented f.submit.time_ns || ltb presented f.surface_ready_ns then (s, false) else (
        note_flags (note_interval (note_target (note_latency s f presented) f presented) presented)
            flags,
        true,
      )

abbrev pub keep_feedback :
    AsyncFeedback
    → Option (AsyncFeedback × List AsyncFeedback)
    → Option (AsyncFeedback × List AsyncFeedback)
keep_feedback f none = none
keep_feedback f (some (found, rest)) = some (found, f ∷ rest)

-- The object at a place, and the list without it.
unfoldable pub take_feedback : ℕ → List AsyncFeedback → Option (AsyncFeedback × List AsyncFeedback)
take_feedback i [] = none
take_feedback zero (f ∷ pending) = some (f, pending)
take_feedback (suc i) (f ∷ pending) = keep_feedback f (take_feedback i pending)

-- An event for a feedback object: its time, in the words of the protocol, and its flags.
pub data Event : Type 0 where
  presents : ℕ → ℕ → ℕ → ℕ → ℕ → Event
  discards : ℕ → Event

abbrev pub event_time : ℕ → ℕ → ℕ → ℕ
event_time sec_hi sec_lo nsec = ((sec_hi * 2 ^ 32 + sec_lo) * 1000000000 + nsec) % 2 ^ 64

module _ (kinds : Kinds) where
  unfoldable pub end_presented : State × Bool → List AsyncFeedback → State
  end_presented (s, valid) rest = record s {
    failed = if valid then s.failed else true;
    presented = s.presented + 1;
    async_inflight = (s.async_inflight + (2 ^ 64 - 1)) % 2 ^ 64;
    pending = rest;
  }

  unfoldable pub on_async_presented :
      State → Option (AsyncFeedback × List AsyncFeedback) → ℕ → ℕ → State
  on_async_presented s none time flags = s
  on_async_presented s (some (f, rest)) time flags =
      end_presented (record_presentation kinds s f time flags) rest

  unfoldable pub on_async_discarded : State → Option (AsyncFeedback × List AsyncFeedback) → State
  on_async_discarded s none = s
  on_async_discarded s (some (f, rest)) = record s {
    failed = true;
    async_inflight = (s.async_inflight + (2 ^ 64 - 1)) % 2 ^ 64;
    pending = rest;
  }

  unfoldable pub handle : State → Event → State
  handle s (presents i sec_hi sec_lo nsec flags) =
      on_async_presented s (take_feedback i s.pending) (event_time sec_hi sec_lo nsec) flags
  handle s (discards i) = on_async_discarded s (take_feedback i s.pending)

  unfoldable pub dispatch : State → List Event → State
  dispatch s [] = s
  dispatch s (event ∷ events) = dispatch (handle s event) events
