-- ===== src/Kms/Tests/Runs.antt =====
-- The threads of the probe at concrete inputs.
use teraguchi.Common.{
  ℕ, ◌*◌, ◌≡◌, refl, true, false, List, [], ◌∷◌, ◌++◌, Option, none, some, arith,
}
use teraguchi.Kms.Framebuffers.{
  SampleInfo, Strtoull, create_frame, create_accepted, use_buffer, import_buffer, add_imported,
  find_cached, accept_sample, parse_modifier, behind_colon,
}
use teraguchi.Common.Bytes.{starts_with}
use teraguchi.Kms.Framebuffers.Balance.{empty_cache}
use teraguchi.Kms.Schedule.{
  SubmitStamp, Moment, on_decoder_input, resume_input, sleep_and_push, plan_frame, plan, shift_plan,
  keep_epoch, push_stamp, match_output, match_found, find_stamp,
}
use teraguchi.Kms.Schedule.Stamps.{
  Event, enters, resumes, outputs, first_phase, Runner, Chain, InOrder,
}
use teraguchi.Kms.Schedule.Order.{step, matches, matches-Chain}
use teraguchi.Kms.Display.{
  interrupted, flips, Display, Screen, display_sample, show_created, show_next, show_first,
  show_flip, release, release_frame, is_stale,
}
use teraguchi.Kms.Display.Accounts.{times, Accounted, display_sample-Accounted}
use teraguchi.Kms.Handoff.{
  idle, awaiting, exited, Threads, Action, pulls, offers, ends, main_ends, works, shows, stops, run,
  Ready, act, pull, offer, store, end_stream, end_main, work, take_ready, drop_ready, show, shown,
  stop,
}
use teraguchi.Kms.Handoff.Ownership.{places, run-places}
use teraguchi.Kms.Handoff.Finish.{joined, run-exited}

abbrev by_frames : ℕ → ℕ → ℕ → ℕ
by_frames n rate base = n * rate

abbrev start : Runner
start = record {
  schedule = record {
    submitted = 0;
    first_target_ns = 0;
    steady_first_target_ns = 0;
    refresh_ns = 16666666;
    submit_lead_ns = 12000000;
    phase_ready = false;
    steady_phase_ready = false;
    failed = false;
    submit_queue = [];
    input_schedule_late = [];
  };
  waiting = false;
}

abbrev moment : Moment
moment = record { writable = true; now = 1000; sleeps = true; actual = 1100; stamped = 1200 }

-- Two frames come in, the second waits for the phase; both are matched.
abbrev two_frames : List Event
two_frames =
    enters moment
    ∷ (enters moment
        ∷ (first_phase 50000000
            ∷ (resumes moment ∷ (outputs (some 0) ∷ (outputs (some 1000000000) ∷ [])))))

start-InOrder : InOrder 0 start
start-InOrder = record { chain = tt; matched = omega arith; counted = tt }

matches-Chain_example : Chain 0 (matches by_frames start two_frames)
matches-Chain_example = matches-Chain by_frames two_frames 0 start start-InOrder

frames_of : List SubmitStamp → List ℕ
frames_of [] = []
frames_of (stamp ∷ stamps) = stamp.frame ∷ frames_of stamps

both_match : frames_of (matches by_frames start two_frames) ≡ 1 ∷ (2 ∷ [])
unfolding frames_of matches step on_decoder_input resume_input sleep_and_push plan_frame plan
    shift_plan keep_epoch push_stamp match_output match_found find_stamp
both_match = refl

-- Every number is 7, and nothing stands behind it.
abbrev seven : Strtoull
seven text = (7, [])

abbrev full_sample : SampleInfo
full_sample = record {
  meta = some (record { width = 1920; height = 1080 });
  drm_format = some (b'Y' ∷ (b'4' ∷ (b'1' ∷ (b'0' ∷ (b':' ∷ (b'7' ∷ []))))));
  n_memory = 1;
  stat = some (1, 2);
}

abbrev screen : Screen
screen = record {
  worker_started = 2000;
  framebuffer_ready = 2100;
  flip_queued = 2200;
  delivered = 4500;
  answers = record { handle = some 5; framebuffer = some 9 };
  sets_crtc = true;
  vblank = some (0, 3);
  queues_flip = true;
  polls = interrupted ∷ (flips 0 4 ∷ []);
}

-- The same screen when its flip cannot be queued.
abbrev broken : Screen
broken = record screen { queues_flip = false }

abbrev dark : Display
dark = record {
  refresh_ns = 16666666;
  current = none;
  latest_present_ns = 0;
  first_present_ns = 0;
  last_present_ns = 0;
  first_target_ns = 0;
  steady_first_target_ns = 0;
  phase_ready = false;
  steady_phase_ready = false;
  stale_frames_dropped = 0;
  displayed = 0;
  cache = empty_cache;
  stats = record {
    decode = [];
    surface_to_flip = [];
    surface_to_worker = [];
    framebuffer_lookup = [];
    flip_event_delivery = [];
    submit_to_present = [];
    presentation_interval = [];
    flip_vs_target = [];
    surface_vs_target = [];
    worker_vs_target = [];
    previous_present_vs_target = [];
  };
  released = [];
}

abbrev first_stamp : SubmitStamp
first_stamp = record { frame = 1; submitted_ns = 1000; target_ns = 0; pts = 0 }

display_sample-Accounted_example :
    Accounted 70 70 dark
      (display_sample seven 1920 1080 dark 70 full_sample first_stamp 1500 screen)
display_sample-Accounted_example =
    display_sample-Accounted seven 1920 1080 70 70 dark full_sample first_stamp 1500 screen

abbrev threads : Threads
threads = record {
  producer = idle;
  worker = awaiting;
  ready = none;
  producer_done = false;
  worker_stop = false;
  failed = false;
  queued = 0;
  max_ready_depth = 0;
  display = dark;
  pulled = [];
  dropped = [];
}

-- The first sample is shown; the second cannot be flipped to while the third is in the slot.
abbrev failing_flip : List Action
failing_flip =
    pulls 70 (some first_stamp) 1500
    ∷ (offers
        ∷ (works
            ∷ (shows full_sample screen
                ∷ (pulls 71 (some first_stamp) 1600
                    ∷ (offers
                        ∷ (works
                            ∷ (pulls 72 (some first_stamp) 1700
                                ∷ (offers ∷ (shows full_sample broken ∷ (stops ∷ []))))))))))

run-places_example :
    times 72 (run seven 1920 1080 600 threads failing_flip).pulled
    ≡ places 72 (run seven 1920 1080 600 threads failing_flip)
run-places_example = run-places 72 seven 1920 1080 600 failing_flip threads refl

abbrev sample_of : Option Ready → Option ℕ
sample_of none = none
sample_of (some r) = some r.sample

-- The worker has returned, and the third sample is still in the slot.
left_in_slot :
    sample_of
      (run seven 1920 1080 600 threads (failing_flip ++ (main_ends false ∷ (works ∷ [])))).ready
    ≡ some 72
unfolding run act pull offer store end_main work take_ready drop_ready show shown stop
    display_sample show_created show_next show_first show_flip release release_frame is_stale
    create_frame create_accepted use_buffer import_buffer add_imported find_cached accept_sample
    parse_modifier behind_colon starts_with
left_in_slot = refl

abbrev one_round : List Action
one_round = works ∷ (shows full_sample screen ∷ (stops ∷ []))

ended_before :
    (run seven 1920 1080 600 threads
      (pulls 70 (some first_stamp) 1500 ∷ (offers ∷ (ends ∷ (main_ends false ∷ []))))).producer_done
    ≡ true
unfolding run act pull offer store end_stream end_main
ended_before = refl

run-exited_example :
    (run seven 1920 1080 600 threads (
      (pulls 70 (some first_stamp) 1500 ∷ (offers ∷ (ends ∷ (main_ends false ∷ []))))
      ++ joined (one_round ∷ (one_round ∷ (one_round ∷ (one_round ∷ [])))))).worker
    ≡ exited
run-exited_example =
    run-exited seven 1920 1080 600
      (pulls 70 (some first_stamp) 1500 ∷ (offers ∷ (ends ∷ (main_ends false ∷ []))))
      (one_round ∷ (one_round ∷ (one_round ∷ (one_round ∷ [])))) threads refl ended_before
      (omega arith) (refl, (refl, (refl, (refl, tt))))
