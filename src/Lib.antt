-- ===== src/Lib.antt =====
-- Verification of Teraguchi, a remote desktop system: a host that captures a graphical session, a
-- client that shows it, and a QUIC transport between them.
--
-- Parts and files
-- - Common: the shared names, tests, list lemmas, bits, and `Outcome`, the result of code that reads and
--   writes buffers: it finishes, refuses, or touches a byte outside a buffer.
-- - Transport: the packets of protocol/plank-transport/include. Event is plank_transport_event.h, Setup
--   is plank_transport_setup.h, Control is plank_transport_control.h, Input is plank_transport_input.h;
--   Wire has the reads and writes of words they share. The functions keep their names without the prefix
--   `plank_transport_<kind>_`: `encode_setup` is plank_transport_setup_encode. The theorems on each
--   kind of packet are in its module Codec, those on the input payloads in Layout.
-- - MacHost: headers of apps/host/macos. TapBuffer is media/audio-tap-buffer.h,
--   FrameTiming is media/frame-timing.h, Account is auth/account-policy.h, Recovery is
--   media/video-recovery.h with its calls in media/native-video.m.
-- - Wacom: probes/wacom/plank-wacom-raw-bridge.cpp. Options is the reading of the arguments by `main`,
--   Connect is `connect_tcp` and `listen_tcp`, Socket has `write_all` and `read_all`, Frames has the
--   frames. Identity is the opening of the tablet's files by `run_client`, Client the requests that it
--   serves, Host is `run_host`. Relay puts the two ends together: a program's event on the host becomes
--   a frame (`host_request`), the client serves it (`serve`), and the reply becomes an event for the
--   device (`host_dispatch`).
-- - Kms: probes/video/plank-probe-client-kms.cpp. Output has `select_output` and the order of modes,
--   Framebuffers `create_frame` and the cache behind it, Schedule `on_decoder_input` and the matching of
--   stamps in `on_new_sample`, Display `display_sample` with `wait_for_flip` and `establish_phase`. Handoff
--   puts the threads together: the decoder's thread in `on_new_sample`, `display_worker`, and `main` at the
--   end of the pipeline. Its child modules say what the threads do together.
-- - Pipeline: probes/video/plank-probe-client-pipeline.cpp. Present has `record_presentation` and the
--   listeners of feedback, Process `import_and_present`, `process_sample` and the rounds of
--   `presentation_worker`, Inflight what holds of the feedback objects after any rounds.
-- - X11: probes/x11/plank-probe-x11-native10.cpp. Channels has the channels of a pixel, the packing of
--   codes and the test that an image has kept them, Segment the life of a `shm_image_t`. Planes has the
--   loops that unpack an image, by one thread or by several, Workers what the workers leave together.
-- - Video: `main` of probes/video/plank-probe-video-pipeline.cpp. Encoder has `drain_slot`, the part of a round of
--   the loop in front of the output, and the loop without a queue; Queue puts the loop with a queue and
--   `output_worker` together; Options is the reading of the arguments, Gates has the checks of those of the
--   recovery, and the gates of what was asked for; Percentile is `percentile`. The child modules of Queue say what holds in every order of the actions (Order,
--   Reach, Results) and that the threads come to an end (Left, Moves, Fair, Success).
--
-- Buffers, time and fuel
-- A buffer is a list of bytes, a pointer an optional buffer. Words of w bits are natural numbers, with
-- the remainder by 2^w where the code converts. `send` and `recv` follow a list of steps that says what
-- each call does (how many bytes, an interruption, a failure); the loops are recursions on that list, and
-- a list that ends in the middle is a loop that still waits, which has the result `none`; only the
-- wait for a page flip, whose poll has a time limit, fails there. `read_all`
-- returns true after as many productive calls as bytes at most. The loop of `encode_control` runs on the
-- number of words.
-- Threads are a list of actions, each what one thread does under one lock or between two. An action that is
-- not its thread's turn, and a wait that goes on, change nothing. What the kernel and the clock answer is given with
-- the action. In the video pipeline probe the encoder is a
-- parameter, `picture_bytes`: the bytes that it makes of the picture with a time stamp; a slot's
-- bitstream holds the picture that was submitted with it last, and a write to a file that fails
-- leaves the file as it was. Its times are left out. The KMS probe keeps its statistics in milliseconds as doubles; the model keeps them in
-- nanoseconds.
--
-- Not modelled
-- The kernel's headers, ioctls and sockets are parameters or steps, and so are the addresses that
-- getaddrinfo finds. The poll loops of the bridge, the exclusive grabs and `read_input_version` are not
-- modelled. The ring of audio blocks is modelled call by call: a push and a pop do not interleave, and neither do
-- the workers of the X11 probe. The Rust transport, its copy of quinn-proto, the
-- Objective-C code over the frameworks of macOS and the other probes, which mostly call third-party
-- libraries, are not modelled, nor the arguments, the pipeline and the closing report of the KMS probe, nor the queues, the graphics and
-- `main` of the pipeline probe, nor the libraries of the video pipeline probe, their set-up and the gates over its times.
-- The arithmetic of doubles, `strtoull`, `stoul`, `stoi` and the scaling of GStreamer are parameters.
pub mod Common
pub mod Kms
pub mod MacHost
pub mod Pipeline
pub mod Transport
pub mod Video
pub mod Wacom
pub mod X11
