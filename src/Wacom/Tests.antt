-- ===== src/Wacom/Tests.antt =====
-- The theorems of the bridge at concrete inputs.
use teraguchi.Common.{
  ℕ, zero, suc, ◌+◌, ◌⊎◌, ◌≤◌, ◌≡◌, ◌≢◌, refl, true, List, [], ◌∷◌, ◌++◌, some, map, arith,
  replicate, drop, length, All, ltb, if◌then◌else◌,
}
use teraguchi.Wacom.Socket.{SendStep, ReceiveStep, write_all, read_all}
use teraguchi.Wacom.Socket.Exact.{IsProductive, write_all_sends, read_all_reads, read_all_returns}
use teraguchi.Wacom.Frames.{
  Kernel, Frame, send_frame, receive_frame, header_bytes, header_of, then_write, receive_payload,
}
use teraguchi.Wacom.Frames.Exchange.{InRange}
use teraguchi.Wacom.Frames.Delivery.{Arrives, receive_frame-send_frame}
use teraguchi.Wacom.Socket.Returns.{IsTaking, SendsAll, BringsAll}
use teraguchi.Wacom.Host
use teraguchi.Wacom.Host.{
  Device, handshake, ready, with_device, device_of, bad_descriptor, read_descriptors,
  create_devices, opened_and_written, deliver, UhidEvent, input2, host_dispatch, KernelEvent,
}
use teraguchi.Wacom.Host.Descriptors.{Bounded, handshake-create_devices}
use teraguchi.Wacom.Host.Dispatch.{Overruns}
use teraguchi.Wacom.Client.{IoctlResult, gives, fails, Hidraw}
use teraguchi.Wacom.Client.Outcomes.{Picks, IsHidraw, set_answer, get_answer}
use teraguchi.Wacom.Relay.{input-Overruns, relay, relay-set_report, relay-get_report}

abbrev linux : Kernel
linux = record { uhid_data_max = 4096; hid_max_descriptor_size = 4096; einval = 22; eio = 5 }

-- A kernel with small limits, for runs that a test can follow.
abbrev small : Kernel
small = record { uhid_data_max = 2; hid_max_descriptor_size = 8; einval = 22; eio = 5 }

abbrev slow_sends : List SendStep
slow_sends =
    SendStep.takes 7
    ∷ SendStep.interrupted
    ∷ SendStep.takes 100
    ∷ SendStep.takes 2
    ∷ SendStep.takes 2
    ∷ SendStep.takes 2
    ∷ []

abbrev slow_receives : List ReceiveStep
slow_receives =
    ReceiveStep.gives 1
    ∷ ReceiveStep.interrupted
    ∷ ReceiveStep.gives 100
    ∷ ReceiveStep.gives 3
    ∷ ReceiveStep.gives 3
    ∷ []

write_all_sends_example : (write_all slow_sends (1 ∷ 2 ∷ 3 ∷ [])).wire ≡ 1 ∷ 2 ∷ 3 ∷ []
unfolding write_all
write_all_sends_example = write_all_sends slow_sends (1 ∷ 2 ∷ 3 ∷ []) refl

read_all_reads_example :
    ((read_all slow_receives (4 ∷ 5 ∷ 6 ∷ []) 2).bytes ≡ 4 ∷ 5 ∷ [])
    × ((read_all slow_receives (4 ∷ 5 ∷ 6 ∷ []) 2).stream ≡ 6 ∷ [])
unfolding read_all
read_all_reads_example = read_all_reads slow_receives (4 ∷ 5 ∷ 6 ∷ []) 2 refl

read_all_returns_example : (read_all slow_receives (4 ∷ 5 ∷ 6 ∷ []) 3).status ≡ some true
read_all_returns_example =
    read_all_returns slow_receives (4 ∷ 5 ∷ 6 ∷ []) 3 (tt, (tt, (tt, (tt, (tt, tt))))) (omega arith)
      (omega arith)

abbrev motion : Frame
motion = record { type = 3; interface = 1; transaction = 0; payload = 2 ∷ 9 ∷ 8 ∷ [] }

abbrev nothing : Frame
nothing = record { type = 0; interface = 0; transaction = 0; payload = [] }

motion-InRange : InRange motion
motion-InRange = record { type = omega arith; interface = omega arith; transaction = omega arith }

motion_sent : (send_frame small slow_sends 3 1 0 (2 ∷ 9 ∷ 8 ∷ [])).status ≡ some true
unfolding send_frame then_write write_all header_bytes
motion_sent = refl

-- Schedules that are sure to be enough.
abbrev patient_sends : ℕ → List SendStep
patient_sends zero = []
patient_sends (suc n) = SendStep.takes 7 ∷ SendStep.interrupted ∷ patient_sends n

abbrev patient_receives : ℕ → List ReceiveStep
patient_receives zero = []
patient_receives (suc n) = ReceiveStep.gives 3 ∷ ReceiveStep.interrupted ∷ patient_receives n

sends_taken : (n : ℕ) → All IsTaking (patient_sends n)
sends_taken zero = tt
sends_taken (suc n) = (tt, (tt, sends_taken n))

receives_brought : (n : ℕ) → All IsProductive (patient_receives n)
receives_brought zero = tt
receives_brought (suc n) = (tt, (tt, receives_brought n))

receive_frame-send_frame_example :
    let sent = send_frame small slow_sends 3 1 0 (2 ∷ 9 ∷ 8 ∷ []) in
    let received = receive_frame small slow_receives (sent.wire ++ (77 ∷ [])) nothing in
    ((sent.status ≢ some true) × (¬ (SendsAll slow_sends 23)))
    ⊎ ((sent.status ≡ some true)
        × (((received.status ≢ some true) × (¬ (BringsAll slow_receives 23)))
            ⊎ Arrives motion (77 ∷ []) received))
receive_frame-send_frame_example =
    receive_frame-send_frame small slow_sends slow_receives motion nothing (77 ∷ []) motion-InRange
      (omega arith) (omega arith)

motion-Arrives : Arrives motion (77 ∷ []) (
    receive_frame small slow_receives
      ((send_frame small slow_sends 3 1 0 (2 ∷ 9 ∷ 8 ∷ [])).wire ++ (77 ∷ []))
      nothing)
unfolding send_frame then_write write_all header_bytes receive_frame receive_payload read_all
    header_of
motion-Arrives = (refl, refl, refl)

-- Three bytes for a device whose events hold two.
input-Overruns_example :
    let sent = send_frame small (patient_sends 23) 3 1 0 (2 ∷ 9 ∷ 8 ∷ []) in
    let received = receive_frame small (patient_receives 23) (sent.wire ++ (77 ∷ [])) nothing in
    (sent.status ≡ some true)
    × (received.status ≡ some true)
    × (host_dispatch 2 received.frame ≡ deliver 1 (input2 3 (2 ∷ 9 ∷ 8 ∷ [])))
    × Overruns small 1 (input2 3 (2 ∷ 9 ∷ 8 ∷ []))
input-Overruns_example =
    input-Overruns small 2 1 (patient_sends 23) (patient_receives 23) motion nothing (77 ∷ [])
      motion-InRange (omega arith) refl (omega arith) (omega arith) (omega arith) refl
      (sends_taken 23, omega arith) (receives_brought 23, omega arith)

abbrev device_frame : Frame
device_frame = record {
  type = 1;
  interface = 0;
  transaction = 0;
  payload = 1 ∷ 0 ∷ 3 ∷ 0 ∷ replicate 272 65;
}

abbrev descriptor_frame : Frame
descriptor_frame = record { type = 2; interface = 0; transaction = 0; payload = 5 ∷ 13 ∷ [] }

abbrev greeting : List Frame
greeting = device_frame ∷ descriptor_frame ∷ motion ∷ []

greeting_ready :
    handshake small greeting
    ≡ ready (device_of device_frame.payload) ((5 ∷ 13 ∷ []) ∷ []) (motion ∷ [])
unfolding handshake with_device device_of read_descriptors bad_descriptor
greeting_ready = refl

handshake-create_devices_example :
    let device = device_of device_frame.payload in
    let events = (create_devices device ((5 ∷ 13 ∷ []) ∷ []) (opened_and_written ∷ [])).events in
    (1 ≤ device.interface_count)
    × (device.interface_count ≤ 16)
    × (length events ≡ device.interface_count)
    × (map (λ e. e.rd_data) events ≡ (5 ∷ 13 ∷ []) ∷ [])
    × All {A = List ℕ} (λ d. d ≢ []) ((5 ∷ 13 ∷ []) ∷ [])
    × All (Bounded small) ((5 ∷ 13 ∷ []) ∷ [])
    × (motion ∷ [] ≡ drop (suc device.interface_count) greeting)
unfolding create_devices
handshake-create_devices_example =
    handshake-create_devices small greeting (device_of device_frame.payload) ((5 ∷ 13 ∷ []) ∷ [])
      (motion ∷ []) (opened_and_written ∷ []) greeting_ready refl

motion_delivered : host_dispatch 2 motion ≡ deliver 1 (input2 3 (2 ∷ 9 ∷ 8 ∷ []))
unfolding host_dispatch
motion_delivered = refl

-- A tablet that refuses what is longer than its report of two bytes.
abbrev pen_tablet : Hidraw
pen_tablet = record {
  feature_report = 0;
  output_report = 1;
  input_report = 2;
  get_feature = λ n. 1000 + n;
  get_output = λ n. 2000 + n;
  get_input = λ n. 3000 + n;
  set_feature = λ n. 4000 + n;
  set_output = λ n. 5000 + n;
  set_input = λ n. 6000 + n;
  ioctl = λ file request buffer.
      if ltb 2 (length buffer) then fails 32 else gives (length buffer) buffer;
}

pen_tablet-IsHidraw : IsHidraw small pen_tablet
pen_tablet-IsHidraw = record {
  get_feature = λ n. omega arith;
  get_output = λ n. omega arith;
  get_input = λ n. omega arith;
  set_feature = λ n. omega arith;
  set_output = λ n. omega arith;
  set_input = λ n. omega arith;
  bounded = λ index request n buffer report e. ground (arith, e);
}

-- The second of the types, whose ioctl succeeds.
relay-set_report_example :
    (result : IoctlResult) × Picks small pen_tablet 1 1 4002 5002 6002 (7 ∷ 8 ∷ []) result
    × (relay small pen_tablet 2 (Host.host_request 1 (KernelEvent.set_report 6 1 2 (7 ∷ 8 ∷ [])))
        ≡ deliver 1 (set_answer small pen_tablet 6 result))
relay-set_report_example =
    relay-set_report small pen_tablet 2 1 6 1 2 (7 ∷ 8 ∷ []) pen_tablet-IsHidraw (omega arith)
      (omega arith) (omega arith) (omega arith)

relay-get_report_example :
    (result : IoctlResult) × Picks small pen_tablet 1 0 1002 2002 3002 (7 ∷ 0 ∷ []) result
    × (relay small pen_tablet 2 (Host.host_request 1 (KernelEvent.get_report 6 7 0))
        ≡ deliver 1 (get_answer small pen_tablet 6 result))
relay-get_report_example =
    relay-get_report small pen_tablet 2 1 6 7 0 pen_tablet-IsHidraw (omega arith) (omega arith)
      (omega arith) (omega arith)
