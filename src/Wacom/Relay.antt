-- ===== src/Wacom/Relay.antt =====
-- Reports relayed through both ends of the bridge.
use teraguchi.Common.{
  ℕ, suc, ◌+◌, ap, ◌∙◌, ◌-◌, ◌%◌, ◌^◌, ◌≤◌, ◌<◌, ◌≡◌, true, false, List, [], ◌∷◌, ◌++◌, Option,
  none, some, length, arith, take, leb, replicate, length-replicate, length-take,
}
use teraguchi.Wacom.Socket.{SendStep, ReceiveStep}
use teraguchi.Wacom.Frames.{
  Kernel, Frame, maximum_payload, field32, bytes32, send_frame, receive_frame,
}
use teraguchi.Wacom.Socket.Returns.{SendsAll, BringsAll}
use teraguchi.Wacom.Frames.Exchange.{InRange, received-sent}
use teraguchi.Wacom.Frames.Delivery.{send_frame_returns, sent_frame_returns}
use teraguchi.Wacom.Frames.MessageType
use teraguchi.Wacom.Host.{
  HostAction, deliver, ignore, input2, get_report_reply, set_report_reply, host_dispatch,
  KernelEvent, host_request,
}
use teraguchi.Wacom.Host.Dispatch.{Overruns, host_dispatch-input}
use teraguchi.Wacom.Client.Outcomes.{
  Picks, picked, IsHidraw, set_answer, get_answer, set_answer_lem, get_answer_lem, short_report,
}
use teraguchi.Wacom.Client.{
  IoctlResult, Hidraw, get_report_ioctl, set_report_ioctl, call, serve, serve_get_report,
  serve_set_report, error_of, report_of,
}

-- An input frame whose payload is longer than the `UHID_DATA_MAX` of an event's array by no more than 64
-- bytes is sent and received where the kernel takes and brings its bytes, and the host writes an event
-- with the whole payload to the device: the copy runs over the end of the array by just the excess.
pub input-Overruns :
    (kernel : Kernel) (count excess : ℕ) (sends : List SendStep) (receives : List ReceiveStep)
    (f before : Frame) (more : List ℕ)
    → InRange f
    → kernel.uhid_data_max + 64 < 2 ^ 16
    → f.type ≡ MessageType.input
    → f.interface < count
    → 1 ≤ excess
    → excess ≤ 64
    → length f.payload ≡ kernel.uhid_data_max + excess
    → SendsAll sends (20 + length f.payload)
    → BringsAll receives (20 + length f.payload)
    → let sent = send_frame kernel sends f.type f.interface f.transaction f.payload in
      let received = receive_frame kernel receives (sent.wire ++ more) before in
      (sent.status ≡ some true)
      × (received.status ≡ some true)
      × (host_dispatch count received.frame
          ≡ deliver f.interface (input2 (kernel.uhid_data_max + excess) f.payload))
      × Overruns kernel excess (input2 (kernel.uhid_data_max + excess) f.payload)
input-Overruns kernel count excess sends receives f before more r small t i one most long takes
      brings =
    let fits : length f.payload ≤ maximum_payload kernel = omega (arith, long, most) in
    let narrow : maximum_payload kernel < 2 ^ 32 = omega (arith, small) in
    let done = send_frame_returns kernel sends f fits takes in
    let got = sent_frame_returns kernel sends receives f before more r narrow fits done brings in
    let (same, _) = received-sent kernel sends receives f before more r narrow done got in
    let dispatched = host_dispatch-input count f t i (omega (arith, long, small, most)) in
    (done, got, rw same (rw long at dispatched), long)

low_error : (e : ℕ) (rest : List ℕ) → field32 (bytes32 e rest) 0 % 2 ^ 16 ≡ e % 2 ^ 16
low_error e rest = omega arith

reply_dispatch :
    (count index id e : ℕ) (report : List ℕ)
    → index < count
    → length report < 2 ^ 16
    → host_dispatch count (record {
      type = MessageType.get_report_reply;
      interface = index;
      transaction = id;
      payload = bytes32 e report;
    })
      ≡ deliver index (get_report_reply id (e % 2 ^ 16) (length report) report)
unfolding host_dispatch
reply_dispatch count index id e report hi small =
    let inside : leb count index ≡ false = ground arith in
    let long : leb 4 (suc (suc (suc (suc (length report))))) ≡ true = ground arith in
    let size : (suc (suc (suc (suc (length report)))) - 4) % 2 ^ 16 ≡ length report = omega arith in
    rw (inside, long, low_error e report, size)

module _ (kernel : Kernel) (hidraw : Hidraw) where
  -- The host's event for what the client's reply to a frame brings.
  abbrev pub answered : ℕ → Option Frame → HostAction
  answered count none = ignore
  answered count (some frame) = host_dispatch count frame

  -- A frame of the host, served by the client, its reply dispatched by the host.
  abbrev pub relay : ℕ → Option Frame → HostAction
  relay count none = ignore
  relay count (some frame) = answered count (serve kernel hidraw count frame).reply

  relay_set :
      (count index id rtype size : ℕ) (bytes : List ℕ)
      → index < count
      → count ≤ 16
      → 1 ≤ size
      → size ≤ length bytes
      → relay count (host_request index (KernelEvent.set_report id rtype size bytes))
        ≡ deliver index (
            set_report_reply id (
              error_of kernel hidraw (
                call kernel hidraw index
                  (set_report_ioctl kernel hidraw rtype size)
                  (take size bytes))
              % 2 ^ 16))
  unfolding host_request serve serve_set_report host_dispatch
  relay_set count index id rtype size bytes hi hc h1 hs =
      let narrow : index % 2 ^ 16 ≡ index = omega arith in
      let sized : length (take size bytes) ≡ size = omega (arith, length-take size bytes) in
      let data_size : suc size - 1 ≡ size = omega arith in
      let inside : leb count index ≡ false = ground arith in
      let long : leb 2 (suc size) ≡ true = ground arith in
      rw (narrow, sized, data_size, inside, long) (rw (inside, low_error _ []))

  relay_get :
      (count index id rnum rtype : ℕ)
      → index < count
      → count ≤ 16
      → let buffer = rnum ∷ replicate (kernel.uhid_data_max - 1) 0 in
        let result =
          call kernel hidraw index
            (get_report_ioctl kernel hidraw rtype kernel.uhid_data_max)
            buffer in
        length (report_of kernel hidraw result) < 2 ^ 16
        → relay count (host_request index (KernelEvent.get_report id rnum rtype))
          ≡ deliver index (
              get_report_reply id
                (error_of kernel hidraw result % 2 ^ 16)
                (length (report_of kernel hidraw result))
                (report_of kernel hidraw result))
  unfolding host_request serve serve_get_report
  relay_get count index id rnum rtype hi hc small =
      let narrow : index % 2 ^ 16 ≡ index = omega arith in
      let inside : leb count index ≡ false = ground arith in
      rw (narrow, inside) (reply_dispatch count index id _ _ hi small)

  -- A program's request to set a report of `size` bytes, one at least, comes back to the device it was made
  -- of, under its own id, with the outcome of the ioctl that sets these bytes as a report of
  -- this type: its error, or 0 where it succeeds; with EINVAL for an unknown type.
  pub relay-set_report :
      (count index id rtype size : ℕ) (bytes : List ℕ)
      → IsHidraw kernel hidraw
      → index < count
      → count ≤ 16
      → 1 ≤ size
      → size ≤ length bytes
      → (result : IoctlResult) × Picks kernel hidraw index rtype
          (hidraw.set_feature size)
          (hidraw.set_output size)
          (hidraw.set_input size)
          (take size bytes)
          result
        × (relay count (host_request index (KernelEvent.set_report id rtype size bytes))
            ≡ deliver index (set_answer kernel hidraw id result))
  unfolding set_report_ioctl
  relay-set_report count index id rtype size bytes w hi hc h1 hs =
      let result =
        call kernel hidraw index (set_report_ioctl kernel hidraw rtype size) (take size bytes) in
      (
        result,
        picked kernel hidraw index rtype _ _ _ (take size bytes) (w.set_feature size)
            (w.set_output size) (w.set_input size),
        relay_set count index id rtype size bytes hi hc h1 hs
            ∙ ap (deliver index) (set_answer_lem kernel hidraw id result),
      )

  -- A program's request for a report comes back to the device it was made of, under its own id, with the
  -- outcome of the ioctl that gets the report of this number and type, whose buffer starts with the
  -- number: its error and no bytes, or the bytes that it gave; with EINVAL for an unknown type.
  pub relay-get_report :
      (count index id rnum rtype : ℕ)
      → IsHidraw kernel hidraw
      → index < count
      → count ≤ 16
      → 1 ≤ kernel.uhid_data_max
      → kernel.uhid_data_max < 2 ^ 16
      → (result : IoctlResult) × Picks kernel hidraw index rtype
          (hidraw.get_feature kernel.uhid_data_max)
          (hidraw.get_output kernel.uhid_data_max)
          (hidraw.get_input kernel.uhid_data_max)
          (rnum ∷ replicate (kernel.uhid_data_max - 1) 0)
          result
        × (relay count (host_request index (KernelEvent.get_report id rnum rtype))
            ≡ deliver index (get_answer kernel hidraw id result))
  unfolding get_report_ioctl
  relay-get_report count index id rnum rtype w hi hc one small =
      let size = kernel.uhid_data_max in
      let buffer = rnum ∷ replicate (size - 1) 0 in
      let request = get_report_ioctl kernel hidraw rtype size in
      let result = call kernel hidraw index request buffer in
      (
        result,
        picked kernel hidraw index rtype _ _ _ buffer (w.get_feature size) (w.get_output size)
            (w.get_input size),
        relay_get count index id rnum rtype hi hc (
              short_report kernel hidraw index request buffer w
                (omega (arith, length-replicate {A = ℕ} (size - 1) 0, one, small)))
            ∙ ap (deliver index) (get_answer_lem kernel hidraw id result),
      )
