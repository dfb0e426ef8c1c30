-- ===== src/Wacom/Client.antt =====
-- The requests that `run_client` of the bridge serves for the host. The ioctl of a hidraw file, and
-- the numbers that linux/hidraw.h makes of its requests, are parameters.
pub mod Outcomes
use teraguchi.Common.{
  ℕ, ◌-◌, Bool, true, false, ◌||◌, ◌&&◌, List, [], ◌∷◌, Option, none, some, take, drop, length,
  replicate, leb, ◌==◌, if◌then◌else◌, get_or,
}
use teraguchi.Wacom.Frames.{Kernel, Frame, bytes32}
use teraguchi.Wacom.Frames.MessageType

-- The result of an ioctl: an error number, or a count and the buffer after it.
pub data IoctlResult : Type 0 where
  fails : ℕ → IoctlResult
  gives : ℕ → List ℕ → IoctlResult

-- `ioctl` takes the interface's file, the request and the buffer.
pub record Hidraw : Type 0 where
  pub feature_report : ℕ
  pub output_report : ℕ
  pub input_report : ℕ
  pub get_feature : ℕ → ℕ
  pub get_output : ℕ → ℕ
  pub get_input : ℕ → ℕ
  pub set_feature : ℕ → ℕ
  pub set_output : ℕ → ℕ
  pub set_input : ℕ → ℕ
  pub ioctl : ℕ → ℕ → List ℕ → IoctlResult

module _ (kernel : Kernel) (hidraw : Hidraw) where
  unfoldable pub get_report_ioctl : ℕ → ℕ → ℕ
  get_report_ioctl type size =
      if type == hidraw.feature_report
      then hidraw.get_feature size
      else if type == hidraw.output_report
      then hidraw.get_output size
      else if type == hidraw.input_report
      then hidraw.get_input size
      else 0

  unfoldable pub set_report_ioctl : ℕ → ℕ → ℕ
  set_report_ioctl type size =
      if type == hidraw.feature_report
      then hidraw.set_feature size
      else if type == hidraw.output_report
      then hidraw.set_output size
      else if type == hidraw.input_report
      then hidraw.set_input size
      else 0

  -- `request == 0 ? -1 : ioctl(...)`, with the error that the code makes of a failure.
  unfoldable pub call : ℕ → ℕ → List ℕ → IoctlResult
  call interface request buffer =
      if request == 0 then fails kernel.einval else hidraw.ioctl interface request buffer

  -- The error of a result, 0 where there is none, and the bytes of its report.
  abbrev pub error_of : IoctlResult → ℕ
  error_of (fails errno) = errno
  error_of (gives n report) = 0

  abbrev pub report_of : IoctlResult → List ℕ
  report_of (fails errno) = []
  report_of (gives n report) = take n report

  -- What the loop does with a frame from the host: it ends, or makes a call of the interface's file
  -- and may send a reply.
  pub record Served : Type 0 where
    pub ends : Bool
    pub request : Option (ℕ × List ℕ)
    pub reply : Option Frame

  abbrev pub unserved : Served
  unserved = record { ends = false; request = none; reply = none }

  unfoldable pub serve_get_report : Frame → Served
  serve_get_report frame =
      let buffer = get_or frame.payload 0 0 ∷ replicate (kernel.uhid_data_max - 1) 0 in
      let request = get_report_ioctl (get_or frame.payload 1 0) kernel.uhid_data_max in
      let result = call frame.interface request buffer in
      record {
        ends = false;
        request = if request == 0 then none else some (request, buffer);
        reply = some (record {
          type = MessageType.get_report_reply;
          interface = frame.interface;
          transaction = frame.transaction;
          payload = bytes32 (error_of result) (report_of result);
        });
      }

  unfoldable pub serve_set_report : Frame → Served
  serve_set_report frame =
      let buffer = drop 1 frame.payload in
      let request = set_report_ioctl (get_or frame.payload 0 0) (length frame.payload - 1) in
      let result = call frame.interface request buffer in
      record {
        ends = false;
        request = if request == 0 then none else some (request, buffer);
        reply =
            if frame.type == MessageType.set_report
            then some (record {
              type = MessageType.set_report_reply;
              interface = frame.interface;
              transaction = frame.transaction;
              payload = bytes32 (error_of result) [];
            })
            else none;
      }

  unfoldable pub serve : ℕ → Frame → Served
  serve count frame =
      if leb count frame.interface
      then record { ends = true; request = none; reply = none }
      else if frame.type == MessageType.get_report && length frame.payload == 2
      then serve_get_report frame
      else if (frame.type == MessageType.set_report || frame.type == MessageType.output)
          && leb 2 (length frame.payload)
      then serve_set_report frame
      else unserved
