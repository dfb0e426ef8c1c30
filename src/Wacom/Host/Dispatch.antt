-- ===== src/Wacom/Host/Dispatch.antt =====
-- Where the host delivers what the client sends.
use teraguchi.Common.{ℕ, ◌+◌, ◌%◌, ◌^◌, ◌<◌, ◌≡◌, ◌≢◌, length, arith}
use teraguchi.Wacom.Frames.{Kernel, Frame}
use teraguchi.Wacom.Frames.MessageType
use teraguchi.Wacom.Host.{
  deliver, UhidEvent, input2, get_report_reply, set_report_reply, host_dispatch,
}

-- Only the devices that were created are written to.
pub host_dispatch-deliver :
    (count : ℕ) (frame : Frame) (index : ℕ) (event : UhidEvent)
    → host_dispatch count frame ≡ deliver index event
    → (index < count) × (frame.interface ≡ index) × (frame.type ≢ MessageType.detach)
unfolding host_dispatch
host_dispatch-deliver count frame index event e = ground arith

-- The copy into the array of the event runs over its end by `excess` bytes.
abbrev pub Overruns : Kernel → ℕ → UhidEvent → Type 0
Overruns kernel excess (input2 size bytes) = length bytes ≡ kernel.uhid_data_max + excess
Overruns kernel excess (get_report_reply id error size bytes) =
    length bytes ≡ kernel.uhid_data_max + excess
Overruns kernel excess (set_report_reply id error) = ⊥

pub host_dispatch-input :
    (count : ℕ) (frame : Frame)
    → frame.type ≡ MessageType.input
    → frame.interface < count
    → length frame.payload < 2 ^ 16
    → host_dispatch count frame
      ≡ deliver frame.interface (input2 (length frame.payload) frame.payload)
unfolding host_dispatch
host_dispatch-input count frame t i small =
    let narrow : length frame.payload % 2 ^ 16 ≡ length frame.payload = omega arith in
    rw (t, narrow) (ground arith)
