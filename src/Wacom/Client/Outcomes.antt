-- ===== src/Wacom/Client/Outcomes.antt =====
-- The ioctl of a report's type, and the answers to its outcomes.
use teraguchi.Common.{
  ℕ, ◌≢◌, refl, ◌⊎◌, inl, inr, Bool, Bool-cases, if◌then◌else◌, ◌==◌, ◌%◌, ◌^◌, ◌≤◌, ◌<◌, ◌≡◌, true,
  false, List, [], length, arith, take, length-take,
}
use teraguchi.Wacom.Frames.{Kernel}
use teraguchi.Wacom.Host.{UhidEvent, get_report_reply, set_report_reply}
use teraguchi.Wacom.Client.{IoctlResult, fails, gives, Hidraw, call, error_of, report_of}

module _ (kernel : Kernel) (hidraw : Hidraw) where
  -- The result of the ioctl of the report's type: `feature`, `output` and `input` are the requests for
  -- the three types that there are.
  abbrev pub Picks : ℕ → ℕ → ℕ → ℕ → ℕ → List ℕ → IoctlResult → Type 0
  Picks index rtype feature output input buffer result =
      ((rtype ≡ hidraw.feature_report) × (result ≡ hidraw.ioctl index feature buffer))
      ⊎ ((rtype ≢ hidraw.feature_report)
          × (((rtype ≡ hidraw.output_report) × (result ≡ hidraw.ioctl index output buffer))
              ⊎ ((rtype ≢ hidraw.output_report)
                  × (((rtype ≡ hidraw.input_report) × (result ≡ hidraw.ioctl index input buffer))
                      ⊎ ((rtype ≢ hidraw.input_report) × (result ≡ fails kernel.einval))))))

  pub picked :
      (index rtype feature output input : ℕ) (buffer : List ℕ)
      → feature ≢ 0
      → output ≢ 0
      → input ≢ 0
      → Picks index rtype feature output input buffer (
          call kernel hidraw index
            (if rtype == hidraw.feature_report
              then feature
              else if rtype == hidraw.output_report
              then output
              else if rtype == hidraw.input_report
              then input
              else 0)
            buffer)
  unfolding call
  picked index rtype feature output input buffer hf ho hi =
      elim (Bool-cases (rtype == hidraw.feature_report)) [
        | inl e ↦ inl (ground (arith, e), ground (arith, e, hf))
        | inr e ↦ inr (
          ground (arith, e),
          elim (Bool-cases (rtype == hidraw.output_report)) [
            | inl f ↦ inl (ground (arith, f), ground (arith, e, f, ho))
            | inr f ↦ inr (
              ground (arith, f),
              elim (Bool-cases (rtype == hidraw.input_report)) [
                | inl g ↦ inl (ground (arith, g), ground (arith, e, f, g, hi))
                | inr g ↦ inr (ground (arith, g), ground (arith, e, f, g))
              ],
            )
          ],
        )
      ]

  -- What linux/hidraw.h and the kernel say: no request is 0, and no more bytes come back than the
  -- buffer holds.
  pub record IsHidraw : Type 0 where
    pub get_feature : (n : ℕ) → hidraw.get_feature n ≢ 0
    pub get_output : (n : ℕ) → hidraw.get_output n ≢ 0
    pub get_input : (n : ℕ) → hidraw.get_input n ≢ 0
    pub set_feature : (n : ℕ) → hidraw.set_feature n ≢ 0
    pub set_output : (n : ℕ) → hidraw.set_output n ≢ 0
    pub set_input : (n : ℕ) → hidraw.set_input n ≢ 0
    pub bounded :
        (index request n : ℕ) (buffer report : List ℕ)
        → hidraw.ioctl index request buffer ≡ gives n report
        → n ≤ length buffer

  -- The events that answer a request whose ioctl had the result.
  abbrev pub set_answer : ℕ → IoctlResult → UhidEvent
  set_answer id (fails errno) = set_report_reply id (errno % 2 ^ 16)
  set_answer id (gives n report) = set_report_reply id 0

  abbrev pub get_answer : ℕ → IoctlResult → UhidEvent
  get_answer id (fails errno) = get_report_reply id (errno % 2 ^ 16) 0 []
  get_answer id (gives n report) = get_report_reply id 0 (length (take n report)) (take n report)

  pub set_answer_lem :
      (id : ℕ) (result : IoctlResult)
      → set_report_reply id (error_of kernel hidraw result % 2 ^ 16) ≡ set_answer id result
  set_answer_lem id (fails errno) = refl
  set_answer_lem id (gives n report) = refl

  pub get_answer_lem :
      (id : ℕ) (result : IoctlResult)
      → get_report_reply id
          (error_of kernel hidraw result % 2 ^ 16)
          (length (report_of kernel hidraw result))
          (report_of kernel hidraw result)
        ≡ get_answer id result
  get_answer_lem id (fails errno) = refl
  get_answer_lem id (gives n report) = refl

  pub short_report :
      (index request : ℕ) (buffer : List ℕ)
      → IsHidraw
      → length buffer < 2 ^ 16
      → length (report_of kernel hidraw (call kernel hidraw index request buffer)) < 2 ^ 16
  unfolding call
  short_report index request buffer w small =
      go (request == 0) (hidraw.ioctl index request buffer) refl
    where
      go :
          (zero : Bool) (r : IoctlResult)
          → hidraw.ioctl index request buffer ≡ r
          → length (report_of kernel hidraw (if zero then fails kernel.einval else r)) < 2 ^ 16
      go true r e = omega arith
      go false (fails errno) e = omega arith
      go false (gives n report) e =
          omega (arith, length-take n report, w.bounded index request n buffer report e, small)
