-- ===== src/Kms/Output.antt =====
-- The choice of an output: `mode_refresh_hz`, `better_mode` and `select_output`. The constants of the
-- kernel's headers and the arithmetic of doubles are parameters; what libdrm answers is data.
pub mod Rank
pub mod Best
use teraguchi.Common.{
  ℕ, zero, suc, ◌+◌, ◌*◌, ◌/◌, ◌%◌, ◌^◌, Bool, true, false, ◌||◌, ◌&&◌, List, [], ◌∷◌, Option, none,
  some, bit_and, ltb, ◌==◌, ◌!=◌, if◌then◌else◌, get_or,
}

pub record ModeInfo : Type 0 where
  pub clock : ℕ
  pub hdisplay : ℕ
  pub htotal : ℕ
  pub vdisplay : ℕ
  pub vtotal : ℕ
  pub vscan : ℕ
  pub flags : ℕ
  pub type : ℕ

-- The flags of drm_mode.h.
pub record ModeFlags : Type 0 where
  pub interlace : ℕ
  pub dblscan : ℕ
  pub preferred : ℕ

pub record Doubles : Type 1 where
  pub Double : Type 0
  pub of_nat : ℕ → Double
  pub times : Double → Double → Double
  pub over : Double → Double → Double
  pub less : Double → Double → Bool
  -- `static_cast<std::uint64_t>(x + 0.5)`
  pub rounded : Double → ℕ

pub record Encoder : Type 0 where
  pub crtc_id : ℕ
  pub possible_crtcs : ℕ

-- `encoder` is what `drmModeGetEncoder` answers for `encoder_id`.
pub record Connector : Type 0 where
  pub connector_id : ℕ
  pub connected : Bool
  pub modes : List ModeInfo
  pub encoder_id : ℕ
  pub encoder : Option Encoder

-- What `select_output` notes in the state.
pub record Output : Type 0 where
  pub connector_id : ℕ
  pub crtc_index : ℕ
  pub crtc_id : ℕ
  pub mode : ModeInfo

-- The loop over the CRTCs from `index`: the last one with this id.
unfoldable pub current_crtc : List ℕ → ℕ → ℕ → Option ℕ → Option ℕ
current_crtc [] index id selected = selected
current_crtc (crtc ∷ crtcs) index id selected =
    current_crtc crtcs (suc index) id (if crtc == id then some index else selected)

-- The first CRTC from `index` that the encoder can drive.
unfoldable pub possible_crtc : List ℕ → ℕ → ℕ → Option ℕ
possible_crtc [] index possible = none
possible_crtc (crtc ∷ crtcs) index possible =
    let rest = possible_crtc crtcs (suc index) possible in
    if possible / 2 ^ index % 2 != 0 then some index else rest

unfoldable pub or_possible : List ℕ → ℕ → Option ℕ → Option ℕ
or_possible crtcs possible none = possible_crtc crtcs 0 possible
or_possible crtcs possible (some index) = some index

unfoldable pub crtc_of : List ℕ → Option Encoder → Option ℕ
crtc_of crtcs none = none
crtc_of crtcs (some encoder) =
    or_possible crtcs encoder.possible_crtcs
      (if encoder.crtc_id != 0 then current_crtc crtcs 0 encoder.crtc_id none else none)

module _ (drm : ModeFlags) (doubles : Doubles) where
  unfoldable pub mode_refresh_hz : ModeInfo → doubles.Double
  mode_refresh_hz mode =
      let frame = doubles.times (doubles.of_nat mode.htotal) (doubles.of_nat mode.vtotal) in
      let hz =
        doubles.over (doubles.times (doubles.of_nat mode.clock) (doubles.of_nat 1000)) frame in
      let hz =
        if bit_and mode.flags drm.interlace != 0 then doubles.times hz (doubles.of_nat 2) else hz in
      let hz =
        if bit_and mode.flags drm.dblscan != 0 then doubles.over hz (doubles.of_nat 2) else hz in
      let hz = if ltb 1 mode.vscan then doubles.over hz (doubles.of_nat mode.vscan) else hz in
      if mode.htotal == 0 || mode.vtotal == 0 then doubles.of_nat 0 else hz

  abbrev pub area : ModeInfo → ℕ
  area mode = mode.hdisplay * mode.vdisplay

  abbrev pub is_preferred : ModeInfo → Bool
  is_preferred mode = bit_and mode.type drm.preferred != 0

  abbrev pub differ : Bool → Bool → Bool
  differ true true = false
  differ true false = true
  differ false b = b

  unfoldable pub better_mode : ModeInfo → ModeInfo → Bool
  better_mode candidate best =
      if area candidate != area best
      then ltb (area best) (area candidate)
      else if differ (is_preferred candidate) (is_preferred best)
      then is_preferred candidate
      else doubles.less (mode_refresh_hz best) (mode_refresh_hz candidate)

  unfoldable pub best_mode : ModeInfo → List ModeInfo → ModeInfo
  best_mode best [] = best
  best_mode best (mode ∷ modes) = best_mode (if better_mode mode best then mode else best) modes

  abbrev pub output : List ℕ → Connector → ModeInfo → List ModeInfo → Option ℕ → Option Output
  output crtcs connector mode modes none = none
  output crtcs connector mode modes (some index) = some (record {
    connector_id = connector.connector_id;
    crtc_index = index;
    crtc_id = get_or crtcs index 0;
    mode = best_mode mode modes;
  })

  -- The output that a connector gives, if it gives one; `drmModeGetConnector` may answer NULL.
  unfoldable pub output_of_modes : List ℕ → Connector → List ModeInfo → Option Output
  output_of_modes crtcs connector [] = none
  output_of_modes crtcs connector (mode ∷ modes) =
      if connector.connected
      then output crtcs connector mode modes
          (crtc_of crtcs (if connector.encoder_id == 0 then none else connector.encoder))
      else none

  unfoldable pub output_of : List ℕ → Option Connector → Option Output
  output_of crtcs none = none
  output_of crtcs (some connector) = output_of_modes crtcs connector connector.modes

  -- One round of the loop: the output found before, if there is one, and the connector's.
  unfoldable pub keep_better : Option Output → Option Output → Option Output
  keep_better found none = found
  keep_better none (some new) = some new
  keep_better (some old) (some new) = if better_mode new.mode old.mode then some new else some old

  unfoldable pub select_connectors :
      List ℕ → Option Output → List (Option Connector) → Option Output
  select_connectors crtcs found [] = found
  select_connectors crtcs found (connector ∷ connectors) =
      select_connectors crtcs (keep_better found (output_of crtcs connector)) connectors

  -- The refresh interval in nanoseconds, where the rate is near enough to 60 Hz.
  unfoldable pub refresh_ns : Option Output → Option ℕ
  refresh_ns none = none
  refresh_ns (some chosen) =
      let hz = mode_refresh_hz chosen.mode in
      if doubles.less hz (doubles.of_nat 59) || doubles.less (doubles.of_nat 61) hz
      then none
      else some (doubles.rounded (doubles.over (doubles.of_nat 1000000000) hz))

  -- The output that is noted in the state, and the refresh interval where the call returns true;
  -- `drmModeGetResources` may answer NULL.
  unfoldable pub select_output :
      Option (List ℕ × List (Option Connector)) → Option Output × Option ℕ
  select_output none = (none, none)
  select_output (some (crtcs, connectors)) =
      let chosen = select_connectors crtcs none connectors in (chosen, refresh_ns chosen)
