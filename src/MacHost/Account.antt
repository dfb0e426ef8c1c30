-- ===== src/MacHost/Account.antt =====
-- apps/host/macos/auth/account-policy.h: who may attach to which graphical session.
pub mod Policy
use teraguchi.Common.Bytes.{same_bytes}
use teraguchi.Common.{
  ℕ, ◌+◌, ◌-◌, ◌<◌, Bool, true, false, not, ◌&&◌, ◌||◌, List, [], ◌∷◌, ltb, ◌==◌, ◌!=◌,
  if◌then◌else◌, replicate,
}

pub record AccountIdentity : Type 0 where
  pub uid : ℕ
  pub uuid : List ℕ

pub data GraphicalPhase : Type 0 where
  unavailable sign_in desktop : GraphicalPhase

unfoldable pub same_phase : GraphicalPhase → GraphicalPhase → Bool
same_phase unavailable unavailable = true
same_phase sign_in sign_in = true
same_phase desktop desktop = true
same_phase _ _ = false

pub record GraphicalIdentity : Type 0 where
  pub active : Bool
  pub generation : ℕ
  pub account : AccountIdentity
  pub phase : GraphicalPhase

-- `uint8_t empty[16] = {0}`
abbrev pub empty_uuid : List ℕ
empty_uuid = replicate 16 0

abbrev pub uint32_max : ℕ
uint32_max = 0xffffffff

unfoldable pub account_identity_valid : AccountIdentity → Bool
account_identity_valid account =
    account.uid != 0 && account.uid != uint32_max && not (same_bytes account.uuid empty_uuid)

unfoldable pub graphical_identity_valid : GraphicalIdentity → Bool
graphical_identity_valid scope =
    if not scope.active || scope.generation == 0
    then false
    else if same_phase scope.phase desktop
    then account_identity_valid scope.account
    else same_phase scope.phase sign_in
      && scope.account.uid == 0
      && same_bytes scope.account.uuid empty_uuid

unfoldable pub same_graphical_scope : GraphicalIdentity → GraphicalIdentity → Bool
same_graphical_scope before after =
    graphical_identity_valid before
    && graphical_identity_valid after
    && before.generation == after.generation
    && same_phase before.phase after.phase
    && before.account.uid == after.account.uid
    && same_bytes before.account.uuid after.account.uuid

unfoldable pub account_may_attach : AccountIdentity → GraphicalIdentity → GraphicalIdentity → Bool
account_may_attach verified before after =
    account_identity_valid verified
    && same_graphical_scope before after
    && (same_phase after.phase sign_in
        || verified.uid == after.account.uid && same_bytes verified.uuid after.account.uuid)
