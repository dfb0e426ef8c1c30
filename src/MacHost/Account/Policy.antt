-- ===== src/MacHost/Account/Policy.antt =====
-- What the account policy grants, and to whom.
use teraguchi.Common.{◌≡◌, ◌≢◌, ap, ◌∙◌, true, ◌⊎◌, arith, ◌==◌, ==_refl, ◌↔◌}
use teraguchi.Common.Bytes.{same_bytes, same_bytes→eq, same_bytes_refl}
use teraguchi.MacHost.Account.{
  AccountIdentity, GraphicalPhase, sign_in, desktop, GraphicalIdentity, empty_uuid, uint32_max,
  same_phase, account_identity_valid, graphical_identity_valid, same_graphical_scope,
  account_may_attach,
}

same_phase→eq : (p q : GraphicalPhase) → same_phase p q ≡ true → p ≡ q
unfolding same_phase
same_phase→eq p q h = ground arith

same_phase_refl : (p : GraphicalPhase) → same_phase p p ≡ true
unfolding same_phase
same_phase_refl p = ground arith

-- An account that a host may know: neither root nor the invalid user, and with an identity.
pub record IsAccount (a : AccountIdentity) : Type 0 where
  pub user : a.uid ≢ 0
  pub real : a.uid ≢ uint32_max
  pub known : a.uuid ≢ empty_uuid

-- A scope that grants something: a desktop with its owner, or a sign-in screen of nobody.
pub record IsScope (s : GraphicalIdentity) : Type 0 where
  pub live : s.active ≡ true
  pub numbered : s.generation ≢ 0
  pub owned :
      ((s.phase ≡ desktop) × IsAccount s.account)
      ⊎ ((s.phase ≡ sign_in) × (s.account ≡ record { uid = 0; uuid = empty_uuid }))

account_identity_valid-IsAccount :
    (a : AccountIdentity) → account_identity_valid a ≡ true → IsAccount a
unfolding account_identity_valid
account_identity_valid-IsAccount a h = record {
  user = ground arith;
  real = ground arith;
  known = set_uuid;
}
  where
    set_uuid : a.uuid ≢ empty_uuid
    set_uuid e =
        let zeros : same_bytes a.uuid empty_uuid ≡ true =
          ap (λ x. same_bytes x empty_uuid) e ∙ same_bytes_refl empty_uuid in
        ground arith

IsAccount→account_valid : (a : AccountIdentity) → IsAccount a → account_identity_valid a ≡ true
unfolding account_identity_valid
IsAccount→account_valid a v = ground (arith, same_bytes→eq a.uuid empty_uuid)

nobody_eq :
    (a : AccountIdentity)
    → (a.uid == 0) ≡ true
    → same_bytes a.uuid empty_uuid ≡ true
    → a ≡ record { uid = 0; uuid = empty_uuid }
nobody_eq a u s = ground (arith, same_bytes→eq a.uuid empty_uuid s)

graphical_valid→IsScope : (s : GraphicalIdentity) → graphical_identity_valid s ≡ true → IsScope s
unfolding graphical_identity_valid
graphical_valid→IsScope s h = record {
  live = ground arith;
  numbered = ground arith;
  owned = ground (
    arith,
    same_phase→eq s.phase desktop,
    same_phase→eq s.phase sign_in,
    account_identity_valid-IsAccount s.account,
    nobody_eq s.account,
  );
}

IsScope→graphical_valid : (s : GraphicalIdentity) → IsScope s → graphical_identity_valid s ≡ true
unfolding graphical_identity_valid same_phase
IsScope→graphical_valid s v =
    ground (arith, IsAccount→account_valid s.account, same_bytes_refl empty_uuid)

same_scope→eq : (b a : GraphicalIdentity) → same_graphical_scope b a ≡ true → (b ≡ a) × IsScope a
unfolding same_graphical_scope
same_scope→eq b a h = (eq, graphical_valid→IsScope a (ground arith))
  where
    eq : b ≡ a
    eq = ground (
      arith,
      same_phase→eq b.phase a.phase,
      same_bytes→eq b.account.uuid a.account.uuid,
      graphical_valid→IsScope b,
      graphical_valid→IsScope a,
    )

eq→same_scope : (a : GraphicalIdentity) → IsScope a → same_graphical_scope a a ≡ true
unfolding same_graphical_scope
eq→same_scope a v = rw (
  IsScope→graphical_valid a v,
  ==_refl a.generation,
  same_phase_refl a.phase,
  ==_refl a.account.uid,
  same_bytes_refl a.account.uuid,
)

-- An account may attach exactly where it is an account, the scope grants something and has not
-- changed since it was verified, and it is a sign-in screen or the account's own desktop.
pub account_may_attach_iff :
    (verified : AccountIdentity) (before after : GraphicalIdentity)
    → (account_may_attach verified before after ≡ true) ↔ (
        IsAccount verified
        × (before ≡ after)
        × IsScope after
        × ((after.phase ≡ sign_in) ⊎ (verified ≡ after.account)))
unfolding account_may_attach
account_may_attach_iff verified before after = (to, from)
  where
    to :
        account_may_attach verified before after ≡ true
        → IsAccount verified
          × (before ≡ after)
          × IsScope after
          × ((after.phase ≡ sign_in) ⊎ (verified ≡ after.account))
    to h =
        let (same, scope) = same_scope→eq before after (ground arith) in
        (
          account_identity_valid-IsAccount verified (ground arith),
          same,
          scope,
          ground (
            arith,
            same_phase→eq after.phase sign_in,
            same_bytes→eq verified.uuid after.account.uuid,
          ),
        )

    from :
        IsAccount verified
          × (before ≡ after)
          × IsScope after
          × ((after.phase ≡ sign_in) ⊎ (verified ≡ after.account))
        → account_may_attach verified before after ≡ true
    from (v, same, scope, own) = ground (
      arith,
      IsAccount→account_valid verified v,
      eq→same_scope after scope,
      same_phase_refl sign_in,
      ==_refl verified.uid,
      same_bytes_refl verified.uuid,
    )
