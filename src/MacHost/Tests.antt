-- ===== src/MacHost/Tests.antt =====
-- The theorems of the macOS host at concrete inputs.
use teraguchi.Common.{◌≡◌, ◌↔◌, ◌⊎◌, refl, true, false, List, [], ◌∷◌, replicate}
use teraguchi.MacHost.Account.{
  AccountIdentity, GraphicalIdentity, desktop, sign_in, account_may_attach,
}
use teraguchi.MacHost.Account.Policy.{IsAccount, IsScope, account_may_attach_iff}
use teraguchi.MacHost.Recovery.{Event, initial, begin_key_frame, send_sample, begin, run}
use teraguchi.MacHost.Recovery.Traces.{run-requested, begin-run}

abbrev artist : AccountIdentity
artist = record { uid = 501; uuid = replicate 16 7 }

abbrev artist_desktop : GraphicalIdentity
artist_desktop = record { active = true; generation = 3; account = artist; phase = desktop }

account_may_attach_iff_example :
    (account_may_attach artist artist_desktop artist_desktop ≡ true) ↔ (
      IsAccount artist
      × (artist_desktop ≡ artist_desktop)
      × IsScope artist_desktop
      × ((desktop ≡ sign_in) ⊎ (artist ≡ artist)))
account_may_attach_iff_example = account_may_attach_iff artist artist_desktop artist_desktop

abbrev lossy : List Event
lossy = begin_key_frame ∷ send_sample true false false ∷ send_sample false true true ∷ []

run-requested_example : (run initial lossy).requested ≡ true
run-requested_example =
    run-requested initial lossy ((λ e p. cc), ((λ e p. cc), ((λ e p. cc), tt))) refl

begin-run_example :
    begin (run (begin initial).0 (send_sample true true false ∷ []))
    ≡ (run (begin initial).0 (send_sample true true false ∷ []), false)
unfolding begin
begin-run_example = begin-run initial (send_sample true true false ∷ []) refl ((λ p. cc), tt)
