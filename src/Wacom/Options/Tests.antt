-- ===== src/Wacom/Options/Tests.antt =====
-- The options and the addresses of the bridge at concrete inputs.
use teraguchi.Common.{◌≡◌, refl, List, [], ◌∷◌}
use teraguchi.Common.Bytes.{same_bytes}
use teraguchi.Wacom.Options.{
  listen_option, connect_option, allow_option, take_option, parse_options, client_of, host, client,
  main,
}
use teraguchi.Wacom.Options.Print.{Choice, hidraw, grab, print_options}
use teraguchi.Wacom.Connect.{ConnectStep, refuses, connects}

abbrev three_choices : List Choice
three_choices = hidraw (b'a' ∷ []) ∷ (grab (b'b' ∷ []) ∷ (hidraw (b'c' ∷ []) ∷ []))

bridge_client :
    main
      ((b'w' ∷ []) ∷ (connect_option ∷ ((b'h' ∷ []) ∷ ((b'1' ∷ []) ∷ print_options three_choices))))
    ≡ client (b'h' ∷ []) (b'1' ∷ []) ((b'a' ∷ []) ∷ ((b'c' ∷ []) ∷ [])) ((b'b' ∷ []) ∷ [])
unfolding main client_of parse_options take_option same_bytes
bridge_client = refl

-- The host runs only where the plaintext bridge is allowed by name.
bridge_host :
    main ((b'w' ∷ []) ∷ (listen_option ∷ ((b'h' ∷ []) ∷ ((b'1' ∷ []) ∷ (allow_option ∷ [])))))
    ≡ host (b'h' ∷ []) (b'1' ∷ [])
unfolding main client_of parse_options take_option same_bytes
bridge_host = refl

abbrev two_addresses : List ConnectStep
two_addresses = refuses 3 ∷ (connects 4 ∷ [])
