-- ===== src/Wacom/Connect.antt =====
-- `connect_tcp` and `listen_tcp` of the bridge: the loops over the addresses that `getaddrinfo` found.
-- Each address says what its calls do, with the descriptor that `socket` gives.
use teraguchi.Common.{ℕ, ◌≡◌, refl, ap, List, [], ◌∷◌, ◌++◌, Option, none, some}

pub data ConnectStep : Type 0 where
  no_socket : ConnectStep
  refuses : ℕ → ConnectStep
  connects : ℕ → ConnectStep

pub data ListenStep : Type 0 where
  no_socket : ListenStep
  bind_fails : ℕ → ListenStep
  listen_fails : ℕ → ListenStep
  listens : ℕ → ListenStep

-- The descriptor that is returned, or -1, the sockets that were opened, and those that were closed.
pub record Sockets : Type 0 where
  pub result : Option ℕ
  pub opened : List ℕ
  pub closed : List ℕ

unfoldable pub open_and_close : ℕ → Sockets → Sockets
open_and_close fd rest = record rest { opened = fd ∷ rest.opened; closed = fd ∷ rest.closed }

unfoldable pub connect_addresses : List ConnectStep → Sockets
connect_addresses [] = record { result = none; opened = []; closed = [] }
connect_addresses (ConnectStep.no_socket ∷ steps) = connect_addresses steps
connect_addresses (refuses fd ∷ steps) = open_and_close fd (connect_addresses steps)
connect_addresses (connects fd ∷ steps) = record { result = some fd; opened = fd ∷ []; closed = [] }

-- `none` is an error of `getaddrinfo`.
unfoldable pub connect_tcp : Option (List ConnectStep) → Sockets
connect_tcp none = record { result = none; opened = []; closed = [] }
connect_tcp (some addresses) = connect_addresses addresses

unfoldable pub listen_addresses : List ListenStep → Sockets
listen_addresses [] = record { result = none; opened = []; closed = [] }
listen_addresses (ListenStep.no_socket ∷ steps) = listen_addresses steps
listen_addresses (bind_fails fd ∷ steps) = open_and_close fd (listen_addresses steps)
listen_addresses (listen_fails fd ∷ steps) = open_and_close fd (listen_addresses steps)
listen_addresses (listens fd ∷ steps) = record { result = some fd; opened = fd ∷ []; closed = [] }

unfoldable pub listen_tcp : Option (List ListenStep) → Sockets
listen_tcp none = record { result = none; opened = []; closed = [] }
listen_tcp (some addresses) = listen_addresses addresses

abbrev pub returned : Sockets → List ℕ
returned sockets = elim sockets.result [ some fd ↦ fd ∷ [] | none ↦ [] ]

-- A loop that leaks no socket: what it opened is what it closed, and then what it returns.
abbrev pub Tidy : Sockets → Type 0
Tidy sockets = sockets.opened ≡ sockets.closed ++ returned sockets

connect_addresses-Tidy : (steps : List ConnectStep) → Tidy (connect_addresses steps)
unfolding connect_addresses open_and_close
connect_addresses-Tidy [] = refl
connect_addresses-Tidy (ConnectStep.no_socket ∷ steps) = connect_addresses-Tidy steps
connect_addresses-Tidy (refuses fd ∷ steps) =
    ap (λ (fds : List ℕ). fd ∷ fds) (connect_addresses-Tidy steps)
connect_addresses-Tidy (connects fd ∷ steps) = refl

listen_addresses-Tidy : (steps : List ListenStep) → Tidy (listen_addresses steps)
unfolding listen_addresses open_and_close
listen_addresses-Tidy [] = refl
listen_addresses-Tidy (ListenStep.no_socket ∷ steps) = listen_addresses-Tidy steps
listen_addresses-Tidy (bind_fails fd ∷ steps) =
    ap (λ (fds : List ℕ). fd ∷ fds) (listen_addresses-Tidy steps)
listen_addresses-Tidy (listen_fails fd ∷ steps) =
    ap (λ (fds : List ℕ). fd ∷ fds) (listen_addresses-Tidy steps)
listen_addresses-Tidy (listens fd ∷ steps) = refl

-- Whatever the addresses do, each socket that `connect_tcp` or `listen_tcp` opens is closed again, but
-- for the one that is returned, which is opened last.
tcp-Tidy :
    (connecting : Option (List ConnectStep)) (listening : Option (List ListenStep))
    → Tidy (connect_tcp connecting) × Tidy (listen_tcp listening)
unfolding connect_tcp listen_tcp
tcp-Tidy none none = (refl, refl)
tcp-Tidy none (some ls) = (refl, listen_addresses-Tidy ls)
tcp-Tidy (some cs) none = (connect_addresses-Tidy cs, refl)
tcp-Tidy (some cs) (some ls) = (connect_addresses-Tidy cs, listen_addresses-Tidy ls)
