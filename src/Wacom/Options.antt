-- ===== src/Wacom/Options.antt =====
-- `main` of the bridge: which end runs, and with what.
pub mod Print
mod Tests
use teraguchi.Common.{
  ℕ, zero, suc, Bool, true, false, ◌||◌, ◌&&◌, List, [], ◌∷◌, ◌++◌, Option, none, some, drop,
  length, leb, ◌==◌, if◌then◌else◌, get_or,
}
use teraguchi.Common.Bytes.{same_bytes}

abbrev pub Text : Type 0
Text = List ℕ

abbrev pub listen_option : Text
listen_option = b'-' ∷ (b'-' ∷ (b'l' ∷ (b'i' ∷ (b's' ∷ (b't' ∷ (b'e' ∷ (b'n' ∷ [])))))))

abbrev pub connect_option : Text
connect_option = b'-' ∷ (b'-' ∷ (b'c' ∷ (b'o' ∷ (b'n' ∷ (b'n' ∷ (b'e' ∷ (b'c' ∷ (b't' ∷ []))))))))

abbrev pub hidraw_option : Text
hidraw_option = b'-' ∷ (b'-' ∷ (b'h' ∷ (b'i' ∷ (b'd' ∷ (b'r' ∷ (b'a' ∷ (b'w' ∷ [])))))))

abbrev pub grab_option : Text
grab_option = b'-' ∷ (b'-' ∷ (b'g' ∷ (b'r' ∷ (b'a' ∷ (b'b' ∷ [])))))

-- "--allow-insecure-qualification"
abbrev pub allow_option : Text
allow_option =
    b'-'
    ∷ (b'-'
        ∷ (b'a'
            ∷ (b'l'
                ∷ (b'l'
                    ∷ (b'o'
                        ∷ (b'w'
                            ∷ (b'-'
                                ∷ (b'i'
                                    ∷ (b'n'
                                        ∷ (b's'
                                            ∷ (b'e'
                                                ∷ (b'c'
                                                    ∷ (b'u'
                                                        ∷ (b'r'
                                                            ∷ (b'e'
                                                            ∷ (b'-'
                                                            ∷ (b'q'
                                                            ∷ (b'u'
                                                            ∷ (b'a'
                                                            ∷ (b'l'
                                                            ∷ (b'i'
                                                            ∷ (b'f'
                                                            ∷ (b'i'
                                                            ∷ (b'c'
                                                            ∷ (b'a'
                                                            ∷ (b't'
                                                            ∷ (b'i'
                                                            ∷ (b'o'
                                                            ∷ (b'n'
                                                            ∷ [])))))))))))))))))))))))))))))

-- The paths of the devices to bridge, and of those to grab.
abbrev pub Paths : Type 0
Paths = List Text × List Text

-- What the loop makes of one option and its value, where `rest` is what it makes of those that follow.
unfoldable pub take_option : Text → Text → Option Paths → Option Paths
take_option option value none = none
take_option option value (some (hidraws, grabs)) =
    if same_bytes option hidraw_option
    then some (value ∷ hidraws, grabs)
    else if same_bytes option grab_option
    then some (hidraws, value ∷ grabs)
    else none

unfoldable pub parse_options : List Text → Option Paths
parse_options [] = some ([], [])
parse_options (option ∷ []) = none
parse_options (option ∷ (value ∷ options)) = take_option option value (parse_options options)

pub data Program : Type 0 where
  exits : ℕ → Program
  host : Text → Text → Program
  client : Text → Text → List Text → List Text → Program

unfoldable pub client_of : Text → Text → Option Paths → Program
client_of address service none = exits 2
client_of address service (some ([], grabs)) = exits 2
client_of address service (some (hidraw ∷ hidraws, grabs)) =
    client address service (hidraw ∷ hidraws) grabs

-- `argv`, the program's name first.
unfoldable pub main : List Text → Program
main argv =
    if length argv == 5
      && same_bytes (get_or argv 1 []) listen_option
      && same_bytes (get_or argv 4 []) allow_option
    then host (get_or argv 2 []) (get_or argv 3 [])
    else if leb 7 (length argv) && same_bytes (get_or argv 1 []) connect_option
    then client_of (get_or argv 2 []) (get_or argv 3 []) (parse_options (drop 4 argv))
    else exits 2
