-- ===== src/Wacom/Options/Print.antt =====
-- The options that the bridge's client takes, written out and read again.
use teraguchi.Common.{
  ◌≡◌, refl, ap, ap₂, sym, ◌∙◌, ◌⊎◌, Bool, true, false, List, [], ◌∷◌, Option, none, some,
  if◌then◌else◌, inl, inr,
}
use teraguchi.Common.Bytes.{same_bytes, same_bytes→eq}
use teraguchi.Wacom.Options.{Text, hidraw_option, grab_option, Paths, take_option, parse_options}

-- An option with its path.
pub data Choice : Type 0 where
  hidraw : Text → Choice
  grab : Text → Choice

abbrev pub print_options : List Choice → List Text
print_options [] = []
print_options (hidraw path ∷ choices) = hidraw_option ∷ (path ∷ print_options choices)
print_options (grab path ∷ choices) = grab_option ∷ (path ∷ print_options choices)

abbrev pub hidraws : List Choice → List Text
hidraws [] = []
hidraws (hidraw path ∷ choices) = path ∷ hidraws choices
hidraws (grab path ∷ choices) = hidraws choices

abbrev pub grabs : List Choice → List Text
grabs [] = []
grabs (hidraw path ∷ choices) = grabs choices
grabs (grab path ∷ choices) = path ∷ grabs choices

-- The paths of every list of options come out in order, those to bridge and those to grab apart.
pub parse_options-print_options :
    (choices : List Choice)
    → parse_options (print_options choices) ≡ some (hidraws choices, grabs choices)
unfolding parse_options take_option same_bytes
parse_options-print_options [] = refl
parse_options-print_options (hidraw path ∷ choices) = rw (parse_options-print_options choices) refl
parse_options-print_options (grab path ∷ choices) = rw (parse_options-print_options choices) refl

some_paths : (a b : Paths) → some a ≡ some b → a ≡ b
some_paths a b e = cc

picked :
    (h g : Bool) (a b paths : Paths)
    → (if h then some a else if g then some b else none) ≡ some paths
    → ((h ≡ true) × (a ≡ paths)) ⊎ ((g ≡ true) × (b ≡ paths))
picked true g a b paths e = inl (refl, some_paths a paths e)
picked false true a b paths e = inr (refl, some_paths b paths e)
picked false false a b paths e = cc

record Chosen (arguments : List Text) (paths : Paths) : Type 0 where
  choices : List Choice
  printed : print_options choices ≡ arguments
  listed : (hidraws choices, grabs choices) ≡ paths

more_hidraw :
    (option path : Text) (options : List Text) (rest paths : Paths)
    → option ≡ hidraw_option
    → (path ∷ rest.0, rest.1) ≡ paths
    → Chosen options rest
    → Chosen (option ∷ (path ∷ options)) paths
more_hidraw option path options rest paths same e c = record {
  choices = hidraw path ∷ c.choices;
  printed = ap₂ (λ (o : Text) (os : List Text). o ∷ (path ∷ os)) (sym same) c.printed;
  listed = ap (λ (p : Paths). (path ∷ p.0, p.1)) c.listed ∙ e;
}

more_grab :
    (option path : Text) (options : List Text) (rest paths : Paths)
    → option ≡ grab_option
    → (rest.0, path ∷ rest.1) ≡ paths
    → Chosen options rest
    → Chosen (option ∷ (path ∷ options)) paths
more_grab option path options rest paths same e c = record {
  choices = grab path ∷ c.choices;
  printed = ap₂ (λ (o : Text) (os : List Text). o ∷ (path ∷ os)) (sym same) c.printed;
  listed = ap (λ (p : Paths). (p.0, path ∷ p.1)) c.listed ∙ e;
}

take_option-Chosen :
    (option path : Text) (options : List Text) (rest : Option Paths) (paths : Paths)
    → take_option option path rest ≡ some paths
    → ((p : Paths) → rest ≡ some p → Chosen options p)
    → Chosen (option ∷ (path ∷ options)) paths
unfolding take_option
take_option-Chosen option path options none paths e c = cc
take_option-Chosen option path options (some (hs, gs)) paths e c =
    elim (picked (same_bytes option hidraw_option) (same_bytes option grab_option) (path ∷ hs, gs)
      (hs, path ∷ gs) paths e) [
        | inl (h, p) ↦
            more_hidraw option path options (hs, gs) paths (same_bytes→eq option hidraw_option h) p
              (c (hs, gs) refl)
        | inr (g, p) ↦
            more_grab option path options (hs, gs) paths (same_bytes→eq option grab_option g) p
              (c (hs, gs) refl)
      ]

parse_options-Chosen :
    (arguments : List Text) (paths : Paths)
    → parse_options arguments ≡ some paths
    → Chosen arguments paths
unfolding parse_options
parse_options-Chosen [] paths e = record {
  choices = [];
  printed = refl;
  listed = some_paths _ paths e;
}
parse_options-Chosen (option ∷ []) paths e = cc
parse_options-Chosen (option ∷ (value ∷ options)) paths e =
    take_option-Chosen option value options (parse_options options) paths e
      (λ p. parse_options-Chosen options p)

-- Only lists of options are accepted: each argument that is read is an option with its path.
print_options-parse_options :
    (arguments : List Text) (paths : Paths)
    → parse_options arguments ≡ some paths
    → (choices : List Choice) × (print_options choices ≡ arguments)
      × ((hidraws choices, grabs choices) ≡ paths)
print_options-parse_options arguments paths e =
    let c = parse_options-Chosen arguments paths e in (c.choices, c.printed, c.listed)
