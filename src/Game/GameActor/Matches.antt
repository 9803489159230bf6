-- ===== src/Game/GameActor/Matches.antt =====
-- game/game.go: the arguments of commands, as its regular expressions and splits read them.
use Prim.Native.Char.{code}
use jasons_game.Base.{
  ℕ, zero, suc, String, Bool, true, false, ◌&&◌, ◌||◌, ◌<>◌, Option, some, none, List, [], ◌∷◌,
  ◌==◌, eqb, leb, if◌then◌else◌,
}
use jasons_game.Game.Commands.{after_prefix}
use jasons_game.Game.GameActor.Messages.{join_with}

-- [0-9A-Za-z]
unfoldable pub is_alphanumeric : ℕ → Bool
is_alphanumeric c = (leb 48 c && leb c 57) || (leb 65 c && leb c 90) || (leb 97 c && leb c 122)

-- as many letters and digits, with what follows them
unfoldable pub alphanumerics : ℕ → String → Option (String × String)
alphanumerics zero s = some ("", s)
alphanumerics (suc n) String.[] = none
alphanumerics (suc n) (String.◌∷◌ c s) = elim (alphanumerics n s) [
  | none ↦ none
  | some (a, rest) ↦ if is_alphanumeric (code c) then some (String.◌∷◌ c a, rest) else none
]

-- did:tupelo:[0-9A-Za-z]{42}, with what follows it
unfoldable pub did_at : String → Option (String × String)
did_at s = elim (after_prefix "did:tupelo:" s) [
  | none ↦ none
  | some rest ↦ elim (alphanumerics 42 rest) [
    | none ↦ none
    | some (id, end) ↦ some ("did:tupelo:" <> id, end)
  ]
]

-- \s?$
unfoldable pub at_end : String → Bool
at_end String.[] = true
at_end (String.◌∷◌ c String.[]) =
    eqb (code c) 9 || eqb (code c) 10 || eqb (code c) 12 || eqb (code c) 13 || eqb (code c) 32
at_end (String.◌∷◌ c (String.◌∷◌ d s)) = false

-- ` to (did:tupelo:[0-9A-Za-z]{42}){1}\s?$`
unfoldable pub target_at : String → Option String
unfolding did_at at_end
target_at s = elim (after_prefix " to " s) [
  | none ↦ none
  | some rest ↦ elim (did_at rest) [
    | none ↦ none
    | some (did, end) ↦ if at_end end then some did else none
  ]
]

-- The match of transferRegex: the text after the last line break before the target, and the target.
unfoldable pub transfer_match : String → String → Option (String × String)
unfolding target_at
transfer_match seen String.[] = none
transfer_match seen (String.◌∷◌ c s) =
    let later = transfer_match (if eqb (code c) 10 then "" else seen <> String.◌∷◌ c "") s in
    elim (target_at (String.◌∷◌ c s)) [ some did ↦ some (seen, did) | none ↦ later ]

-- regexp.MatchString(`did:tupelo:[0-9A-Za-z]{42}`, s)
unfoldable pub has_did : String → Bool
unfolding did_at
has_did String.[] = false
has_did (String.◌∷◌ c s) =
    let later = has_did s in elim (did_at (String.◌∷◌ c s)) [ some _ ↦ true | none ↦ later ]

-- strings.Split(s, " ")
unfoldable pub words_of : String → List String
words_of String.[] = "" ∷ []
words_of (String.◌∷◌ c s) =
    let rest = words_of s in
    if eqb (code c) 32
    then "" ∷ rest
    else elim rest [ [] ↦ String.◌∷◌ c "" ∷ [] | w ∷ ws ↦ String.◌∷◌ c w ∷ ws ]

-- the first word, and the others joined again
unfoldable pub name_and_description : List String → String × String
name_and_description [] = ("", "")
name_and_description (name ∷ rest) = (name, join_with " " rest)

-- \w
unfoldable pub is_word : ℕ → Bool
is_word c = (leb 48 c && leb c 57) || (leb 65 c && leb c 90) || (leb 97 c && leb c 122) || eqb c 95

-- \w+ with what follows it; the rest starts with no word character
unfoldable pub word : String → String × String
word String.[] = ("", "")
word (String.◌∷◌ c s) =
    let (w, rest) = word s in
    if is_word (code c) then (String.◌∷◌ c w, rest) else ("", String.◌∷◌ c s)

-- up to a line break
unfoldable pub line : String → String
line String.[] = ""
line (String.◌∷◌ c s) = let rest = line s in if eqb (code c) 10 then "" else String.◌∷◌ c rest

-- The match of `^(did:tupelo:\w+) as (.*)`: the did and the command.
unfoldable pub connect_match : String → Option (String × String)
unfolding word line
connect_match args = elim (after_prefix "did:tupelo:" args) [
  | none ↦ none
  | some rest ↦
      let (id, tail) = word rest in
      if id == "" then none else elim (after_prefix " as " tail) [
        | none ↦ none
        | some command ↦ some ("did:tupelo:" <> id, line command)
      ]
]
