-- ===== src/Game/Commands.antt =====
-- game/commands.go: the commands of the player's console and how a request finds its command.
pub mod Found
use Prim.Native.String
use Prim.Native.Char.{Char, code}
use jasons_game.Base.{
  ℕ, String, Bool, true, false, ◌||◌, ◌&&◌, Option, none, some, List, [], ◌∷◌, eqb, leb,
  if◌then◌else◌,
}
use jasons_game.Game.Interactions.{Interaction, get_hidden}

pub data Command : Type 0 where
  -- name, parse, hidden, help_group
  basic_command : String → String → Bool → String → Command
  -- parse, interaction, help_group, did
  interaction_command : String → Interaction → String → String → Command

unfoldable pub name : Command → String
name (basic_command n _ _ _) = n
name (interaction_command _ _ _ _) = "interaction"

unfoldable pub parse : Command → String
parse (basic_command _ p _ _) = p
parse (interaction_command p _ _ _) = p

unfoldable pub hidden : Command → Bool
hidden (basic_command _ _ h _) = h
hidden (interaction_command _ i _ _) = get_hidden i

unfoldable pub help_group : Command → String
help_group (basic_command _ _ _ g) = g
help_group (interaction_command _ _ g _) = g

abbrev pub new_command : String → String → Command
new_command n p = basic_command n p false ""

abbrev pub new_hidden_command : String → String → Command
new_hidden_command n p = basic_command n p true ""

abbrev pub default_command_list : List Command
default_command_list =
    new_command "create-object" "create object"
    ∷ new_command "player-inventory-list" "look in bag"
    ∷ new_command "transfer-object" "transfer object"
    ∷ new_command "receive-object" "receive object"
    ∷ new_command "help" "help"
    ∷ new_command "help" "help location"
    ∷ new_command "help" "help [name of object]"
    ∷ new_hidden_command "create-location" "create location"
    ∷ new_hidden_command "connect-location" "connect location"
    ∷ new_hidden_command "exit" "exit"
    ∷ new_hidden_command "refresh" "refresh"
    ∷ []

-- strings.HasPrefix with strings.TrimPrefix: what follows the prefix, if the text has it
abbrev pub after_prefix : String → String → Option String
after_prefix String.[] s = some s
after_prefix (String.◌∷◌ c p) String.[] = none
after_prefix (String.◌∷◌ c p) (String.◌∷◌ d s) =
    let rest = after_prefix p s in if eqb (code c) (code d) then rest else none

-- unicode.IsSpace
abbrev pub is_space : ℕ → Bool
is_space c =
    (leb 9 c && leb c 13)
    || eqb c 32
    || eqb c 133
    || eqb c 160
    || eqb c 5760
    || (leb 8192 c && leb c 8202)
    || eqb c 8232
    || eqb c 8233
    || eqb c 8239
    || eqb c 8287
    || eqb c 12288

abbrev pub trim_left : String → String
trim_left String.[] = ""
trim_left (String.◌∷◌ c s) =
    let rest = trim_left s in if is_space (code c) then rest else String.◌∷◌ c s

-- without the spaces at the end
abbrev pub trim_right : String → String
trim_right String.[] = ""
trim_right (String.◌∷◌ c s) = keep c (trim_right s)
  where
    keep : Char → String → String
    keep d String.[] = if is_space (code d) then "" else String.◌∷◌ d ""
    keep d (String.◌∷◌ e t) = String.◌∷◌ d (String.◌∷◌ e t)

abbrev pub trim_space : String → String
trim_space s = trim_left (trim_right s)

unfoldable pub find_command : List Command → String → Option Command × String
find_command [] req = (none, "")
find_command (comm ∷ cl) req =
    let others = find_command cl req in
    elim (after_prefix (parse comm) req) [
      | none ↦ others
      | some rest ↦ (some comm, trim_space rest)
    ]
