-- ===== src/Game/Interactions/Tree.antt =====
-- game/interactions.go: `withInteractions`, the interactions that a tree keeps under their commands,
-- for any tree with the two methods of `updatableTree`.
pub mod Kept
pub mod Listed
use jasons_game.Base.{
  String, Bool, Option, none, some, List, [], ◌∷◌, map, false, is_some, if◌then◌else◌, join, ◌≡◌,
  true,
}
use jasons_game.Network.{
  Value, null, text, bool, number, list, object, link, entries, Res, ok, err, panic, message, M,
  pure, fail, lift, wrapping, ◌>>=◌, are_segments, put_at, walk,
}
use jasons_game.Game.Interactions.Types.{Interaction, get_command}
use jasons_game.Game.Interactions.Encoding.{Codec, interaction_to_node, interaction_from_value}

-- The Go interface of the trees; a tree whose update failed stays what it was.
pub record UpdatableTree (W T : Type 0) : Type 0 where
  pub get_path : T → List String → Res Value
  pub update_path : T → List String → Value → M W T

-- What a tree promises to its clients: a value under it that is read and written by paths. Segments
-- are joined by slashes for a write, so a segment with a slash in it is written as several.
pub record UpdatableLaws {W T : Type 0} (trees : UpdatableTree W T) : Type 0 where
  pub at_hand : T → Bool
  pub content : T → Value
  pub get_content :
      (t : T) (path : List String)
      → at_hand t ≡ true
      → trees.get_path t path ≡ ok (walk path (content t))
  pub update_content :
      (t t' : T) (path segments : List String) (v : Value) (w w' : W)
      → trees.update_path t path v w ≡ (ok t', w')
      → are_segments segments ≡ true
      → join ("jasons-game" ∷ path) ≡ join ("jasons-game" ∷ segments)
      → (at_hand t' ≡ true) × (content t' ≡ put_at segments v (content t))

-- `val == nil`
abbrev pub is_nil : Value → Bool
is_nil null = true
is_nil (text _) = false
is_nil (bool _) = false
is_nil (number _) = false
is_nil (list _) = false
is_nil (object _) = false
is_nil (link _) = false

abbrev pub some_of {ℓ} : {A : Type ℓ} → Res A → Res (Option A)
some_of (ok a) = ok (some a)
some_of (err e) = err e
some_of panic = panic

-- the keys over which a map is ranged; another value fails the type assertion
abbrev pub keys_of : Value → Res (List String)
keys_of (object m) = ok (map (λ p. p.0) (entries m))
keys_of null = panic
keys_of (text _) = panic
keys_of (bool _) = panic
keys_of (number _) = panic
keys_of (list _) = panic
keys_of (link _) = panic

module _ (codec : Codec) {W T : Type 0} (trees : UpdatableTree W T) where
  open trees use {get_path, update_path}

  -- nil, or the interaction that is stored
  abbrev pub stored_interaction : Value → Res (Option Interaction)
  stored_interaction v = if is_nil v then ok none else some_of (interaction_from_value codec v)

  unfoldable pub get_interaction_from_tree : T → String → M W (Option Interaction)
  get_interaction_from_tree tree command = do
    val ← lift (get_path tree ("interactions" ∷ command ∷ []))
    lift (stored_interaction val)

  unfoldable pub add_interaction_to_tree : T → Interaction → M W T
  add_interaction_to_tree tree i = do
    resp ← get_interaction_from_tree tree (get_command i)
    if is_some resp then fail (message "interaction already exists") else do
      to_store ← wrapping "error turning interaction into cbor" (lift (interaction_to_node codec i))
      update_path tree ("interactions" ∷ get_command i ∷ []) to_store

  -- the loop over the commands
  unfoldable pub listed : T → List String → M W (List (Option Interaction))
  listed tree [] = pure []
  listed tree (cmd ∷ rest) =
      get_interaction_from_tree tree cmd >>= λ i. listed tree rest >>= λ is. pure (i ∷ is)

  unfoldable pub interactions_list_from_tree : T → M W (List (Option Interaction))
  interactions_list_from_tree tree = do
    val ← lift (get_path tree ("interactions" ∷ []))
    if is_nil val then pure [] else do commands ← lift (keys_of val); listed tree commands
