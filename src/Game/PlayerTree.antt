-- ===== src/Game/PlayerTree.antt =====
-- game/player_tree.go and game/default_tree.go: the player's chaintree and the home that every player
-- has. The handle of the player's tree is never nil; the network is a parameter of the section.
use jasons_game.Base.{String, false, Option, none, some, List, [], ◌∷◌, ◌<>◌}
use jasons_game.Network.{
  Value, null, text, bool, number, list, object, link, elements, Res, ok, err, panic, message, M,
  pure, fail, lift, wrapping, reads, ◌>>=◌, Network, fetch,
}
use jasons_game.Handlers.Remote.{texts_of}
use jasons_game.Game.Interactions.{Codec, change_named_location}
use jasons_game.Game.LocationTree.{LocationTree, set_description, add_interaction}

abbrev pub player_tree_path : String
player_tree_path = "jasons-game/player"

abbrev pub home_location_description : String
home_location_description =
    "You are home in a small cozy, rustic room. There are shelves on the walls where you\ncan leave things and a fireplace in the corner lit with a warm fire.\nThis is your space. Not exactly part of fae proper, but also not part of your physical world.\n\nYou can use your powers to 'portal to fae' or 'portal to mountain' from here."

-- jasonsgame.Player as it is stored, and typecaster.ToType back from it; a player is a name here.
pub record PlayerCodec : Type 0 where
  pub player_value : String → Value
  pub to_player : Value → Res String

-- `authsUncasted.([]interface{})`, each a text
unfoldable pub auths_of : Value → Res (List String)
auths_of (list vs) = texts_of (elements vs)
auths_of null = panic
auths_of (text _) = panic
auths_of (bool _) = panic
auths_of (number _) = panic
auths_of (object _) = panic
auths_of (link _) = panic

module _ (net : Network) where
  open net use {
    World, Tree, must_id, authentications_path, resolve, update_chain_tree, create_local_chain_tree,
    get_chain_tree_by_name,
  }

  pub record PlayerTree : Type 0 where
    pub tree : Tree
    pub home_location : LocationTree net
    pub player : Option String
    pub did : String

  -- consensus.TreePathForAuthentications
  unfoldable pub player_authentications : PlayerTree → M World (List String)
  unfolding auths_of
  player_authentications pt = do
    auths_uncasted ← wrapping "error resolving" (lift (resolve pt.tree authentications_path))
    lift (auths_of auths_uncasted)

  unfoldable pub set_tree : PlayerTree → Tree → PlayerTree
  set_tree pt tree = record pt { tree = tree; did = must_id tree }

  module _ (players : PlayerCodec) where
    open players use {player_value, to_player}

    unfoldable pub set_player : PlayerTree → String → M World PlayerTree
    unfolding set_tree
    set_player pt p = do
      tree ←
          wrapping "error updating tree"
            (update_chain_tree pt.tree player_tree_path (player_value p))
      pure (record (set_tree pt tree) { player = some p })

    unfoldable pub refresh_player : PlayerTree → M World PlayerTree
    refresh_player pt = do
      ret ←
          wrapping "error resolving"
            (lift (resolve pt.tree ("tree" ∷ "data" ∷ "jasons-game" ∷ "player" ∷ [])))
      p ← wrapping "error casting" (lift (to_player ret))
      pure (record pt { player = some p })

    unfoldable pub player_or_refresh : PlayerTree → Option String → M World (String × PlayerTree)
    player_or_refresh pt (some p) = pure (p, pt)
    player_or_refresh pt none = do
      refreshed ← wrapping "error refreshing from tree" (refresh_player pt)
      pure (elim (refreshed.player) [ some p ↦ p | none ↦ "" ], refreshed)

    -- Player
    unfoldable pub get_player : PlayerTree → M World (String × PlayerTree)
    unfolding player_or_refresh
    get_player pt = player_or_refresh pt pt.player

  module _ (codec : Codec) where
    unfoldable pub create_home : M World (LocationTree net)
    create_home = do
      home_tree ← wrapping "error creating tree" (create_local_chain_tree "home")
      described ←
          wrapping "error setting description on home tree"
            (set_description net (some home_tree) home_location_description)
      to_fae ← wrapping "error adding interaction to home tree" (
          add_interaction net codec described
            (change_named_location "portal to fae" "last-location" false))
      wrapping "error adding interaction to home tree" (
          add_interaction net codec to_fae
            (change_named_location "portal to mountain" "ArcadiaMountain" false))

    -- an error panics
    unfoldable pub or_die : {A : Type 0} → M World A → M World A
    or_die m w = let (r, w') = m w in (elim r [ ok a ↦ ok a | err e ↦ panic | panic ↦ panic ], w')

    unfoldable pub home_or_new : Option Tree → M World (LocationTree net)
    unfolding or_die
    home_or_new none = or_die create_home
    home_or_new (some home_tree) = pure (some home_tree)

    unfoldable pub new_player_tree : Tree → M World PlayerTree
    unfolding home_or_new
    new_player_tree tree = do
      home_tree ← or_die (reads (get_chain_tree_by_name "home"))
      home ← home_or_new home_tree
      pure (record { tree = tree; home_location = home; player = none; did = must_id tree })

    unfoldable pub tree_of_player : Option Tree → M World (Option PlayerTree)
    tree_of_player none = pure none
    tree_of_player (some player_chain) = do pt ← new_player_tree player_chain; pure (some pt)

    unfoldable pub get_player_tree : M World (Option PlayerTree)
    unfolding tree_of_player
    get_player_tree = do
      player_chain ← reads (get_chain_tree_by_name "player")
      tree_of_player player_chain

    unfoldable pub created_player : PlayerCodec → Option Tree → M World PlayerTree
    created_player players none = fail (message "player chaintree was not found")
    created_player players (some player_chain) = do
      player_tree ← new_player_tree player_chain
      set_player players player_tree ("newb (" <> must_id player_chain <> ")")

    unfoldable pub create_player_tree : PlayerCodec → String → M World PlayerTree
    unfolding created_player
    create_player_tree players chain_tree_id = do
      player_chain ← fetch net chain_tree_id
      created_player players player_chain
