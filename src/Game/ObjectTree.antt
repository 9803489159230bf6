-- ===== src/Game/ObjectTree.antt =====
-- game/object_tree.go. The struct is its chaintree, which may be nil; the network is a parameter of
-- the section.
pub mod Created
pub mod Named
use jasons_game.Base.{
  String, Bool, true, false, Option, none, some, List, [], ◌∷◌, ◌<>◌, ◌==◌, if◌then◌else◌,
}
use jasons_game.Network.{
  Value, text, as_text, Res, ok, err, panic, message, M, pure, fail, lift, wrapping, deref, ◌>>=◌,
  Network, fetch,
}
use jasons_game.Trees.Inventory.{name_of}
use jasons_game.Trees.Ownership.{verify_ownership}
use jasons_game.Game.Interactions.{
  Codec, Interaction, drop_object, pick_up_object, get_tree_value, set_tree_value,
}
use jasons_game.Game.Interactions.Tree.{
  UpdatableTree, add_interaction_to_tree, interactions_list_from_tree,
}
use jasons_game.Game.TreePaths.{get_path_of, update_path_of, paths_of}

abbrev pub ObjectTree : Network → Type 0
ObjectTree net = Option net.Tree

module _ (net : Network) where
  open net use {World, must_id, create_chain_tree, change_chain_tree_owner}

  abbrev pub object_paths : UpdatableTree World (ObjectTree net)
  object_paths = paths_of net "error resolving on object"

  unfoldable pub find_object_tree : String → M World (ObjectTree net)
  find_object_tree did = wrapping "error fetching object" (fetch net did)

  unfoldable pub must_id_of : ObjectTree net → M World String
  must_id_of o = do t ← deref o; pure (must_id t)

  unfoldable pub get_path : ObjectTree net → List String → M World Value
  get_path o path = lift (get_path_of net "error resolving on object" o path)

  unfoldable pub update_path : ObjectTree net → List String → Value → M World (ObjectTree net)
  update_path = update_path_of net

  -- `val, ok := uncastVal.(string)`
  unfoldable pub prop_text : Value → Res String
  prop_text v = elim (as_text v) [ none ↦ err (message "error casting to string") | some s ↦ ok s ]

  unfoldable pub get_prop : ObjectTree net → String → M World String
  get_prop o prop = do uncast ← get_path o (prop ∷ []); lift (prop_text uncast)

  abbrev pub set_name : ObjectTree net → String → M World (ObjectTree net)
  set_name o name = update_path o ("name" ∷ []) (text name)

  abbrev pub get_name : ObjectTree net → M World String
  get_name o = get_prop o "name"

  abbrev pub set_description : ObjectTree net → String → M World (ObjectTree net)
  set_description o desc = update_path o ("description" ∷ []) (text desc)

  abbrev pub get_description : ObjectTree net → M World String
  get_description o = get_prop o "description"

  unfoldable pub is_owned_by : ObjectTree net → List String → M World Bool
  is_owned_by o key_addrs = do t ← deref o; lift (verify_ownership net t key_addrs)

  unfoldable pub change_owner_of_object : ObjectTree net → List String → M World (ObjectTree net)
  change_owner_of_object o new_keys = do
    t ← deref o
    new_tree ← change_chain_tree_owner t new_keys
    pure (some new_tree)

  module _ (codec : Codec) where
    abbrev pub add_interaction : ObjectTree net → Interaction → M World (ObjectTree net)
    add_interaction = add_interaction_to_tree codec object_paths

    abbrev pub interactions_list : ObjectTree net → M World (List (Option Interaction))
    interactions_list = interactions_list_from_tree codec object_paths

    -- The three interactions that every object gets.
    unfoldable pub create_object_on_tree : String → ObjectTree net → M World (ObjectTree net)
    create_object_on_tree name tree = do
      named ← wrapping "error setting name of new object" (set_name tree name)
      did ← must_id_of named
      dropped ←
          wrapping "error adding interactions to new object"
            (add_interaction named (drop_object ("drop " <> name) did false))
      did2 ← must_id_of dropped
      picked ←
          wrapping "error adding interactions to new object"
            (add_interaction dropped (pick_up_object ("pick up " <> name) did2 false))
      did3 ← must_id_of picked
      wrapping "error adding interactions to new object"
          (add_interaction picked (get_tree_value ("look at " <> name) did3 "description" false))

    unfoldable pub create_object_tree : String → M World (ObjectTree net)
    create_object_tree name =
        if name == "" then fail (message "name is required to create an object") else do
          tree ← wrapping "error creating object chaintree" create_chain_tree
          create_object_on_tree name (some tree)

    -- Where the second addition fails the world keeps the first; the handle is then of no use.
    unfoldable pub add_default_inscription_interactions : ObjectTree net → M World (ObjectTree net)
    add_default_inscription_interactions o = do
      name ← get_name o
      did ← must_id_of o
      inscribed ← wrapping "error adding interactions to object" (
          add_interaction o
            (set_tree_value ("inscribe " <> name <> " with") did "inscriptions" true false))
      did2 ← must_id_of inscribed
      wrapping "error adding interactions to object" (
          add_interaction inscribed
            (get_tree_value ("read inscriptions on " <> name) did2 "inscriptions" false))
