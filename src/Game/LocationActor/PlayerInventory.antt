-- ===== src/Game/LocationActor/PlayerInventory.antt =====
-- game/location_actor.go: `initialize` and `spawnInventoryActor`, which find or make the inventory
-- that a player has at a location.
use jasons_game.Base.{
  String, Bool, false, not, Option, some, none, List, [], ◌∷◌, ◌++◌, ◌==◌, join, if◌then◌else◌,
}
use jasons_game.Network.{
  Value, null, text, bool, number, list, object, link, Res, ok, err, panic, M, pure, reads, lift,
  wrapping, deref, ◌>>=◌, ◌>>◌, Network, fetch, resolve_at, auths_at,
}
use jasons_game.Handlers.Remote.{RemoteHandler, handler_path, find_handler_for_tree}
use jasons_game.Trees.Inventory.{find_inventory_tree}
use jasons_game.Game.LocationTree.{LocationTree}
use jasons_game.Game.InventoryActor.{InventoryActor, pick_default_handler}
use jasons_game.Game.LocationActor.{LocationActor}

-- `v != nil && v.(bool)`
unfoldable pub is_set : Value → Res Bool
is_set null = ok false
is_set (bool b) = ok b
is_set (text _) = panic
is_set (number _) = panic
is_set (list _) = panic
is_set (object _) = panic
is_set (link _) = panic

-- `v != nil && v.(string) != ""`, with the text
unfoldable pub name_in : Value → Res (Option String)
name_in null = ok none
name_in (text s) = ok (if s == "" then none else some s)
name_in (bool _) = panic
name_in (number _) = panic
name_in (list _) = panic
name_in (object _) = panic
name_in (link _) = panic

abbrev pub inventory_lookup_path : String → List String
inventory_lookup_path did = "tree" ∷ "data" ∷ "jasons-game" ∷ "location-inventories" ∷ did ∷ []

module _ (net : Network) where
  open net use {
    World, Tree, must_id, authentications, get_chain_tree_by_name, create_chain_tree,
    update_chain_tree, change_chain_tree_owner,
  }

  -- the owners that the inventory gets besides the player, and the tree with its handler set
  unfoldable pub shared_with :
      Option RemoteHandler → LocationTree net → Tree → M World (List String × Tree)
  shared_with (some handler) location inventory_tree = do
    found ← wrapping "error fetching handler tree" (fetch net handler.did)
    additional ← wrapping "error fetching handler auths" (auths_at net found)
    handler_tree ← deref found
    handled ←
        wrapping "error setting new handler attr"
          (update_chain_tree inventory_tree handler_path (text (must_id handler_tree)))
    pure (additional, handled)
  shared_with none location inventory_tree = do
    additional ← wrapping "error fetching location auths" (auths_at net location)
    pure (additional, inventory_tree)

  unfoldable pub make_inventory :
      String → LocationTree net → Option RemoteHandler → Option Tree → M World Tree
  unfolding shared_with
  make_inventory did location handler player_tree = do
    created ← wrapping "error creating inventory tree" create_chain_tree
    marked ←
        wrapping "error updating inventory tree"
          (update_chain_tree created "jasons-game/inventory-for" (text did))
    inventory_auths ← wrapping "error fetching inventory auths" (lift (authentications marked))
    (additional, handled) ← shared_with handler location marked
    shared ←
        wrapping "error setting new handler auths"
          (change_chain_tree_owner handled (inventory_auths ++ additional))
    player ← deref player_tree
    wrapping "error updating player tree" (
        update_chain_tree player (join ("jasons-game" ∷ "location-inventories" ∷ did ∷ []))
          (text (must_id shared)))
    pure shared

  unfoldable pub by_name_or_nil : Option String → M World (Option Tree)
  by_name_or_nil none = pure none
  by_name_or_nil (some name) =
      wrapping "error fetching player inventory for location" (reads (get_chain_tree_by_name name))

  unfoldable pub found_or_made :
      String → LocationTree net → Option RemoteHandler → Option Tree → Option Tree → M World Tree
  found_or_made did location handler player_tree (some inventory_tree) = pure inventory_tree
  found_or_made did location handler player_tree none =
      make_inventory did location handler player_tree

  -- the did of the inventory
  unfoldable pub inventory_did_for :
      String → String → LocationTree net → Option RemoteHandler → M World String
  unfolding is_set name_in by_name_or_nil found_or_made
  inventory_did_for did player_did location handler = do
    flag ← wrapping "error fetching location inventory" (
        resolve_at net location ("tree" ∷ "data" ∷ "jasons-game" ∷ "use-per-player-inventory" ∷ []))
    per_player ← lift (is_set flag)
    if not per_player then pure did else do
      player_tree ← wrapping "error fetching player chain" (fetch net player_did)
      uncast ←
          wrapping "error fetching player chain data"
            (resolve_at net player_tree (inventory_lookup_path did))
      name ← lift (name_in uncast)
      known ← by_name_or_nil name
      inventory_tree ← found_or_made did location handler player_tree known
      pure (must_id inventory_tree)

  -- initialize of the inventory's actor, without a handler of its own
  unfoldable pub started_inventory : String → M World (InventoryActor net)
  started_inventory did = do
    inventory ← find_inventory_tree net did
    handler ← pick_default_handler net inventory
    pure (record { did = did; inventory = inventory; handler = handler })

  -- all errors panic
  unfoldable pub must : {A : Type 0} → M World A → M World A
  must m w = let (r, w') = m w in (elim r [ ok a ↦ ok a | err e ↦ panic | panic ↦ panic ], w')

  unfoldable pub initialize : String → String → M World (LocationActor net)
  unfolding must
  initialize did player_did = do
    found ← must (fetch net did)
    tree ← deref found
    handler ← must (find_handler_for_tree net did)
    inventory_did ← must (inventory_did_for did player_did (some tree) handler)
    inventory ← must (started_inventory inventory_did)
    pure (record {
      did = did;
      player_did = player_did;
      location = some tree;
      location_handler = handler;
      inventory_did = inventory_did;
      inventory_actor = inventory;
    })
