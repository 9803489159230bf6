-- ===== src/Courts/Court/Prize.antt =====
-- courts/court/prize_handler.go: the handler that gives an object of a location to a player as a prize.
-- The state is the handler's own chaintree beside the world; the reading of the configuration, and the
-- hooks of a court, are parameters. The goroutine that makes the next object is run where it starts.
pub mod Transfer
pub mod Granted
use jasons_game.Base.{
  ℕ, ◌+◌, ◌*◌, ◌/◌, String, Bool, true, not, ◌<>◌, ◌==◌, Option, some, none, List, [], ◌∷◌,
  if◌then◌else◌,
}
use jasons_game.Network.{
  Value, null, text, bool, number, list, object, link, field, end, as_text, Res, ok, err, panic,
  message, wrap, error_string, Error, M, pure, fail, panics, lift, deref, wrapping, ◌>>=◌, ◌>>◌,
  Network, fetch, RequestObjectTransfer, Message, transferred_object, other,
  request_object_transfer, unsupported_message_type,
}
use jasons_game.Handlers.{Handler}
use jasons_game.Handlers.Remote.{RemoteHandler, as_handler, find_handler_for_tree}
use jasons_game.Handlers.Broadcast.{new_topic_broadcast_handler}
use jasons_game.Trees.Inventory.{
  new_inventory_tree, find_inventory_tree, did_for_name, exists, add, remove, broadcast_topic_for,
}
use jasons_game.Game.LocationTree.{set_handler}
use jasons_game.Importer.Flatmap.{decimal}
use jasons_game.Importer.Convert.{given}
use jasons_game.Importer.Trees.{ImportObject}
use jasons_game.Courts.Autumn.PickUp.{logged, saying}

pub record PrizeConfig : Type 0 where
  pub location : String
  pub spawn : ImportObject
  pub prize : ImportObject

-- Data["name"].(string)
unfoldable pub name_of_import : ImportObject → Res String
name_of_import o = elim (given "name" o.attributes) [
  | none ↦ panic
  | some v ↦ elim (as_text v) [ none ↦ panic | some s ↦ ok s ]
]

module _ (net : Network) where
  open net use {
    World, Tree, must_id, tip, resolve, authentications, update_chain_tree, change_chain_tree_owner,
    find_or_create_passphrase_tree, play_set_data,
  }

  -- `prize_cfg` is the configuration of the start; `parse_config` reads it again, with the did of the
  -- object; `update_object` is the importer's UpdateObject.
  pub record PrizeHandler : Type 0 where
    pub prize_cfg : PrizeConfig
    pub parse_config : String → M World PrizeConfig
    pub update_object : String → ImportObject → M World (Unit {0})
    pub validator_func : Option (RequestObjectTransfer → M World Bool)
    pub cleanup_func : Option (RequestObjectTransfer → M World (Unit {0}))

  -- the handler's tree, which a failed write leaves nil
  abbrev pub Kept : Type 0
  Kept = World × Option Tree

  unfoldable pub on_world : {A : Type 0} → M World A → M Kept A
  on_world m (w, t) = let (r, w') = m w in (r, (w', t))

  module _ (h : PrizeHandler) where
    open h use {prize_cfg, parse_config, update_object, validator_func, cleanup_func}

    unfoldable pub current_object_did : M World String
    unfolding name_of_import
    current_object_did = do
      loc_tree ← wrapping "getting loc tree" (fetch net prize_cfg.location)
      spawn_name ← lift (name_of_import prize_cfg.spawn)
      did_for_name net (new_inventory_tree net loc_tree) spawn_name

    unfoldable pub current_object_exists : M World Bool
    unfolding current_object_did
    current_object_exists = do did ← current_object_did; pure (not (did == ""))

    -- the next object, whose key is the tip of the location
    unfoldable pub spawn_next : M World (Unit {0})
    spawn_next = do
      loc ← wrapping "getting loc tree" (fetch net prize_cfg.location)
      loc_tree ← deref loc
      object_chain_tree ←
          wrapping "error creating new object key" (find_or_create_passphrase_tree (tip loc_tree))
      cfg ← parse_config (must_id object_chain_tree)
      update_object (must_id object_chain_tree) cfg.spawn
      add net (new_inventory_tree net (some loc_tree)) (must_id object_chain_tree)
      pure tt

    unfoldable pub spawn_object : M World (Unit {0})
    unfolding current_object_exists spawn_next
    spawn_object = do already ← current_object_exists; if already then pure tt else spawn_next

    unfoldable pub keep_tree : Tree → M Kept (Unit {0})
    keep_tree t (w, _) = (ok tt, (w, some t))

    -- setup, once the configuration was read; `name` is that of the handler. Without a location the
    -- error is the wrapped nil, which is none.
    unfoldable pub set_up : String → M Kept (Unit {0})
    unfolding keep_tree spawn_object
    set_up name = do
      tree ← on_world (find_or_create_passphrase_tree name)
      keep_tree tree
      if prize_cfg.location == "" then pure tt else do
        loc_tree ← wrapping "getting loc tree" (on_world (fetch net prize_cfg.location))
        wrapping "getting loc tree" (
            on_world
              (λ w. let (r, (l, w')) = set_handler net (must_id tree) (loc_tree, w) in (r, w')))
        on_world spawn_object
