-- ===== src/Importer/Trees.antt =====
-- importer/importer.go: what is written into the chaintree of a location or an object.

pub mod Unchanged
pub mod Planned
use jasons_game.Base.{
  String, Bool, false, ◌||◌, ◌<>◌, ◌==◌, Option, some, none, List, [], ◌∷◌, lookup, is_some,
  if◌then◌else◌,
}
use jasons_game.Network.{
  Value, Fields, text, object, end, as_text, Res, message, M, pure, fail, lift, deref, wrapping,
  ◌>>=◌, ◌>>◌, Network, fetch,
}
use jasons_game.Trees.Inventory.{InventoryTree, new_inventory_tree, add}
use jasons_game.Trees.Ownership.{sort_strings}
use jasons_game.Game.Interactions.{Codec, Interaction}
use jasons_game.Game.InteractionTree.{InteractionTree, add_interaction}
use jasons_game.Importer.Flatmap.{FlatMap, flatten, keys}
use jasons_game.Importer.Convert.{ImportInteraction, given}

-- `attributes` is none for a nil map.
pub record ImportLocation : Type 0 where
  pub attributes : Option Fields
  pub interactions : List (Option ImportInteraction)
  pub inventory : List String

pub record ImportObject : Type 0 where
  pub attributes : Option Fields
  pub interactions : List (Option ImportInteraction)

abbrev pub reserved_keys : List String
reserved_keys = "inventory" ∷ "interactions" ∷ []

unfoldable pub has_reserved : List String → Option Fields → Bool
has_reserved [] attributes = false
has_reserved (k ∷ ks) attributes = is_some (given k attributes) || has_reserved ks attributes

unfoldable pub fields_or_none : Option Fields → Fields
fields_or_none none = end
fields_or_none (some m) = m

-- flatPaths[key], the empty text where there is none
abbrev pub value_at : FlatMap → String → String
value_at m key = elim (lookup key m) [ none ↦ "" | some v ↦ v ]

-- What is written, in its order.
unfoldable pub plan_from : FlatMap → List String → List (String × String)
plan_from m [] = []
plan_from m (key ∷ ks) = (key, value_at m key) ∷ plan_from m ks

unfoldable pub plan : FlatMap → List (String × String)
unfolding plan_from
plan m = plan_from m (sort_strings (keys m))

abbrev pub import_hash_path : List String
import_hash_path = "tree" ∷ "data" ∷ "import-hash" ∷ []

-- `hashVal.(string)` with the comma-ok form, and whether it is that hash
unfoldable pub is_hash : Value → String → Bool
is_hash v hash = elim (as_text v) [ none ↦ false | some s ↦ hash == s ]

module _ (net : Network) where
  open net use {World, Tree, update_chain_tree, resolve}

  unfoldable pub write_all : List (String × String) → Tree → M World Tree
  write_all [] tree = pure tree
  write_all ((key, v) ∷ rest) tree = do
    tree' ←
        wrapping "updating location data" (update_chain_tree tree ("jasons-game/" <> key) (text v))
    write_all rest tree'

  -- loadBasicData; no data is left as it is
  unfoldable pub load_basic_data : Tree → Option Fields → M World Tree
  unfolding has_reserved fields_or_none write_all plan
  load_basic_data tree attributes =
      if has_reserved reserved_keys attributes
      then fail (message "error reserved key: can't set in data as top level attr")
      else do
        flat_paths ← lift (flatten (fields_or_none attributes))
        write_all (plan flat_paths) tree

  unfoldable pub add_all : List String → InventoryTree Tree → M World (InventoryTree Tree)
  add_all [] inventory_tree = pure inventory_tree
  add_all (object_did ∷ rest) inventory_tree = do
    inventory_tree' ← add net inventory_tree object_did
    add_all rest inventory_tree'

  -- loadInventory
  unfoldable pub load_inventory : Tree → List String → M World (InventoryTree Tree)
  unfolding add_all
  load_inventory tree dids = add_all dids (new_inventory_tree net (some tree))

  module _ (codec : Codec) (convert : Option ImportInteraction → Res Interaction) where
    unfoldable pub add_each :
        List (Option ImportInteraction) → InteractionTree net → M World (InteractionTree net)
    add_each [] interaction_tree = pure interaction_tree
    add_each (attrs ∷ rest) interaction_tree = do
      interaction ← lift (convert attrs)
      interaction_tree' ← add_interaction net codec interaction_tree interaction
      add_each rest interaction_tree'

    -- loadInteractions
    unfoldable pub load_interactions :
        Tree → List (Option ImportInteraction) → M World (InteractionTree net)
    unfolding add_each
    load_interactions tree listed = add_each listed (some tree)

    unfoldable pub fill_location : ImportLocation → Tree → M World (Unit {0})
    unfolding load_basic_data load_interactions load_inventory
    fill_location loc_data tree = do
      with_data ← load_basic_data tree loc_data.attributes
      with_interactions ← load_interactions with_data loc_data.interactions
      handle ← deref with_interactions
      load_inventory handle loc_data.inventory
      pure tt

    unfoldable pub fill_object : ImportObject → Tree → M World (Unit {0})
    unfolding load_basic_data load_interactions
    fill_object obj_data tree = do
      with_data ← load_basic_data tree obj_data.attributes
      load_interactions with_data obj_data.interactions
      pure tt

  -- the update of a tree whose hash is another one
  unfoldable pub reimport :
      String → String → (Tree → M World (Unit {0})) → Tree → M World (Unit {0})
  reimport did new_hash update tree = do
    emptied ← update_chain_tree tree "" (object end)
    update emptied
    found ← fetch net did
    latest ← deref found
    update_chain_tree latest "import-hash" (text new_hash)
    pure tt

  -- updateTreeIfChanged; `hashed` is the hash of the data's yaml
  unfoldable pub update_tree_if_changed :
      String → Res String → (Tree → M World (Unit {0})) → M World (Unit {0})
  unfolding is_hash reimport
  update_tree_if_changed did hashed update = do
    found ← fetch net did
    tree ← deref found
    hash_val ← lift (resolve tree import_hash_path)
    new_hash ← lift hashed
    if is_hash hash_val new_hash then pure tt else reimport did new_hash update tree
