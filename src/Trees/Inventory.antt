-- ===== src/Trees/Inventory.antt =====
-- game/trees/inventory_tree.go: the objects that a chaintree holds, stored as a map from their
-- names to their dids and read as a map from the dids to the names.
pub mod Flip
pub mod Stored
pub mod Contents
pub mod Collision
pub mod Lookups
use jasons_game.Base.{
  String, Bool, Option, none, some, List, [], ◌∷◌, ◌<>◌, lookup, insert, remove_key, is_some,
  if◌then◌else◌,
}
use jasons_game.Network.{
  Value, null, text, object, list, bool, number, link, entries, of_strings, as_text, Res, ok, err,
  panic, Error, message, M, pure, fail, panics, lift, wrapping, deref, ◌>>=◌, Network, resolve_at,
  fetch,
}

abbrev pub objects_path : String
objects_path = "jasons-game/inventory"

pub record InventoryTree (T : Type 0) : Type 0 where
  pub tree : Option T

-- `for name, did := range …  { objects[did.(string)] = name }`
unfoldable pub collect :
    List (String × Value) → List (String × String) → Res (List (String × String))
collect [] objects = ok objects
collect ((name, did) ∷ rest) objects = elim (as_text did) [
  | none ↦ panic
  | some d ↦ collect rest (insert d name objects)
]

-- `for did, name := range objects { reversed[name] = did }`
unfoldable pub reverse_objects :
    List (String × String) → List (String × String) → List (String × String)
reverse_objects [] reversed = reversed
reverse_objects ((did, name) ∷ rest) reversed = reverse_objects rest (insert name did reversed)

-- nil, or the fields of a map; anything else fails the type assertion
unfoldable pub objects_of : Value → Res (List (String × String))
unfolding collect
objects_of null = ok []
objects_of (object fields) = collect (entries fields) []
objects_of (text _) = panic
objects_of (bool _) = panic
objects_of (number _) = panic
objects_of (list _) = panic
objects_of (link _) = panic

-- the text of a value, or "" where it is no text
unfoldable pub text_or_empty : Value → String
text_or_empty v = elim (as_text v) [ none ↦ "" | some s ↦ s ]

module _ (net : Network) where
  open net use {World, Tree, must_id, decode_path, range, update_chain_tree, authentications}

  -- the error of DecodePath is dropped: the path is then nil
  unfoldable pub decoded : String → List String
  decoded path = elim (decode_path path) [ ok segments ↦ segments | _ ↦ [] ]

  unfoldable pub new_inventory_tree : Option Tree → InventoryTree Tree
  new_inventory_tree tree = record { tree = tree }

  unfoldable pub find_inventory_tree : String → M World (InventoryTree Tree)
  unfolding new_inventory_tree
  find_inventory_tree did = do
    tree ← wrapping ("error fetching inventory for " <> did) (fetch net did)
    pure (new_inventory_tree tree)

  unfoldable pub all : InventoryTree Tree → M World (List (String × String))
  unfolding decoded objects_of
  all t = do
    objects ←
        wrapping "error fetching inventory"
          (resolve_at net t.tree (decoded ("tree/data/" <> objects_path)))
    lift (objects_of objects)

  unfoldable pub exists : InventoryTree Tree → String → M World Bool
  exists t did = do objects ← all t; pure (is_some (lookup did objects))

  unfoldable pub did_for_name : InventoryTree Tree → String → M World String
  unfolding decoded text_or_empty
  did_for_name t name = do
    did ←
        wrapping "error fetching inventory"
          (resolve_at net t.tree (decoded ("tree/data/" <> objects_path <> "/" <> name)))
    pure (text_or_empty did)

  unfoldable pub update_objects :
      InventoryTree Tree → List (String × String) → M World (InventoryTree Tree)
  unfolding reverse_objects
  update_objects t objects = do
    tree ← deref t.tree
    new_tree ← wrapping "error updating objects in inventory" (
        update_chain_tree tree objects_path
          (object (of_strings (reverse_objects (range objects) []))))
    pure (record { tree = some new_tree })

  unfoldable pub remove : InventoryTree Tree → String → M World (InventoryTree Tree)
  remove t did = do
    objects ← all t
    if is_some (lookup did objects) then update_objects t (remove_key did objects) else pure t

  -- `name, ok := uncastObjectName.(string)`
  unfoldable pub name_of : Value → Res String
  name_of v = elim (as_text v) [
    | none ↦ err (message "error casting name to string")
    | some name ↦ ok name
  ]

  -- the part that `Add` and `ForceAdd` share
  unfoldable pub add_named :
      InventoryTree Tree → String → List (String × String) → M World (InventoryTree Tree)
  add_named t did objects = do
    object_tree ← fetch net did
    uncast ← resolve_at net object_tree ("tree" ∷ "data" ∷ "jasons-game" ∷ "name" ∷ [])
    name ← lift (name_of uncast)
    update_objects t (insert did name objects)

  unfoldable pub add : InventoryTree Tree → String → M World (InventoryTree Tree)
  add t did = do
    objects ← all t
    if is_some (lookup did objects) then pure t else add_named t did objects

  unfoldable pub force_add : InventoryTree Tree → String → M World (InventoryTree Tree)
  force_add t did = do objects ← all t; add_named t did objects

  -- Authentications of the chaintree behind the inventory.
  unfoldable pub authentications_of : InventoryTree Tree → M World (List String)
  authentications_of t = do tree ← deref t.tree; lift (authentications tree)

  -- `Community().TopicFor(did + "/inventory")`
  unfoldable pub broadcast_topic_for : String → String
  broadcast_topic_for did = did <> "/inventory"

  unfoldable pub broadcast_topic : InventoryTree Tree → M World String
  broadcast_topic t = do tree ← deref t.tree; pure (broadcast_topic_for (must_id tree))
