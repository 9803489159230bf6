-- ===== src/Network/Laws.antt =====
-- What the game relies on of the network, as hypotheses: the documented behaviour of chaintrees
-- and of the stores. `data_of` is all that stands under `tree/data`.
use jasons_game.Base.{
  String, ◌≡◌, ◌≢◌, Bool, true, some, List, [], ◌∷◌, join, not, ◌&&◌, has_slash, IsMap, lookup,
  ◌==◌, if◌then◌else◌,
}
use jasons_game.Network.Data.{
  Value, null, text, bool, number, list, object, link, Fields, end, field, field_or_null, walk,
}
use jasons_game.Network.Effects.{ok}
use jasons_game.Network.Messages.{Message}
use jasons_game.Network.Api.{Network}

abbrev pub put_field : String → Value → Fields → Fields
put_field k v end = field k v end
put_field k v (field j u rest) = if j == k then field k v rest else field j u (put_field k v rest)

-- The value after SetData: maps are made on the way where there are none.
abbrev pub put_at : List String → Value → Value → Value
put_at [] v u = v
put_at (k ∷ path) v (object fields) =
    object (put_field k (put_at path v (field_or_null k fields)) fields)
put_at (k ∷ path) v null = object (field k (put_at path v null) end)
put_at (k ∷ path) v (text _) = object (field k (put_at path v null) end)
put_at (k ∷ path) v (bool _) = object (field k (put_at path v null) end)
put_at (k ∷ path) v (number _) = object (field k (put_at path v null) end)
put_at (k ∷ path) v (list _) = object (field k (put_at path v null) end)
put_at (k ∷ path) v (link _) = object (field k (put_at path v null) end)

-- Path segments that survive a join and a split: none is empty or has a slash in it.
abbrev pub are_segments : List String → Bool
are_segments [] = true
are_segments (s ∷ rest) = not (s == "") && not (has_slash s) && are_segments rest

abbrev pub data_path : List String → List String
data_path path = "tree" ∷ "data" ∷ path

-- One tree was replaced by a later one of the same did, and no other tree changed.
pub record Saved (net : Network) (t : net.Tree) (w : net.World) (t' : net.Tree) (w' : net.World)
    : Type 0 where
  pub same_id : net.must_id t' ≡ net.must_id t
  pub stored : net.get_tree (net.must_id t) w' ≡ ok (some t')
  pub others : (did : String) → did ≢ net.must_id t → net.get_tree did w' ≡ net.get_tree did w

pub record NetworkLaws (net : Network) : Type 0 where
  -- Are all blocks of the tree at hand?
  pub available : net.Tree → Bool
  pub data_of : net.Tree → Value
  -- A tree is stored under its did.
  pub fetched_id :
      (did : String) (w : net.World) (t : net.Tree)
      → net.get_tree did w ≡ ok (some t)
      → net.must_id t ≡ did
  pub decode-join :
      (a : String) (segments : List String)
      → are_segments (a ∷ segments) ≡ true
      → net.decode_path (join (a ∷ segments)) ≡ ok (a ∷ segments)
  pub range_lookup :
      (m : List (String × String)) (k : String) → IsMap m → lookup k (net.range m) ≡ lookup k m
  pub range-IsMap : (m : List (String × String)) → IsMap m → IsMap (net.range m)
  pub resolve_data :
      (t : net.Tree) (path : List String)
      → available t ≡ true
      → net.resolve t (data_path path) ≡ ok (walk path (data_of t))
  pub update_data :
      (t : net.Tree) (p : String) (v : Value) (w w' : net.World) (t' : net.Tree)
      (path : List String)
      → net.update_chain_tree t p v w ≡ (ok t', w')
      → net.decode_path p ≡ ok path
      → data_of t' ≡ put_at path v (data_of t)
  pub update_saved :
      (t : net.Tree) (p : String) (v : Value) (w w' : net.World) (t' : net.Tree)
      → net.update_chain_tree t p v w ≡ (ok t', w')
      → (available t' ≡ true)
        × (net.authentications t' ≡ net.authentications t)
        × Saved net t w t' w'
  pub owner_data :
      (t : net.Tree) (keys : List String) (w w' : net.World) (t' : net.Tree)
      → net.change_chain_tree_owner t keys w ≡ (ok t', w')
      → data_of t' ≡ data_of t
  pub owner_saved :
      (t : net.Tree) (keys : List String) (w w' : net.World) (t' : net.Tree)
      → net.change_chain_tree_owner t keys w ≡ (ok t', w')
      → (available t' ≡ true) × (net.authentications t' ≡ ok keys) × Saved net t w t' w'
  pub subscribed_trees :
      (did d : String) (w : net.World) → net.get_tree d (net.subscribed did w).1 ≡ net.get_tree d w
  pub send_trees :
      (topic did : String) (m : Message) (w : net.World)
      → net.get_tree did (net.send topic m w).1 ≡ net.get_tree did w
