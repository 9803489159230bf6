-- ===== src/Trees/Inventory/Stored.antt =====
-- An inventory whose chaintree holds a map from names to dids, and what the reading and the
-- rewriting of all objects do to it.
use jasons_game.Base.{
  subst, String, ◌≡◌, refl, sym, ◌∙◌, ap, true, some, List, [], ◌∷◌, IsMap, ◌<>◌,
}
use jasons_game.Network.{
  Saved, Value, null, object, of_strings, ok, Network, NetworkLaws, walk, walk-put_at, bind-eq-ok,
  data_path, deref, wrapping, wrapping-eq-ok, ok-eq-ok,
}
use jasons_game.Trees.Inventory.{
  InventoryTree, objects_path, objects_of, all, reverse_objects, decoded, update_objects,
}
use jasons_game.Trees.Inventory.Flip.{Map, collect-of_strings, swapped, reverse_objects-IsMap}

-- A value that holds the names: their map, or nil if there are none.
pub data Content (names : Map) (v : Value) : Type 0 where
  absent : v ≡ null → names ≡ [] → Content names v
  present : v ≡ object (of_strings names) → Content names v

pub objects_of-Content :
    (names : Map) (v : Value) → Content names v → objects_of v ≡ ok (swapped names)
unfolding objects_of reverse_objects
objects_of-Content names v (absent e n) = rw (e, n)
objects_of-Content names v (present e) = rw e (collect-of_strings names [])

abbrev pub below_data : List String
below_data = "jasons-game" ∷ "inventory" ∷ []

module _ (net : Network) (laws : NetworkLaws net) where
  open net use {World, Tree, get_tree, must_id, update_chain_tree, range, authentications}
  open laws use {available, data_of}

  pub record Stored (t : InventoryTree Tree) (names : Map) : Type 0 where
    pub tree : Tree
    pub handle : t.tree ≡ some tree
    pub at_hand : available tree ≡ true
    pub content : Content names (walk below_data (data_of tree))
    pub unique : IsMap names

  decode_objects : net.decode_path objects_path ≡ ok below_data
  decode_objects = laws.decode-join "jasons-game" ("inventory" ∷ []) refl

  decoded_objects : decoded net ("tree/data/" <> objects_path) ≡ data_path below_data
  unfolding decoded
  decoded_objects =
      rw (laws.decode-join "tree" ("data" ∷ "jasons-game" ∷ "inventory" ∷ []) refl, decoded)

  -- Reading an inventory gives the names with keys and values swapped, and changes nothing.
  pub all-Stored :
      (t : InventoryTree Tree) (names : Map) (w : World)
      → Stored t names
      → all net t w ≡ (ok (swapped names), w)
  unfolding all
  all-Stored t names w s = rw (s.handle) (
      simp (decoded_objects, laws.resolve_data s.tree below_data s.at_hand)
        (rw (objects_of-Content names _ s.content)))

  -- Rewriting all objects stores the swapped map.
  pub update_objects-Stored :
      (t : InventoryTree Tree) (objects : Map) (w w' : World) (t' : InventoryTree Tree)
      → IsMap objects
      → update_objects net t objects w ≡ (ok t', w')
      → Stored t' (swapped (range objects))
  unfolding update_objects
  update_objects-Stored t objects w w' t' u h =
      let v = object (of_strings (reverse_objects (range objects) [])) in
      let (tree, w1, h1, h2) = bind-eq-ok (deref t.tree) _ w h in
      let (new_tree, w2, h3, h4) =
        bind-eq-ok (wrapping _ (update_chain_tree tree objects_path v)) _ w1 h2 in
      let done = wrapping-eq-ok _ (update_chain_tree tree objects_path v) w1 h3 in
      record {
        tree = new_tree;
        handle = ap (λ (i : InventoryTree Tree). i.tree) (sym (ok-eq-ok h4).0);
        at_hand = (laws.update_saved tree objects_path v w1 w2 new_tree done).0;
        content = present (
            ap (walk below_data)
              (laws.update_data tree objects_path v w1 w2 new_tree below_data done decode_objects)
            ∙ walk-put_at below_data v (data_of tree));
        unique = reverse_objects-IsMap (range objects) [] tt;
      }

  -- A rewriting saves the tree of the inventory and no other.
  pub update_objects-Saved :
      (t t' : InventoryTree Tree) (tree : Tree) (objects : Map) (w w' : World)
      → t.tree ≡ some tree
      → update_objects net t objects w ≡ (ok t', w')
      → (tree' : Tree) × (t'.tree ≡ some tree')
        × (net.authentications tree' ≡ net.authentications tree)
        × Saved net tree w tree' w'
  unfolding update_objects
  update_objects-Saved t t' tree objects w w' e h =
      let v = object (of_strings (reverse_objects (range objects) [])) in
      let (new_tree, w2, h3, h4) =
        bind-eq-ok (wrapping _ (update_chain_tree tree objects_path v)) _ w (rw e at h) in
      let saved =
        laws.update_saved tree objects_path v w w2 new_tree
          (wrapping-eq-ok _ (update_chain_tree tree objects_path v) w h3) in
      (
        new_tree,
        ap (λ (i : InventoryTree Tree). i.tree) (sym (ok-eq-ok h4).0),
        saved.1,
        subst (λ x. Saved net tree w new_tree x) (ok-eq-ok h4).1 saved.2,
      )
