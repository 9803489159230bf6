-- ===== src/Trees/Inventory/Contents.antt =====
-- What the operations of an inventory do to the set of the objects that it holds.
use jasons_game.Base.{
  String, ◌≡◌, ◌≢◌, sym, ◌∙◌, ap, subst, inl, inr, Bool, true, false, none, some, List, [], ◌∷◌,
  arith, lookup, insert, remove_key, IsMap, lookup-insert, lookup-remove_key, insert-IsMap,
  remove_key-IsMap, ◌==◌, eq_iff, eq_refl, is_some, if◌then◌else◌, Option-cases, Bool-cases,
  String-cases,
}
use jasons_game.Network.{text, ok, Network, NetworkLaws, ok-eq-ok}
use jasons_game.Trees.Inventory.{
  InventoryTree, exists, remove, add, add_named, name_of, update_objects,
}
use jasons_game.Trees.Inventory.Flip.{
  Map, swapped, IsInjective, swapped_sound, swapped_complete, lookup-swapped, swapped-IsInjective,
  reverse_objects-IsMap,
}
use jasons_game.Trees.Inventory.Stored.{Stored, all-Stored, update_objects-Stored}

abbrev pub names_path : List String
names_path = "tree" ∷ "data" ∷ "jasons-game" ∷ "name" ∷ []

absent_key :
    (k d : String) (m : Map)
    → lookup k m ≡ none
    → is_some (lookup d m) ≡ (if k == d then false else is_some (lookup d m))
absent_key k d m e = elim (String-cases k d) [ inl p ↦ rw (← p, e, eq_refl k) | inr p ↦ rw p ]

present_key :
    (k d : String) (m : Map)
    → is_some (lookup k m) ≡ true
    → is_some (lookup d m) ≡ (if k == d then true else is_some (lookup d m))
present_key k d m e = elim (String-cases k d) [ inl p ↦ rw (← p, e, eq_refl k) | inr p ↦ rw p ]

inserted_key :
    (k d n : String) (m : Map)
    → is_some (lookup d (insert k n m)) ≡ (if k == d then true else is_some (lookup d m))
inserted_key k d n m = ground (arith, lookup-insert k d n m)

-- A new value keeps the values distinct.
insert-IsInjective :
    (k n : String) (m : Map)
    → IsInjective m
    → ((j : String) → lookup j m ≢ some n)
    → IsInjective (insert k n m)
insert-IsInjective k n m i fresh a b v h h' = ground (
  arith,
  lookup-insert k a n m,
  lookup-insert k b n m,
  i a b v,
  fresh a,
  fresh b,
  eq_iff k a,
  eq_iff k b,
)

module _ (net : Network) (laws : NetworkLaws net) where
  open net use {World, Tree, get_tree, resolve, range}

  pub exists-Stored :
      (t : InventoryTree Tree) (names : Map) (did : String) (w : World)
      → Stored net laws t names
      → exists net t did w ≡ (ok (is_some (lookup did (swapped names))), w)
  unfolding exists
  exists-Stored t names did w s = rw (all-Stored net laws t names w s)

  -- A map with distinct values survives the two swaps, in whatever order it is ranged over.
  swapped_twice :
      (m : Map) (d : String)
      → IsMap m
      → IsInjective m
      → is_some (lookup d (swapped (swapped (range m)))) ≡ is_some (lookup d m)
  swapped_twice m d u i = elim (Option-cases (lookup d m)) [
    | inl e ↦ elim (Option-cases (lookup d (swapped (swapped (range m))))) [
      | inl e' ↦ ground arith
      | inr (n, e') ↦ ground (
        arith,
        laws.range_lookup m d u,
        swapped_sound (range m) d n (laws.range-IsMap m u)
            (swapped_sound (swapped (range m)) n d (reverse_objects-IsMap (range m) [] tt) e'),
      )
    ]
    | inr (n, e) ↦ ground (
      arith,
      swapped_complete (swapped (range m)) n d (
          lookup-swapped (range m) d n (laws.range-IsMap m u)
            (λ k j v h h'.
              i k j v (sym (laws.range_lookup m k u) ∙ h) (sym (laws.range_lookup m j u) ∙ h'))
            (laws.range_lookup m d u ∙ e)),
    )
  ]

  exists-update_objects :
      (t t' : InventoryTree Tree) (m : Map) (d : String) (w w' v : World)
      → IsMap m
      → IsInjective m
      → update_objects net t m w ≡ (ok t', w')
      → exists net t' d v ≡ (ok (is_some (lookup d m)), v)
  exists-update_objects t t' m d w w' v u i h =
      exists-Stored t' (swapped (range m)) d v (update_objects-Stored net laws t m w w' t' u h)
      ∙ ap (λ (b : Bool). (ok b, v)) (swapped_twice m d u i)

  -- Under the network's laws, after a removal from a readable inventory that succeeded, the
  -- inventory holds what it held, but for the object removed.
  pub exists-remove :
      (t t' : InventoryTree Tree) (names : Map) (did d : String) (w w' v : World)
      → Stored net laws t names
      → remove net t did w ≡ (ok t', w')
      → exists net t' d v ≡ (ok (if did == d then false else is_some (lookup d (swapped names))), v)
  unfolding remove
  exists-remove t t' names did d w w' v s h =
      let m = swapped names in
      let h' = rw (all-Stored net laws t names w s) at h in
      elim (Option-cases (lookup did m)) [
        | inl e ↦
            subst
              (λ i. exists net i d v ≡ (ok (if did == d then false else is_some (lookup d m)), v))
              (ok-eq-ok (rw e at h')).0
              (exists-Stored t names d v s ∙ ap (λ (b : Bool). (ok b, v)) (absent_key did d m e))
        | inr (n, e) ↦
            exists-update_objects t t' (remove_key did m) d w w' v
              (remove_key-IsMap did m (reverse_objects-IsMap names [] tt))
              (λ k j n h1 h2.
                swapped-IsInjective names s.unique k j n (ground (arith, lookup-remove_key did k m))
                  (ground (arith, lookup-remove_key did j m)))
              (rw e at h')
            ∙ ap (λ (b : Bool). (ok b, v)) (ground (arith, lookup-remove_key did d m))
      ]

  -- What the removal of an object that is held leaves.
  pub remove-eq :
      (t : InventoryTree Tree) (names : Map) (did n : String) (w : World)
      → Stored net laws t names
      → lookup did (swapped names) ≡ some n
      → remove net t did w ≡ update_objects net t (remove_key did (swapped names)) w
  unfolding remove
  remove-eq t names did n w s e = rw (all-Stored net laws t names w s) (rw e)

  module _ (did name : String) (object_tree : Tree) (w : World)
      (found : get_tree did w ≡ ok (some object_tree))
      (named : resolve object_tree names_path ≡ ok (text name)) where
    pub add_named_lem :
        (t : InventoryTree Tree) (m : Map)
        → add_named net t did m w ≡ update_objects net t (insert did name m) w
    unfolding add_named name_of
    add_named_lem t m = simp (found, named)

    pub add-eq :
        (t : InventoryTree Tree) (names : Map)
        → Stored net laws t names
        → lookup did (swapped names) ≡ none
        → add net t did w ≡ update_objects net t (insert did name (swapped names)) w
    unfolding add
    add-eq t names s e =
        rw (all-Stored net laws t names w s) (rw e (add_named_lem t (swapped names)))

    -- Under the network's laws, after a successful addition of an object whose name the readable
    -- inventory does not hold, the inventory holds that object and what it held before, and nothing
    -- else.
    pub exists-add :
        (t t' : InventoryTree Tree) (names : Map) (d : String) (w' v : World)
        → Stored net laws t names
        → lookup name names ≡ none
        → add net t did w ≡ (ok t', w')
        → exists net t' d v
          ≡ (ok (if did == d then true else is_some (lookup d (swapped names))), v)
    unfolding add
    exists-add t t' names d w' v s free h =
        let m = swapped names in
        let h' = rw (all-Stored net laws t names w s) at h in
        elim (Bool-cases (is_some (lookup did m))) [
          | inl e ↦
              subst
                (λ i. exists net i d v ≡ (ok (if did == d then true else is_some (lookup d m)), v))
                (ok-eq-ok (rw e at h')).0
                (exists-Stored t names d v s ∙ ap (λ (b : Bool). (ok b, v)) (present_key did d m e))
          | inr e ↦
              exists-update_objects t t' (insert did name m) d w w' v
                (insert-IsMap did name m (reverse_objects-IsMap names [] tt))
                (insert-IsInjective did name m (swapped-IsInjective names s.unique)
                  (λ j h1. ground (arith, swapped_sound names name j s.unique h1)))
                (sym (add_named_lem t m) ∙ (rw e at h'))
              ∙ ap (λ (b : Bool). (ok b, v)) (inserted_key did d name m)
        ]
