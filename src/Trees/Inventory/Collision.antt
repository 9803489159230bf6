-- ===== src/Trees/Inventory/Collision.antt =====
-- Two objects of one name in one inventory: the map from names to dids has room for one of them.
use jasons_game.Base.{
  String, ◌≡◌, ◌≢◌, refl, sym, ◌∙◌, ap, ◌⊎◌, inl, inr, Bool, true, false, not, Option, none, some,
  [], arith, lookup, insert, IsMap, lookup-insert, insert-IsMap, eq_iff, eq_refl, is_some,
  Option-cases, String-cases,
}
use jasons_game.Network.{text, ok, Network, NetworkLaws}
use jasons_game.Trees.Inventory.{InventoryTree, exists, add}
use jasons_game.Trees.Inventory.Flip.{
  Map, swapped, swapped_sound, swapped_complete, reverse_objects-IsMap,
}
use jasons_game.Trees.Inventory.Stored.{Stored, all-Stored, update_objects-Stored}
use jasons_game.Trees.Inventory.Contents.{names_path, exists-Stored, add_named_lem}

exactly_one :
    (x y : Bool) (d o : String) (p : Option String)
    → (x ≡ true → p ≡ some d) × (x ≡ false → p ≢ some d)
    → (y ≡ true → p ≡ some o) × (y ≡ false → p ≢ some o)
    → (p ≡ some d) ⊎ (p ≡ some o)
    → d ≢ o
    → y ≡ not x
exactly_one true true d o p hx hy w ne = absurd (ne (ground (arith, hx.0 refl, hy.0 refl)))
exactly_one true false d o p hx hy w ne = refl
exactly_one false true d o p hx hy w ne = refl
exactly_one false false d o p hx hy (inl e) ne = absurd (hx.1 refl e)
exactly_one false false d o p hx hy (inr e) ne = absurd (hy.1 refl e)

module _ (net : Network) (laws : NetworkLaws net) where
  open net use {World, Tree, get_tree, resolve, range}

  -- After the rewriting an object is held exactly when its name leads to it.
  held_iff :
      (m : Map) (d n : String) (b : Bool)
      → IsMap m
      → lookup d m ≡ some n
      → is_some (lookup d (swapped (swapped (range m)))) ≡ b
      → (b ≡ true → lookup n (swapped (range m)) ≡ some d)
        × (b ≡ false → lookup n (swapped (range m)) ≢ some d)
  held_iff m d n b u e h = (
    λ p. elim (Option-cases (lookup d (swapped (swapped (range m))))) [
      | inl e' ↦ ground arith
      | inr (n', e') ↦
          let back =
            swapped_sound (swapped (range m)) n' d (reverse_objects-IsMap (range m) [] tt) e' in
          ground (
            arith,
            back,
            swapped_sound (range m) d n' (laws.range-IsMap m u) back,
            laws.range_lookup m d u,
          )
    ],
    λ p q. ground (arith, swapped_complete (swapped (range m)) n d q),
  )

  -- The name leads to the new object or to the old one.
  winner :
      (names : Map) (did name old : String)
      → IsMap names
      → lookup name names ≡ some old
      → let p = lookup name (swapped (range (insert did name (swapped names)))) in
        (p ≡ some did) ⊎ (p ≡ some old)
  winner names did name old u held =
      let m = insert did name (swapped names) in
      let um = insert-IsMap did name (swapped names) (reverse_objects-IsMap names [] tt) in
      let stands : lookup did (range m) ≡ some name = ground (
        arith,
        laws.range_lookup m did um,
        lookup-insert did did name (swapped names),
        eq_refl did,
      ) in
      elim (Option-cases (lookup name (swapped (range m)))) [
        | inl e ↦ absurd (ground (arith, swapped_complete (range m) did name stands))
        | inr (k, e) ↦ elim (String-cases did k) [
          | inl same ↦ inl (e ∙ ap some (sym same))
          | inr ne ↦ inr (
              ground (
                arith,
                swapped_sound (range m) k name (laws.range-IsMap m um) e,
                laws.range_lookup m k um,
                lookup-insert did k name (swapped names),
                swapped_sound names name k u,
              ))
        ]
      ]

  module _ (did name : String) (object_tree : Tree) (w : World)
      (found : get_tree did w ≡ ok (some object_tree))
      (named : resolve object_tree names_path ≡ ok (text name)) where
    -- Under the network's laws, a successful addition of an object to a readable inventory that
    -- holds another object under the same name leaves exactly one of the two in the inventory.
    pub add_collides :
        (t t' : InventoryTree Tree) (names : Map) (old : String) (w' v : World)
        → Stored net laws t names
        → lookup name names ≡ some old
        → lookup old (swapped names) ≡ some name
        → lookup did (swapped names) ≡ none
        → add net t did w ≡ (ok t', w')
        → (b : Bool) × (exists net t' did v ≡ (ok b, v)) × (exists net t' old v ≡ (ok (not b), v))
    unfolding add
    add_collides t t' names old w' v s held holds free h =
        let m = insert did name (swapped names) in
        let um = insert-IsMap did name (swapped names) (reverse_objects-IsMap names [] tt) in
        let rewritten =
          sym (add_named_lem net laws did name object_tree w found named t (swapped names))
          ∙ (rw free at (rw (all-Stored net laws t names w s) at h)) in
        let s' = update_objects-Stored net laws t m w w' t' um rewritten in
        let N = swapped (range m) in
        let new_held =
          held_iff m did name (is_some (lookup did (swapped N))) um
            (ground (arith, lookup-insert did did name (swapped names), eq_refl did)) refl in
        let old_held =
          held_iff m old name (is_some (lookup old (swapped N))) um
            (ground (arith, lookup-insert did old name (swapped names), eq_iff did old)) refl in
        (
          is_some (lookup did (swapped N)),
          exists-Stored net laws t' N did v s',
          exists-Stored net laws t' N old v s'
              ∙ ap (λ (b : Bool). (ok b, v))
                  (exactly_one _ _ did old _ new_held old_held
                    (winner names did name old s.unique held)
                    (λ e. ground (arith, ap (λ k. lookup k (swapped names)) e))),
        )
