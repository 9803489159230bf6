-- ===== src/Trees/Inventory/Lookups.antt =====
-- The did under a name, read from a chaintree that holds an inventory.
use package.text.Mathlib.TextLemmas.{append_assoc}
use jasons_game.Base.{
  String, ◌≡◌, refl, ◌∙◌, ap, true, Option, none, some, [], ◌∷◌, ◌<>◌, join, lookup, arith,
}
use jasons_game.Network.{
  Value, ok, Network, NetworkLaws, of_strings, field_or_null, walk, walk-append, are_segments,
}
use jasons_game.Trees.Inventory.{InventoryTree, objects_path, did_for_name, decoded, text_or_empty}
use jasons_game.Trees.Inventory.Flip.{Map}
use jasons_game.Trees.Inventory.Stored.{Stored, Content, absent, present, below_data}

abbrev pub or_empty : Option String → String
or_empty none = ""
or_empty (some did) = did

field-of_strings :
    (name : String) (names : Map)
    → text_or_empty (field_or_null name (of_strings names)) ≡ or_empty (lookup name names)
unfolding text_or_empty
field-of_strings name [] = refl
field-of_strings name ((k, d) ∷ names) = ground (arith, field-of_strings name names)

under_name :
    (name : String) (names : Map) (v : Value)
    → Content names v
    → text_or_empty (walk (name ∷ []) v) ≡ or_empty (lookup name names)
unfolding text_or_empty
under_name name names v (absent e n) = rw (e, n) refl
under_name name names v (present e) = rw e (field-of_strings name names)

three : (a b c d : String) → (a <> b <> c) <> d ≡ a <> b <> c <> d
three a b c d = append_assoc a (b <> c) d ∙ ap (λ x. a <> x) (append_assoc b c d)

path_under :
    (name : String)
    → "tree/data/" <> objects_path <> "/" <> name
      ≡ join ("tree" ∷ "data" ∷ "jasons-game" ∷ "inventory" ∷ name ∷ [])
path_under name =
    append_assoc "tree/data" "/" (objects_path <> "/" <> name)
    ∙ three "tree" "/" "data" ("/" <> objects_path <> "/" <> name)
    ∙ ap (λ x. "tree" <> "/" <> "data" <> "/" <> x)
        (three "jasons-game" "/" "inventory" ("/" <> name))

module _ (net : Network) (laws : NetworkLaws net) where
  open net use {World, Tree}

  pub did_for_name-Stored :
      (t : InventoryTree Tree) (names : Map) (name : String) (w : World)
      → Stored net laws t names
      → are_segments ("tree" ∷ "data" ∷ "jasons-game" ∷ "inventory" ∷ name ∷ []) ≡ true
      → did_for_name net t name w ≡ (ok (or_empty (lookup name names)), w)
  unfolding did_for_name decoded
  did_for_name-Stored t names name w s h = rw (s.handle) (
      rw
        (
          ap net.decode_path (path_under name)
              ∙ laws.decode-join "tree" ("data" ∷ "jasons-game" ∷ "inventory" ∷ name ∷ []) h,
          decoded,
        )
        (rw (laws.resolve_data s.tree ("jasons-game" ∷ "inventory" ∷ name ∷ []) s.at_hand) (
          ap (λ d. (ok d, w))
            (ap text_or_empty (walk-append below_data (name ∷ []) (laws.data_of s.tree))
              ∙ under_name name names _ s.content))))
