-- ===== src/Courts/Autumn/PickUp/Steps.antt =====
-- What was found on the way of a request to the combiner that succeeds.
use jasons_game.Base.{
  String, ◌≤◌, ◌≡◌, refl, sym, ◌∙◌, ap, subst, true, false, some, List, ◌==◌, eq_iff, ltb, length,
  arith, Bool-cases, Option-cases, inl, inr,
}
use jasons_game.Network.{
  message, Value, text, bool, number, list, link, object, null, Res, ok, err, panic, M, fail, lift,
  ◌>>=◌, Network, RequestObjectTransfer, bind-eq-ok, ok-eq-ok,
}
use jasons_game.Trees.Inventory.{InventoryTree, find_inventory_tree, did_for_name, remove}
use jasons_game.Game.Interactions.{Codec}
use jasons_game.Game.ObjectTree.{ObjectTree, must_id_of, find_object_tree}
use jasons_game.Courts.Autumn.Combinations.{ℤ, negsuc, same_id}
use jasons_game.Courts.Autumn.Elements.{Element, name_of_element}
use jasons_game.Courts.Autumn.Combiner.{
  combination_object_name, base_err, ElementCombiner, find_combined_element,
}
use jasons_game.Courts.Autumn.PickUp.{
  logging, is_player, find_bowl, take_away, give_element, found_or_not, combine_elements,
}
use jasons_game.Handlers.Quiet.{find_inventory_tree-IsQuiet, did_for_name-IsQuiet}
use jasons_game.Courts.Autumn.PickUp.Quiet.{saying-bind}

pub fail-ok :
    {W A : Type 0} (s : String) (w : W) {a : A} {w2 : W}
    → Path (Res A × W) (fail (message s) w) (ok a, w2)
    → ⊥
fail-ok s w e = cc

ok_injective : {A : Type 0} {a b : A} → Path (Res A) (ok a) (ok b) → a ≡ b
ok_injective h = cc

pub absurd : {A : Type 0} → ⊥ → A
absurd e = elim e [ ]

pub lift-bind :
    {W A B : Type 0} (r : Res A) (f : A → M W B) (w : W) {b : B} {w2 : W}
    → (lift r >>= f) w ≡ (ok b, w2)
    → (a : A) × (r ≡ ok a) × (f a w ≡ (ok b, w2))
lift-bind (ok a) f w e = (a, refl, e)
lift-bind (err x) f w e = cc
lift-bind panic f w e = cc

pub is_player_text : (v : Value) (to : String) → is_player v to ≡ ok true → v ≡ text to
unfolding is_player
is_player_text (text did) to e = ap text ((eq_iff did to).0 (ok_injective e))
is_player_text null to e = cc
is_player_text (bool _) to e = cc
is_player_text (number _) to e = cc
is_player_text (list _) to e = cc
is_player_text (object _) to e = cc
is_player_text (link _) to e = cc

module _ (net : Network) (codec : Codec) (h : ElementCombiner) where
  open net use {World, Tree}

  take_away-fails :
      (i : InventoryTree Tree) (b : ObjectTree net) (s : String) (w : World) {w2 : World}
      → take_away net codec h i b s w ≡ (ok tt, w2)
      → ⊥
  unfolding take_away
  take_away-fails i b s w e =
      let (did, w1, _, rest) = bind-eq-ok (must_id_of net b) _ w e in
      let (_, w3, _, failed) = bind-eq-ok (logging (remove net i did)) _ w1 rest in
      fail-ok s w3 failed

  pub find_bowl-ok :
      (msg : RequestObjectTransfer) (w : World) {q : InventoryTree Tree × ObjectTree net}
      {w2 : World}
      → find_bowl net codec h msg w ≡ (ok q, w2)
      → (find_inventory_tree net msg.from w ≡ (ok q.0, w))
        × (did_for_name net q.0 combination_object_name w ≡ (ok msg.object_did, w))
        × (find_object_tree net msg.object_did w ≡ (ok q.1, w))
        × (w2 ≡ w)
  unfolding find_bowl find_object_tree
  find_bowl-ok msg w {q} e =
      let (i, found, rest) =
        saying-bind (base_err "could not fetch current inventory")
          (find_inventory_tree net msg.from) _ w (find_inventory_tree-IsQuiet net msg.from) e in
      let (did, named, rest') =
        saying-bind (base_err "could not fetch current inventory")
          (did_for_name net i combination_object_name) _ w
          (did_for_name-IsQuiet net i combination_object_name) rest in
      elim (Bool-cases (did == "")) [
        | inl empty ↦ absurd (fail-ok _ w (rw empty at rest'))
        | inr full ↦ elim (Bool-cases (did == msg.object_did)) [
          | inr other ↦ absurd (fail-ok _ w (rw (full, other) at rest'))
          | inl same ↦
              let (b, fetched, last) =
                saying-bind (base_err "could not fetch object") (find_object_tree net did) _ w
                  (λ w. refl) (rw (full, same) at rest') in
              let (pair, world) = ok-eq-ok last in
              let did_is = (eq_iff did msg.object_did).0 same in
              (
                found ∙ ap (λ (p : InventoryTree Tree × ObjectTree net). (ok p.0, w)) pair,
                subst
                    (λ (p : InventoryTree Tree × ObjectTree net).
                      did_for_name net p.0 combination_object_name w ≡ (ok msg.object_did, w))
                    pair (named ∙ ap (λ d. (ok d, w)) did_is),
                ap (λ d. find_object_tree net d w) (sym did_is)
                    ∙ fetched
                    ∙ ap (λ (p : InventoryTree Tree × ObjectTree net). (ok p.1, w)) pair,
                sym world,
              )
        ]
      ]

  give_element-ok :
      (i : InventoryTree Tree) (b : ObjectTree net) (p : InventoryTree Tree) (auths : List String)
      (e : Element) (w : World) {w2 : World}
      → give_element net codec h i b p auths e w ≡ (ok tt, w2)
      → (same_id e.id (negsuc 0) ≡ false) × (did_for_name net p (name_of_element e) w ≡ (ok "", w))
  unfolding give_element
  give_element-ok i b p auths e w done = elim (Bool-cases (same_id e.id (negsuc 0))) [
    | inl silver ↦ absurd (take_away-fails i b _ w (rw silver at done))
    | inr allowed ↦
        let (existing, named, rest) =
          saying-bind (base_err "could not fetch player inventory")
            (did_for_name net p (name_of_element e)) _ w
            (did_for_name-IsQuiet net p (name_of_element e)) (rw allowed at done) in
        elim (Bool-cases (existing == "")) [
          | inl new ↦ (allowed, named ∙ ap (λ t. (ok t, w)) ((eq_iff existing "").0 new))
          | inr old ↦ absurd (fail-ok _ w (rw old at rest))
        ]
  ]

  pub combine_elements-ok :
      (i : InventoryTree Tree) (b : ObjectTree net) (p : InventoryTree Tree) (auths : List String)
      (ids : List ℤ) (w : World) {w2 : World}
      → combine_elements net codec h i b p auths ids w ≡ (ok tt, w2)
      → (h.min_required ≤ length ids)
        × (e : Element) × (find_combined_element h ids ≡ some e)
        × (same_id e.id (negsuc 0) ≡ false)
        × (did_for_name net p (name_of_element e) w ≡ (ok "", w))
  unfolding combine_elements found_or_not
  combine_elements-ok i b p auths ids w done = elim (Bool-cases (ltb (length ids) h.min_required)) [
    | inl few ↦ absurd (fail-ok _ w (rw few at done))
    | inr enough ↦ elim (Option-cases (find_combined_element h ids)) [
      | inl nothing ↦ absurd (take_away-fails i b _ w (rw (enough, nothing) at done))
      | inr (e, found) ↦
          let (allowed, new) = give_element-ok i b p auths e w (rw (enough, found) at done) in
          (ground arith, e, found, allowed, new)
    ]
  ]
