-- ===== src/Handlers/Inventory/Remove/Rollback.antt =====
-- A transfer that fails after its writes is undone: the object is given back to the owners of the
-- source and stands in the source inventory again.
use jasons_game.Base.{
  IsMap, String, ◌≡◌, ◌≢◌, sym, ap, ◌∙◌, Bool, none, some, List, [], ◌∷◌, ◌++◌, arith, lookup,
  remove_key, lookup-remove_key, remove_key-IsMap, is_some, eq_iff, eq_refl, Option-cases,
  String-cases, inl, inr,
}
use jasons_game.Network.{
  text, ok, err, Error, wrap, Network, NetworkLaws, M, RequestObjectTransfer, transferred_object,
}
use jasons_game.Trees.Inventory.{new_inventory_tree, InventoryTree, exists, add, remove}
use jasons_game.Trees.Inventory.Flip.{Map, swapped, swapped_sound, reverse_objects-IsMap}
use jasons_game.Trees.Inventory.Stored.{update_objects-Saved, Stored, update_objects-Stored}
use jasons_game.Trees.Inventory.Contents.{
  add-eq, names_path, exists-Stored, exists-add, exists-remove, remove-eq,
}
use jasons_game.Handlers.Inventory.Remove.{
  settle, wrapping, Plan, transferred, handle_rollbacks, undoing, give_back, put_back, hand_over,
}

module _ (net : Network) (laws : NetworkLaws net) where
  open net use {
    World, Tree, must_id, get_tree, resolve, authentications, change_chain_tree_owner, subscribed,
  }
  open laws use {available, data_of}

  undoing-ok :
      {A : Type 0} (rollbacks : List (M World (Unit {0}))) (s : String) (m : M World A) (w : World)
      {a : A} {w' : World}
      → m w ≡ (ok a, w')
      → undoing net rollbacks s m w ≡ (ok a, w')
  unfolding undoing settle
  undoing-ok rollbacks s m w h = ap (settle net rollbacks s) h

  undoing-err :
      {A : Type 0} (rollbacks : List (M World (Unit {0}))) (s : String) (m : M World A) (w : World)
      {e : Error} {w' : World}
      → m w ≡ (err e, w')
      → undoing net rollbacks s m w ≡ wrapping s (handle_rollbacks net {A = A} e rollbacks) w'
  unfolding undoing settle
  undoing-err rollbacks s m w h = ap (settle net rollbacks s) h

  -- Two rollbacks that go through leave the error as it is.
  handle_rollbacks-two :
      {A : Type 0} (e : Error) (r1 r2 : M World (Unit {0})) (w : World) {w1 w2 : World}
      → r1 w ≡ (ok tt, w1)
      → r2 w1 ≡ (ok tt, w2)
      → handle_rollbacks net {A = A} e (r1 ∷ r2 ∷ []) w ≡ (err e, w2)
  unfolding handle_rollbacks
  handle_rollbacks-two e r1 r2 w h1 h2 = ground (arith, h1, h2)

  give_back-ok :
      (object : Tree) (keys : List String) (w : World) {object' : Tree} {w' : World}
      → change_chain_tree_owner object keys w ≡ (ok object', w')
      → give_back net object keys w ≡ (ok tt, w')
  unfolding give_back
  give_back-ok object keys w h = rw h

  put_back-ok :
      (t : InventoryTree Tree) (did : String) (w : World) {t' : InventoryTree Tree} {w' : World}
      → add net t did w ≡ (ok t', w')
      → put_back net t did w ≡ (ok tt, w')
  unfolding put_back
  put_back-ok t did w h = rw h

  -- The source inventory without the object.
  remove-Stored :
      (t t' : InventoryTree Tree) (names : Map) (did n : String) (w w' : World)
      → Stored net laws t names
      → lookup did (swapped names) ≡ some n
      → remove net t did w ≡ (ok t', w')
      → Stored net laws t' (swapped (net.range (remove_key did (swapped names))))
  remove-Stored t t' names did n w w' s held h =
      update_objects-Stored net laws t (remove_key did (swapped names)) w w' t'
        (remove_key-IsMap did (swapped names) (reverse_objects-IsMap names [] tt))
        (sym (remove-eq net laws t names did n w s held) ∙ h)

  removed-absent :
      (t t' : InventoryTree Tree) (names : Map) (did n : String) (w w' : World)
      → Stored net laws t names
      → lookup did (swapped names) ≡ some n
      → remove net t did w ≡ (ok t', w')
      → lookup did (swapped (swapped (net.range (remove_key did (swapped names))))) ≡ none
  removed-absent t t' names did n w w' s held h =
      let names1 = swapped (net.range (remove_key did (swapped names))) in
      elim (Option-cases (lookup did (swapped names1))) [
        | inl e ↦ e
        | inr (k, e) ↦ absurd (
            ground (
              arith,
              exists-Stored net laws t' names1 did w'
                  (remove-Stored t t' names did n w w' s held h),
              exists-remove net laws t t' names did did w w' w' s h,
              eq_refl did,
            ))
      ]

  -- After the removal the name of the object is free.
  freed :
      (names : Map) (did n : String)
      → IsMap names
      → lookup n names ≡ some did
      → lookup n (swapped (net.range (remove_key did (swapped names)))) ≡ none
  freed names did n u listed =
      let r = remove_key did (swapped names) in
      let ur = remove_key-IsMap did (swapped names) (reverse_objects-IsMap names [] tt) in
      elim (Option-cases (lookup n (swapped (net.range r)))) [
        | inl e ↦ e
        | inr (k, e) ↦ absurd (
            ground (
              arith,
              swapped_sound (net.range r) k n (laws.range-IsMap r ur) e,
              laws.range_lookup r k ur,
              lookup-remove_key did k (swapped names),
              swapped_sound names n k u,
              eq_iff did k,
            ))
      ]

  -- Under the network's laws, taking an object out of a readable inventory that holds it and then
  -- adding it again, with both operations succeeding and the object still found under the name it
  -- was held by, leaves the inventory with exactly the objects that it had.
  pub put_back_restores :
      (t t1 t2 : InventoryTree Tree) (names : Map) (did n : String) (object : Tree)
      (w w1 v v1 : World)
      → Stored net laws t names
      → lookup did (swapped names) ≡ some n
      → remove net t did w ≡ (ok t1, w1)
      → get_tree did v ≡ ok (some object)
      → resolve object names_path ≡ ok (text n)
      → add net t1 did v ≡ (ok t2, v1)
      → (d : String) (x : World) → exists net t2 d x ≡ (ok (is_some (lookup d (swapped names))), x)
  put_back_restores t t1 t2 names did n object w w1 v v1 s held removed found named added d x =
      let names1 = swapped (net.range (remove_key did (swapped names))) in
      let s1 = remove-Stored t t1 names did n w w1 s held removed in
      let after =
        exists-add net laws did n object v found named t1 t2 names1 d v1 x s1
          (freed names did n s.unique (swapped_sound names n did s.unique held)) added in
      elim (String-cases did d) [
        | inl e ↦
            after
            ∙ ap (λ (b : Bool). (ok b, x))
                (ground (arith, eq_iff did d, ap (λ k. lookup k (swapped names)) e))
        | inr ne ↦
            after
            ∙ (rw ne (sym (exists-Stored net laws t1 names1 d x s1)))
            ∙ exists-remove net laws t t1 names did d w w1 x s removed
            ∙ (rw ne)
      ]

  -- What is left of a transfer that was undone: the stored tree of the object belongs to the keys,
  -- and the stored tree of the source inventory holds what is named.
  pub record Undone (did source_id : String) (names : Map) (keys : List String) (w : World)
      : Type 0 where
    pub object_after : Tree
    pub object_stored : get_tree did w ≡ ok (some object_after)
    pub object_keys : authentications object_after ≡ ok keys
    pub source_after : Tree
    pub source_stored : get_tree source_id w ≡ ok (some source_after)
    pub source_holds :
        (d : String) (x : World)
        → exists net (new_inventory_tree net (some source_after)) d x
          ≡ (ok (is_some (lookup d (swapped names))), x)

  -- An inventory is read by its tree alone.
  exists-handle :
      (t : InventoryTree Tree) (tree : Tree) (d : String) (x : World)
      → t.tree ≡ some tree
      → exists net (new_inventory_tree net (some tree)) d x ≡ exists net t d x
  unfolding new_inventory_tree
  exists-handle t tree d x h = ap (λ o. exists net (record { tree = o }) d x) (sym h)

  module _ (plan : Plan World Tree) (msg : RequestObjectTransfer) (names : Map)
      (object shared back source_tree : Tree) (source1 source2 : InventoryTree Tree) (n : String)
      (e : Error) (w w1 w2 w3 v3 w4 w5 : World)
      (source_handle : plan.source.tree ≡ some source_tree)
      (stored : Stored net laws plan.source names)
      (held : lookup msg.object_did (swapped names) ≡ some n)
      (object_handle : plan.object_tree ≡ some object) (object_id : must_id object ≡ msg.object_did)
      (apart : msg.object_did ≢ must_id source_tree)
      (share : change_chain_tree_owner object (plan.source_auths ++ plan.target_auths) w
        ≡ (ok shared, w1))
      (taken : remove net plan.source msg.object_did w1 ≡ (ok source1, w2))
      (watched : subscribed (must_id shared) w2 ≡ (ok tt, w3))
      (refused : plan.target_handler.handle (transferred_object (transferred msg)) w3 ≡ (err e, v3))
      (given_back : change_chain_tree_owner shared plan.source_auths v3 ≡ (ok back, w4))
      (named : resolve back names_path ≡ ok (text n))
      (put : add net source1 msg.object_did w4 ≡ (ok source2, w5)) where
    hand_over-refused : hand_over net plan msg w ≡ (err (wrap "error with target handler" e), w5)
    unfolding hand_over
    hand_over-refused = rw object_handle (
        rw share (
          rw (undoing-ok _ _ _ _ taken) (
            rw (undoing-ok _ _ _ _ watched) (
              rw (undoing-err _ _ _ _ refused) (
                rw (
                  handle_rollbacks-two e _ _ v3
                    (give_back-ok shared plan.source_auths v3 given_back)
                    (put_back-ok source1 msg.object_did w4 put)))))))

    -- Under the network's laws, in a transfer from a source inventory that is readable and holds
    -- the object, where the object is another tree than the source and its name is the one under
    -- which the source holds it: if sharing the object, taking it out and subscribing succeed, the
    -- target's handler then fails, and the two rollbacks go through, then the handler's error is
    -- returned, the object that is stored belongs to the owners of the source alone, and the source
    -- inventory that is stored holds exactly the objects that it held.
    pub refused_transfer-Undone :
        (hand_over net plan msg w ≡ (err (wrap "error with target handler" e), w5))
        × Undone msg.object_did (must_id source_tree) names plan.source_auths w5
    refused_transfer-Undone =
        let given = laws.owner_saved shared plan.source_auths v3 w4 back given_back in
        let shared_id =
          (laws.owner_saved object (plan.source_auths ++ plan.target_auths) w w1 shared
            share).2.same_id in
        let (tree1, at1, auths1, saved1) =
          update_objects-Saved net laws plan.source source1 source_tree
            (remove_key msg.object_did (swapped names)) w1 w2 source_handle
            (sym (remove-eq net laws plan.source names msg.object_did n w1 stored held) ∙ taken) in
        let found : get_tree msg.object_did w4 ≡ ok (some back) =
          cc (given.2.stored, shared_id, object_id) in
        let s1 = remove-Stored plan.source source1 names msg.object_did n w1 w2 stored held taken in
        let absent1 =
          removed-absent plan.source source1 names msg.object_did n w1 w2 stored held taken in
        let (tree2, at2, auths2, saved2) =
          update_objects-Saved net laws source1 source2 tree1 _ w4 w5 at1 (
            sym (add-eq net laws msg.object_did n back w4 found named source1 _ s1 absent1)
            ∙ put) in
        (
          hand_over-refused,
          record {
            object_after = back;
            object_stored = saved2.others msg.object_did (λ p. apart (p ∙ saved1.same_id)) ∙ found;
            object_keys = given.1;
            source_after = tree2;
            source_stored = ap (λ d. get_tree d w5) (sym saved1.same_id) ∙ saved2.stored;
            source_holds = λ d x.
                exists-handle source2 tree2 d x at2
                ∙ put_back_restores plan.source source1 source2 names msg.object_did n back w1 w2 w4
                    w5 stored held taken found named put d x;
          },
        )
