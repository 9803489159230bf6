-- ===== src/Courts/Court/Prize/Granted.antt =====
-- courts/court/prize_handler.go: what holds of a transfer that succeeds.
use jasons_game.Base.{
  Bool, none, String, ◌≡◌, refl, sym, ap, ◌∙◌, true, false, ◌==◌, eq_iff, Bool-cases, inl, inr,
  Option, some,
}
use jasons_game.Network.{
  Res, ok, err, panic, Error, M, deref, wrapping, lift, bind-eq-ok, deref-eq-ok, Network, fetch,
  RequestObjectTransfer,
}
use jasons_game.Handlers.{Handler}
use jasons_game.Trees.Inventory.{
  InventoryTree, new_inventory_tree, find_inventory_tree, did_for_name, exists,
}
use jasons_game.Courts.Autumn.PickUp.{saying}
use jasons_game.Handlers.Quiet.{
  IsQuiet, bind-IsQuiet, quiet-bind, deref-IsQuiet, find_inventory_tree-IsQuiet,
  did_for_name-IsQuiet, exists-IsQuiet, find_handler_for_tree-IsQuiet,
}
use jasons_game.Courts.Autumn.PickUp.Quiet.{saying-bind, saying-eq-ok}
use jasons_game.Courts.Court.Prize.{
  PrizeHandler, Kept, name_of_import, on_world, current_object_did,
}
use jasons_game.Courts.Court.Prize.Transfer.{
  with_error, sender_for, refuse, check_valid, give_if_valid, give_if_new, give_if_current,
  answer_transfer, handle_transfer,
}

module _ (net : Network) (h : PrizeHandler net) where
  open net use {World, Tree, must_id}
  open h use {prize_cfg, validator_func}

  -- The validator of a court lets the request pass; a court without one does nothing.
  abbrev pub Accepts :
      Option (RequestObjectTransfer → M World Bool) → RequestObjectTransfer → World → World → Type 0
  Accepts none msg w w' = w' ≡ w
  Accepts (some validator) msg w w' = validator msg w ≡ (ok true, w')

  accepted :
      (o : Option (RequestObjectTransfer → M World Bool)) (msg : RequestObjectTransfer)
      (w w' : World)
      → check_valid net h o msg w ≡ (ok true, w')
      → Accepts o msg w w'
  unfolding check_valid
  accepted none msg w w' e = ap (λ q. q.1) (sym e)
  accepted (some validator) msg w w' e = e

  -- The player asked for the object that the location offers, holds no prize, and is valid; the
  -- validator may change the world.
  pub record Granted (msg : RequestObjectTransfer) (w : World) : Type 0 where
    pub player_tree : Tree
    pub player_inventory : InventoryTree Tree
    pub prize_name : String
    pub held_as : String
    pub after_check : World
    pub offered : current_object_did net h w ≡ (ok msg.object_did, w)
    pub player_found : fetch net msg.to w ≡ (ok (some player_tree), w)
    pub inventory_found : find_inventory_tree net (must_id player_tree) w ≡ (ok player_inventory, w)
    pub named : name_of_import prize_cfg.prize ≡ ok prize_name
    pub under_name : did_for_name net player_inventory prize_name w ≡ (ok held_as, w)
    pub is_new : exists net player_inventory held_as w ≡ (ok false, w)
    pub valid : Accepts validator_func msg w after_check

  err-ne-ok :
      {A : Type 0} {e : Error} {a : A} {k k' : Kept net}
      → Path (Res A × Kept net) (err e, k) (ok a, k')
      → ⊥
  err-ne-ok h = cc

  on_world-IsQuiet : {A : Type 0} (m : M World A) → IsQuiet m → IsQuiet (on_world net m)
  unfolding on_world
  on_world-IsQuiet m q (w, t) = ap (λ (v : World). (v, t)) (q w)

  on_world-eq-ok :
      {A : Type 0} (m : M World A) (w : World) (t : Option Tree) {a : A} {k : Kept net}
      → on_world net m (w, t) ≡ (ok a, k)
      → m w ≡ (ok a, k.0)
  unfolding on_world
  on_world-eq-ok m w t e = ap (λ q. (q.0, q.1.0)) e

  current_object_did-IsQuiet : IsQuiet (current_object_did net h)
  unfolding current_object_did
  current_object_did-IsQuiet =
      bind-IsQuiet (wrapping _ (fetch net prize_cfg.location)) _ (λ w. refl)
        (λ t.
          bind-IsQuiet (lift (name_of_import prize_cfg.spawn)) _ (λ w. refl)
            (λ name. did_for_name-IsQuiet net (new_inventory_tree net t) name))

  sender_for-IsQuiet : (msg : RequestObjectTransfer) → IsQuiet (sender_for net h msg)
  unfolding sender_for
  sender_for-IsQuiet msg = find_handler_for_tree-IsQuiet net msg.to

  with_error-fails : (e : Error) (r : Res (Unit {0})) → with_error e r ≡ ok tt → ⊥
  unfolding with_error
  with_error-fails e (ok _) q = cc
  with_error-fails e (err x) q = cc
  with_error-fails e panic q = cc

  refuse-fails :
      (sender : Handler World) (msg : RequestObjectTransfer) (e : Error) (w w' : World)
      → refuse net h sender msg e w ≡ (ok tt, w')
      → ⊥
  unfolding refuse
  refuse-fails sender msg e w w' q = with_error-fails e _ (ap (λ x. x.0) q)

  give_if_valid-Valid :
      (msg : RequestObjectTransfer) (player_tree : Tree) (w : World) (t : Option Tree)
      (k : Kept net)
      → give_if_valid net h msg player_tree (w, t) ≡ (ok tt, k)
      → (w' : World) × Accepts validator_func msg w w'
  unfolding give_if_valid
  give_if_valid-Valid msg player_tree w t k q =
      let (valid, k1, e, q1) =
        bind-eq-ok
          (saying "could not validate" (on_world net (check_valid net h validator_func msg))) _
          (w, t) q in
      let checked =
        on_world-eq-ok _ w t
          (saying-eq-ok _ (on_world net (check_valid net h validator_func msg)) (w, t) e) in
      elim (Bool-cases valid) [
        | inl good ↦ (k1.0, accepted validator_func msg w k1.0 (rw good at checked))
        | inr bad ↦ absurd (let q2 = rw bad at q1 in cc)
      ]

  give_if_new-Granted :
      (msg : RequestObjectTransfer) (w : World) (t : Option Tree) (k : Kept net)
      → current_object_did net h w ≡ (ok msg.object_did, w)
      → give_if_new net h msg (w, t) ≡ (ok tt, k)
      → Granted msg w
  unfolding give_if_new
  give_if_new-Granted msg w t k offered q =
      let (player, e1, q1) =
        saying-bind _ (on_world net (fetch net msg.to)) _ (w, t) (on_world-IsQuiet _ (λ v. refl))
          q in
      let (player_tree, e2, q2) = quiet-bind (deref player) _ (w, t) (deref-IsQuiet player) q1 in
      let (inventory, e3, q3) =
        saying-bind _ (on_world net (find_inventory_tree net (must_id player_tree))) _ (w, t)
          (on_world-IsQuiet _ (find_inventory_tree-IsQuiet net (must_id player_tree))) q2 in
      let (prize_name, e4, q4) =
        quiet-bind (lift (name_of_import prize_cfg.prize)) _ (w, t) (λ v. refl) q3 in
      let (held_as, e5, q5) =
        saying-bind _ (on_world net (did_for_name net inventory prize_name)) _ (w, t)
          (on_world-IsQuiet _ (did_for_name-IsQuiet net inventory prize_name)) q4 in
      let (held, e6, q6) =
        saying-bind _ (on_world net (exists net inventory held_as)) _ (w, t)
          (on_world-IsQuiet _ (exists-IsQuiet net inventory held_as)) q5 in
      elim (Bool-cases held) [
        | inl there ↦ absurd (err-ne-ok (rw there at q6))
        | inr free ↦
            let (after, checked) = give_if_valid-Valid msg player_tree w t k (rw free at q6) in
            let there = deref-eq-ok player (w, t) e2 in
            record {
              player_tree = player_tree;
              player_inventory = inventory;
              prize_name = prize_name;
              held_as = held_as;
              after_check = after;
              offered = offered;
              player_found =
                  on_world-eq-ok (fetch net msg.to) w t e1
                  ∙ ap (λ (o : Option Tree). (ok o, w)) there.0;
              inventory_found =
                  on_world-eq-ok (find_inventory_tree net (must_id player_tree)) w t e3;
              named = ap (λ (x : Res String × Kept net). x.0) e4;
              under_name = on_world-eq-ok (did_for_name net inventory prize_name) w t e5;
              is_new = on_world-eq-ok (exists net inventory held_as) w t (rw free at e6);
              valid = checked;
            }
      ]

  give_if_current-Granted :
      (msg : RequestObjectTransfer) (w : World) (t : Option Tree) (k : Kept net)
      → give_if_current net h msg (w, t) ≡ (ok tt, k)
      → Granted msg w
  unfolding give_if_current
  give_if_current-Granted msg w t k q =
      let (current, e1, q1) =
        saying-bind _ (on_world net (current_object_did net h)) _ (w, t)
          (on_world-IsQuiet _ current_object_did-IsQuiet) q in
      elim (Bool-cases (msg.object_did == current)) [
        | inr other ↦ absurd (let q2 = rw other at q1 in cc)
        | inl same ↦
            give_if_new-Granted msg w t k
              (on_world-eq-ok (current_object_did net h) w t e1
                ∙ ap (λ (d : String). (ok d, w)) (sym ((eq_iff msg.object_did current).0 same)))
              (rw same at q1)
      ]

  answered-Granted :
      (sender : Handler World) (msg : RequestObjectTransfer) (w : World)
      (q : Res (Unit {0}) × Kept net) (k : Kept net)
      → (q.0 ≡ ok tt → Granted msg w)
      → answer_transfer net h sender msg q.0 q.1 ≡ (ok tt, k)
      → Granted msg w
  unfolding answer_transfer
  answered-Granted sender msg w (ok _, k') k granted e = granted refl
  answered-Granted sender msg w (err x, (w', t)) k granted e =
      absurd (refuse-fails sender msg x w' k.0 (on_world-eq-ok (refuse net h sender msg x) w' t e))
  answered-Granted sender msg w (panic, k') k granted e = absurd cc

  -- When the transfer of a prize succeeds, the requested object was the one that the location
  -- offered under the name of what is spawned there, the player's chaintree was found and its
  -- inventory did not hold what it has under the name of the prize, and the validator of the court,
  -- where there is one, accepted the request.
  pub handle_transfer-Granted :
      (msg : RequestObjectTransfer) (w : World) (t : Option Tree) (k : Kept net)
      → handle_transfer net h msg (w, t) ≡ (ok tt, k)
      → Granted msg w
  unfolding handle_transfer
  handle_transfer-Granted msg w t k q =
      let (sender, e1, q1) =
        quiet-bind (on_world net (sender_for net h msg)) _ (w, t)
          (on_world-IsQuiet _ (sender_for-IsQuiet msg)) q in
      answered-Granted sender msg w (give_if_current net h msg (w, t)) k
        (λ e.
          give_if_current-Granted msg w t _ (ap (λ r. (r, (give_if_current net h msg (w, t)).1)) e))
        q1
