-- ===== src/Courts/Autumn/PickUp/Earned.antt =====
-- Who gets an element from the combiner has earned it.
use jasons_game.Base.{
  ◌≤◌, ◌≡◌, refl, sym, ◌∙◌, ap, false, Option, some, List, [], ◌∷◌, length, Bool-cases, inl, inr,
}
use jasons_game.Network.{
  Error, Value, text, Res, ok, err, panic, Network, fetch, RequestObjectTransfer, bind-eq-ok,
}
use jasons_game.Handlers.{Handler}
use jasons_game.Network.{auths_at}
use jasons_game.Trees.Inventory.{
  InventoryTree, find_inventory_tree, new_inventory_tree, did_for_name,
}
use jasons_game.Game.Interactions.{Codec}
use jasons_game.Game.ObjectTree.{ObjectTree, find_object_tree, get_path}
use jasons_game.Courts.Autumn.Combinations.{ℤ, negsuc, same_id}
use jasons_game.Courts.Autumn.Elements.{Element, name_of_element}
use jasons_game.Courts.Autumn.Combiner.{
  combination_object_name, base_err, ElementCombiner, find_combined_element,
}
use jasons_game.Courts.Autumn.PickUp.{
  is_player, ids_of, find_bowl, use_bowl, pick_up, answer, new_response_sender, errorf,
  handle_pickup_element, after_error,
}
use jasons_game.Handlers.Quiet.{quiet-bind, auths_at-IsQuiet, find_handler_for_tree-IsQuiet}
use jasons_game.Courts.Autumn.PickUp.Quiet.{saying-bind}
use jasons_game.Courts.Autumn.PickUp.Steps.{
  fail-ok, absurd, find_bowl-ok, combine_elements-ok, lift-bind, is_player_text,
}

module _ (net : Network) (codec : Codec) (h : ElementCombiner) where
  open net use {World, Tree}

  -- What the world was when an element was asked for: the bowl of the request stands in the
  -- inventory under its name and is the player's; the ids in it are enough and make an element that
  -- may be given, and of which the player has none.
  pub record Earned (msg : RequestObjectTransfer) (w : World) : Type 0 where
    pub inventory : InventoryTree Tree
    pub bowl : ObjectTree net
    pub player_tree : Option Tree
    pub content : Value
    pub ids : List ℤ
    pub made : Element
    pub held_in : find_inventory_tree net msg.from w ≡ (ok inventory, w)
    pub held : did_for_name net inventory combination_object_name w ≡ (ok msg.object_did, w)
    pub bowl_found : find_object_tree net msg.object_did w ≡ (ok bowl, w)
    pub of_player : get_path net bowl ("player" ∷ []) w ≡ (ok (text msg.to), w)
    pub player_found : fetch net msg.to w ≡ (ok player_tree, w)
    pub in_bowl : get_path net bowl ("elements" ∷ []) w ≡ (ok content, w)
    pub have_ids : ids_of content ≡ ok ids
    pub enough : h.min_required ≤ length ids
    pub is_made : find_combined_element h ids ≡ some made
    pub allowed : same_id made.id (negsuc 0) ≡ false
    pub is_new :
        did_for_name net (new_inventory_tree net player_tree) (name_of_element made) w ≡ (ok "", w)

  use_bowl-Earned :
      (msg : RequestObjectTransfer) (i : InventoryTree Tree) (b : ObjectTree net) (w : World)
      {w2 : World}
      → find_inventory_tree net msg.from w ≡ (ok i, w)
      → did_for_name net i combination_object_name w ≡ (ok msg.object_did, w)
      → find_object_tree net msg.object_did w ≡ (ok b, w)
      → use_bowl net codec h msg i b w ≡ (ok tt, w2)
      → Earned msg w
  unfolding use_bowl get_path
  use_bowl-Earned msg i b w held_in held bowl_found done =
      let (player, got, rest) =
        saying-bind (base_err "could not fetch object") (get_path net b ("player" ∷ [])) _ w
          (λ w. refl) done in
      let (right, is_right, rest) = lift-bind (is_player player msg.to) _ w rest in
      elim (Bool-cases right) [
        | inr wrong ↦ absurd (fail-ok _ w (rw wrong at rest))
        | inl same ↦
            let (tree, fetched, rest) =
              saying-bind (base_err "could not fetch player tree") (fetch net msg.to) _ w
                (λ w. refl) (rw same at rest) in
            let (auths, _, rest) =
              saying-bind (base_err "could not fetch player tree") (auths_at net tree) _ w
                (auths_at-IsQuiet net tree) rest in
            let (content, in_bowl, rest) =
              saying-bind (base_err "could not fetch object") (get_path net b ("elements" ∷ [])) _ w
                (λ w. refl) rest in
            let (ids, have_ids, rest) = lift-bind (ids_of content) _ w rest in
            let (enough, made, is_made, allowed, is_new) =
              combine_elements-ok net codec h i b (new_inventory_tree net tree) auths ids w rest in
            record {
              inventory = i;
              bowl = b;
              player_tree = tree;
              content = content;
              ids = ids;
              made = made;
              held_in = held_in;
              held = held;
              bowl_found = bowl_found;
              of_player =
                  got ∙ ap (λ v. (ok v, w)) (is_player_text player msg.to (is_right ∙ ap ok same));
              player_found = fetched;
              in_bowl = in_bowl;
              have_ids = have_ids;
              enough = enough;
              is_made = is_made;
              allowed = allowed;
              is_new = is_new;
            }
      ]

  pick_up-Earned :
      (msg : RequestObjectTransfer) (w : World) {w2 : World}
      → pick_up net codec h msg w ≡ (ok tt, w2)
      → Earned msg w
  unfolding pick_up
  pick_up-Earned msg w done =
      let (q, w1, bowl, rest) = bind-eq-ok (find_bowl net codec h msg) _ w done in
      let (held_in, held, bowl_found, same) = find_bowl-ok net codec h msg w bowl in
      use_bowl-Earned msg q.0 q.1 w held_in held bowl_found
        (ap (use_bowl net codec h msg q.0 q.1) (sym same) ∙ rest)

  after_error-fails : (e : Error) (r : Res (Unit {0})) → after_error net codec h e r ≡ ok tt → ⊥
  unfolding after_error
  after_error-fails e (ok u) k = cc
  after_error-fails e (err x) k = cc
  after_error-fails e panic k = cc

  -- An answer without an error follows a success.
  answer-ok :
      (handler : Handler World) (msg : RequestObjectTransfer) (r : Res (Unit {0})) (w : World)
      {w2 : World}
      → answer net codec h handler msg r w ≡ (ok tt, w2)
      → r ≡ ok tt
  unfolding answer errorf
  answer-ok handler msg (ok tt) w done = refl
  answer-ok handler msg (err e) w done =
      absurd (after_error-fails e _ (ap (λ (q : Res (Unit {0}) × World). q.0) done))
  answer-ok handler msg panic w done = cc

  -- If the combiner answers a request to pick up without an error, then in the world of the request
  -- the named object is the bowl of the inventory, the bowl is the addressed player's, the ids of
  -- the elements in it are as many as required, they make an element that is configured and is not
  -- the forbidden one, and the player has no object of its name.
  pub handle_pickup_element-Earned :
      (msg : RequestObjectTransfer) (w w2 : World)
      → handle_pickup_element net codec h msg w ≡ (ok tt, w2)
      → Earned msg w
  unfolding handle_pickup_element new_response_sender
  handle_pickup_element-Earned msg w w2 done =
      let (handler, _, rest) =
        quiet-bind (new_response_sender net codec h msg) _ w
          (find_handler_for_tree-IsQuiet net msg.to) done in
      let picked =
        answer-ok handler msg (pick_up net codec h msg w).0 (pick_up net codec h msg w).1 rest in
      pick_up-Earned msg w (ap (λ r. (r, (pick_up net codec h msg w).1)) picked)
