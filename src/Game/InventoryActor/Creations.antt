-- ===== src/Game/InventoryActor/Creations.antt =====
-- What is in an inventory after an object was created in it.
use jasons_game.Base.{
  String, ◌≡◌, refl, sym, subst, ◌∙◌, ap, ◌≢◌, Bool, true, false, not, Option, none, some, [], ◌∷◌,
  ◌<>◌, ◌==◌, has_slash, has_slash-append, nonempty_of_first, is_some, lookup, if◌then◌else◌, arith,
  eq_iff,
}
use jasons_game.Network.{
  text, ok, M, Network, NetworkLaws, pure, are_segments, bind-eq-ok, wrapping-eq-ok, ok-eq-ok,
  wrapping, wrap, walk, walk-append,
}
use jasons_game.Trees.Inventory.{InventoryTree, exists, add, did_for_name}
use jasons_game.Trees.Inventory.Flip.{swapped, Map}
use jasons_game.Trees.Inventory.Stored.{Stored}
use jasons_game.Trees.Inventory.Lookups.{or_empty, did_for_name-Stored}
use jasons_game.Trees.Inventory.Contents.{exists-add}
use jasons_game.Game.Interactions.{Codec, CodecLaws, set_tree_value, get_tree_value, get_command}
use jasons_game.Game.TreePaths.{is_at_hand, game_data}
use jasons_game.Game.ObjectTree.{
  ObjectTree, get_name, set_description, update_path, add_interaction, create_object_tree,
  add_default_inscription_interactions,
}
use jasons_game.Game.ObjectTree.Created.{get_name-content, segment-append}
use jasons_game.Game.ObjectTree.Named.{
  Named, update_path_of-Named, Named-must_id, add_interaction-Named, create_object_on_tree-Named,
}
use jasons_game.Game.InventoryActor.{
  InventoryActor, CreateObjectRequest, Response, respond_ok, answering, furnished,
  handle_create_object,
}
use jasons_game.Game.InventoryActor.Transfers.{answering-eq, guard-eq}

pair : {A B : Type 0} {a a' : A} {b b' : B} → (a ≡ a') × (b ≡ b') → Path (A × B) (a, b) (a', b')
pair (e, e') = λ i. (e i, e' i)

module _ (net : Network) (laws : NetworkLaws net) (codec : Codec)
    (codec_laws : CodecLaws codec) where
  open net use {World, Tree, must_id, create_chain_tree}

  Named-get_name :
      (o : ObjectTree net) (name did : String) (u w : World)
      → Named net laws o name did u
      → get_name net o w ≡ (ok name, w)
  Named-get_name o name did u w n =
      get_name-content net laws codec codec_laws o name w
        (ap (is_at_hand net laws) n.is_tree ∙ n.at_hand)
        (ap (λ x. walk ("name" ∷ []) (game_data net laws x)) n.is_tree
          ∙ sym (walk-append ("jasons-game" ∷ []) ("name" ∷ []) (laws.data_of n.tree))
          ∙ n.named)

  -- The two inscription interactions keep the name.
  inscriptions-Named :
      (o o' : ObjectTree net) (name did : String) (u w w' : World)
      → has_slash name ≡ false
      → add_default_inscription_interactions net codec o w ≡ (ok o', w')
      → Named net laws o name did u
      → Named net laws o' name did w'
  unfolding add_default_inscription_interactions get_command
  inscriptions-Named o o' name did u w w' s h n =
      let h1 =
        rw (Named-must_id net laws o name did u w n) at
          (rw (Named-get_name o name did u w n) at h) in
      let first = set_tree_value ("inscribe " <> name <> " with") did "inscriptions" true false in
      let (o1, w1, a1, r1) =
        bind-eq-ok
          (wrapping "error adding interactions to object" (add_interaction net codec o first)) _ w
          h1 in
      let n1 =
        add_interaction-Named net laws codec codec_laws o o1 first name did u w w1
          (segment-append "inscribe " (name <> " with") refl
            (nonempty_of_first "i" "nscribe " (name <> " with"))
            (ground (arith, has_slash-append name " with", s)))
          (wrapping-eq-ok _ (add_interaction net codec o first) w a1) n in
      let second = get_tree_value ("read inscriptions on " <> name) did "inscriptions" false in
      let r1' = rw (Named-must_id net laws o1 name did w1 w1 n1) at r1 in
      add_interaction-Named net laws codec codec_laws o1 o' second name did w1 w1 w'
        (segment-append "read inscriptions on " name refl
          (nonempty_of_first "r" "ead inscriptions on " name) s)
        (wrapping-eq-ok _ (add_interaction net codec o1 second) w1 r1') n1

  described-Named :
      (b : Bool) (description : String) (o o' : ObjectTree net) (name did : String) (w w' : World)
      → (if b then pure o else set_description net o description) w ≡ (ok o', w')
      → Named net laws o name did w
      → Named net laws o' name did w'
  unfolding update_path
  described-Named true description o o' name did w w' h n =
      subst (λ q. Named net laws q.0 name did q.1) (pair (ok-eq-ok h)) n
  described-Named false description o o' name did w w' h n =
      update_path_of-Named net laws o o' ("description" ∷ []) (text description) name did w w w'
        refl refl h n

  inscribed-Named :
      (b : Bool) (o o' : ObjectTree net) (name did : String) (w w' : World)
      → has_slash name ≡ false
      → (if b then add_default_inscription_interactions net codec o else pure o) w ≡ (ok o', w')
      → Named net laws o name did w
      → Named net laws o' name did w'
  inscribed-Named true o o' name did w w' s h n = inscriptions-Named o o' name did w w w' s h n
  inscribed-Named false o o' name did w w' s h n =
      subst (λ q. Named net laws q.0 name did q.1) (pair (ok-eq-ok h)) n

  -- What is asked for beside the name keeps the name.
  furnished-Named :
      (msg : CreateObjectRequest) (o : ObjectTree net)
      (k : ObjectTree net → M World (Response (String × InventoryTree Tree))) (name did : String)
      (w w' : World) (made : String × InventoryTree Tree)
      → has_slash name ≡ false
      → Named net laws o name did w
      → furnished net codec msg o k w ≡ (ok (respond_ok made), w')
      → (o' : ObjectTree net) × (v : World) × Named net laws o' name did v
        × (k o' v ≡ (ok (respond_ok made), w'))
  unfolding furnished
  furnished-Named msg o k name did w w' made s n h =
      let (o1, w1, h1, r1) =
        answering-eq
          (if msg.description == "" then pure o else set_description net o msg.description) _ _ w
          h in
      let (o2, w2, h2, r2) =
        answering-eq
          (if msg.with_inscriptions
            then add_default_inscription_interactions net codec o1
            else pure o1)
          _ k w1 r1 in
      (
        o2,
        w2,
        inscribed-Named msg.with_inscriptions o1 o2 name did w1 w2 s h2
            (described-Named (msg.description == "") msg.description o o1 name did w w1 h1 n),
        r2,
      )

  -- The actor's inventory and the name asked for, before the creation.
  pub record Fresh (inv : InventoryActor net) (msg : CreateObjectRequest) (names : Map)
      : Type 0 where
    pub readable : Stored net laws inv.inventory names
    pub plain_name : are_segments (msg.name ∷ []) ≡ true
    pub no_empty_did : lookup msg.name names ≢ some ""

  free_name : (o : Option String) → or_empty o ≡ "" → o ≢ some "" → o ≡ none
  free_name none e n = refl
  free_name (some d) e n = absurd (n (ap some e))

  -- A tree that was created under a name that is a path segment has the name.
  create_object_tree-Named :
      (name : String) (o : ObjectTree net) (w w' : World)
      → are_segments (name ∷ []) ≡ true
      → create_object_tree net codec name w ≡ (ok o, w')
      → (did : String) × Named net laws o name did w'
  unfolding create_object_tree
  create_object_tree-Named name o w w' s h =
      let nonempty : (name == "") ≡ false = ground arith in
      let plain : has_slash name ≡ false = ground arith in
      let (t, w1, h1, h2) =
        bind-eq-ok (wrapping "error creating object chaintree" create_chain_tree) _ w
          (rw nonempty at h) in
      (must_id t, create_object_on_tree-Named net laws codec codec_laws name t o w1 w' plain h2)

  -- the last step, on the object as it is then
  added_last :
      (inv : InventoryActor net) (names : Map) (name did did' : String) (o : ObjectTree net)
      (v w' : World) (inventory' : InventoryTree Tree)
      → Stored net laws inv.inventory names
      → lookup name names ≡ none
      → Named net laws o name did v
      → answering {B = String × InventoryTree Tree}
          (add net inv.inventory did)
          (wrap "error updating objects in chaintree")
          (λ inventory. pure (respond_ok (did, inventory)))
          v
        ≡ (ok (respond_ok (did', inventory')), w')
      → (d : String) (x : World)
      → exists net inventory' d x
        ≡ (ok (if did' == d then true else is_some (lookup d (swapped names))), x)
  added_last inv names name did did' o v w' inventory' s free n h d x =
      let (inv2, w5, h5, r5) = answering-eq (add net inv.inventory did) _ _ v h in
      let named =
        laws.resolve_data n.tree ("jasons-game" ∷ "name" ∷ []) n.at_hand ∙ ap ok n.named in
      let e : Path (String × InventoryTree Tree) (did, inv2) (did', inventory') = cc in
      subst
        (λ q.
          exists net q.1 d x
          ≡ (ok (if q.0 == d then true else is_some (lookup d (swapped names))), x))
        e
        (exists-add net laws did name n.tree v n.stored named inv.inventory inv2 names d w5 x s free
          h5)

  -- Under the laws of the network and of the encoding, if a request to create an object, under a
  -- name that is a path segment and stands for no empty did in the inventory, is answered with a
  -- did by an actor whose inventory is readable, then the inventory that the actor has afterwards
  -- holds that did and what it held before, and nothing else.
  pub created_is_held :
      (inv : InventoryActor net) (msg : CreateObjectRequest) (names : Map) (w w' : World)
      (did : String) (inventory' : InventoryTree Tree)
      → Fresh inv msg names
      → handle_create_object net codec inv msg w ≡ (ok (respond_ok (did, inventory')), w')
      → (d : String) (x : World)
      → exists net inventory' d x
        ≡ (ok (if did == d then true else is_some (lookup d (swapped names))), x)
  unfolding handle_create_object
  created_is_held inv msg names w w' did inventory' f h d x =
      let s : has_slash msg.name ≡ false = ground (arith, f.plain_name) in
      let (found, w1, e1, r1) = answering-eq (did_for_name net inv.inventory msg.name) _ _ w h in
      let (guard, r2) = guard-eq (not (found == "")) _ _ w1 r1 in
      let read =
        did_for_name-Stored net laws inv.inventory names msg.name w f.readable f.plain_name in
      let free =
        free_name (lookup msg.name names)
          ((ok-eq-ok (sym read ∙ e1)).0 ∙ ground (arith, guard, eq_iff found "")) f.no_empty_did in
      let (object, w2, e2, r3) = answering-eq (create_object_tree net codec msg.name) _ _ w1 r2 in
      let (did1, n) = create_object_tree-Named msg.name object w1 w2 f.plain_name e2 in
      let (o', v, n', r4) =
        furnished-Named msg object _ msg.name did1 w2 w' (did, inventory') s n r3 in
      added_last inv names msg.name did1 did o' v w' inventory' f.readable free n'
        (rw (Named-must_id net laws o' msg.name did1 v v n') at r4) d x
