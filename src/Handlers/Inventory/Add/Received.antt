-- ===== src/Handlers/Inventory/Add/Received.antt =====
-- Receiving an object: who may hand it over, and what a success leaves behind.
use jasons_game.Base.{
  is_some, String, ◌≡◌, ◌≢◌, refl, sym, ap, ◌∙◌, subst, Bool, true, false, none, some, List, ◌<>◌,
  lookup, insert, eq_refl, Bool-cases, inl, inr, if◌then◌else◌,
}
use jasons_game.Network.{
  text, ok, err, message, Network, NetworkLaws, TransferredObject, bind-eq-ok, wrapping-eq-ok,
  ok-eq-ok, wrapping, ◌>>◌, pure,
}
use jasons_game.Utils.StringSlice.{include}
use jasons_game.Trees.Inventory.{
  InventoryTree, find_inventory_tree, authentications_of, exists, add,
}
use jasons_game.Trees.Inventory.Flip.{Map, swapped}
use jasons_game.Trees.Inventory.Stored.{Stored, update_objects-Saved}
use jasons_game.Trees.Inventory.Contents.{names_path, exists-Stored, exists-add, add-eq}
use jasons_game.Handlers.Inventory.Add.{handle_transferred, receive}

module _ (net : Network) (laws : NetworkLaws net) where
  open net use {
    World, Tree, must_id, get_tree, resolve, authentications, public_addr, change_chain_tree_owner,
  }

  abbrev pub inventory_at : Tree → InventoryTree Tree
  inventory_at tree = record { tree = some tree }

  -- The target inventory and the object as the handler finds them: the inventory is readable and
  -- does not hold the object, and the object is another tree.
  pub record Arriving (msg : TransferredObject) (names : Map) (target object : Tree) (w : World)
      : Type 0 where
    pub target_found : get_tree msg.to w ≡ ok (some target)
    pub target_auths : List String
    pub target_owned : authentications target ≡ ok target_auths
    pub holding : Stored net laws (inventory_at target) names
    pub not_held : lookup msg.object_did (swapped names) ≡ none
    pub object_found : get_tree msg.object_did w ≡ ok (some object)
    pub object_auths : List String
    pub object_owned : authentications object ≡ ok object_auths
    pub object_id : must_id object ≡ msg.object_did
    pub apart : msg.object_did ≢ must_id target

  handle_transferred-eq :
      (msg : TransferredObject) (names : Map) (target object : Tree) (w : World)
      (a : Arriving msg names target object w)
      → handle_transferred net msg w ≡ receive net (inventory_at target) a.target_auths msg w
  unfolding handle_transferred find_inventory_tree authentications_of
  handle_transferred-eq msg names target object w a = rw (a.target_found) (
      rw (a.target_owned) (
        rw (exists-Stored net laws (inventory_at target) names msg.object_did w a.holding)
          (rw a.not_held)))

  receive-refused :
      (msg : TransferredObject) (names : Map) (target object : Tree) (w : World)
      (a : Arriving msg names target object w)
      → include a.object_auths public_addr ≡ false
      → receive net (inventory_at target) a.target_auths msg w ≡ (
        err (message ("can not transfer " <> msg.object_did <> ", current player is not an owner")),
        w,
      )
  unfolding receive
  receive-refused msg names target object w a n = rw (a.object_found) (rw (a.object_owned) (rw n))

  receive-eq :
      (msg : TransferredObject) (names : Map) (target object : Tree) (w : World)
      (a : Arriving msg names target object w)
      → include a.object_auths public_addr ≡ true
      → receive net (inventory_at target) a.target_auths msg w
        ≡ (do
          add net (inventory_at target) msg.object_did
          wrapping "error changing object owner" (change_chain_tree_owner object a.target_auths)
          pure tt)
            w
  unfolding receive
  receive-eq msg names target object w a y = rw (a.object_found) (rw (a.object_owned) (rw y))

  -- Under the network's laws, an object arriving at a readable inventory that does not hold it is
  -- refused when the player is not among the object's owners: the error says so, and nothing has
  -- changed.
  pub receive_requires_owner :
      (msg : TransferredObject) (names : Map) (target object : Tree) (w : World)
      (a : Arriving msg names target object w)
      → include a.object_auths public_addr ≡ false
      → handle_transferred net msg w ≡ (
        err (message ("can not transfer " <> msg.object_did <> ", current player is not an owner")),
        w,
      )
  receive_requires_owner msg names target object w a n =
      handle_transferred-eq msg names target object w a
      ∙ receive-refused msg names target object w a n

  -- What a success leaves: the owners of the target own the object, and the target holds it.
  pub record Delivered (msg : TransferredObject) (target : Tree) (keys : List String) (w : World)
      : Type 0 where
    pub object_after : Tree
    pub object_stored : get_tree msg.object_did w ≡ ok (some object_after)
    pub object_keys : authentications object_after ≡ ok keys
    pub target_after : Tree
    pub target_stored : get_tree (must_id target) w ≡ ok (some target_after)
    pub target_holds :
        (v : World) → exists net (inventory_at target_after) msg.object_did v ≡ (ok true, v)

  inventory-eta :
      (t : InventoryTree Tree) (tree : Tree) → t.tree ≡ some tree → t ≡ inventory_at tree
  inventory-eta t tree e = λ i. record { tree = e i }

  -- Under the network's laws, if the receiving handler succeeds on an object that arrives at a
  -- readable inventory not holding it, where the object is another tree than the inventory and its
  -- name is free in the inventory, then the player was among the owners of the object, the object
  -- now belongs to the owners of the target, and the target's stored inventory holds it.
  pub receive_delivers :
      (msg : TransferredObject) (names : Map) (target object : Tree) (w w' : World) (name : String)
      (a : Arriving msg names target object w)
      → resolve object names_path ≡ ok (text name)
      → lookup name names ≡ none
      → handle_transferred net msg w ≡ (ok tt, w')
      → (include a.object_auths public_addr ≡ true) × Delivered msg target a.target_auths w'
  receive_delivers msg names target object w w' name a named free h =
      elim (Bool-cases (include a.object_auths public_addr)) [
        | inl y ↦ (y, delivered y)
        | inr n ↦ absurd (cc (h, receive_requires_owner msg names target object w a n))
      ]
    where
      delivered : include a.object_auths public_addr ≡ true → Delivered msg target a.target_auths w'
      delivered y =
          let chain =
            sym (receive-eq msg names target object w a y)
            ∙ sym (handle_transferred-eq msg names target object w a)
            ∙ h in
          let (inv1, w1, added, h1) =
            bind-eq-ok (add net (inventory_at target) msg.object_did) _ w chain in
          let (object', w2, changed, h2) =
            bind-eq-ok
              (wrapping "error changing object owner"
                (change_chain_tree_owner object a.target_auths))
              _ w1 h1 in
          let owner =
            laws.owner_saved object a.target_auths w1 w2 object'
              (wrapping-eq-ok _ (change_chain_tree_owner object a.target_auths) w1 changed) in
          let m = insert msg.object_did name (swapped names) in
          let (target', at', same, saved) =
            update_objects-Saved net laws (inventory_at target) inv1 target m w w1 refl (
              sym (
                add-eq net laws msg.object_did name object w a.object_found named
                  (inventory_at target) names a.holding a.not_held)
              ∙ added) in
          let end = (ok-eq-ok h2).1 in
          record {
            object_after = object';
            object_stored = cc (owner.2.stored, end, a.object_id);
            object_keys = owner.1;
            target_after = target';
            target_stored = cc (
              owner.2.others (must_id target) (λ e. a.apart (sym (e ∙ a.object_id))),
              saved.stored,
              end,
            );
            target_holds = λ v.
                subst (λ t. exists net t msg.object_did v ≡ (ok true, v))
                  (inventory-eta inv1 target' at')
                  (exists-add net laws msg.object_did name object w a.object_found named
                      (inventory_at target) inv1 names msg.object_did w1 v a.holding free added
                    ∙ ap
                        (λ (b : Bool). (
                          ok (if b then true else is_some (lookup msg.object_did (swapped names))),
                          v,
                        ))
                        (eq_refl msg.object_did));
          }
