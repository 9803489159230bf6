-- ===== src/Game/InventoryActor/Transfers.antt =====
-- What an inventory answers to a request for a transfer.
use jasons_game.Base.{◌≡◌, sym, refl, ◌∙◌, ap, Bool, true, false, ◌==◌, not, if◌then◌else◌}
use jasons_game.Network.{
  Res, ok, err, panic, Error, M, pure, Network, Message, request_object_transfer,
}
use jasons_game.Trees.Inventory.{find_inventory_tree, exists, InventoryTree}
use jasons_game.Handlers.Quiet.{
  IsQuiet, find_inventory_tree-IsQuiet, exists-IsQuiet, find_handler_for_tree-IsQuiet,
}
use jasons_game.Handlers.Remote.{find_handler_for_tree}
use jasons_game.Game.ObjectTree.{find_object_tree}
use jasons_game.Game.InventoryActor.{
  takes_transferred, answer_of, InventoryActor, TransferObjectRequest, Response, respond_ok,
  respond_error, answering, request_transfer, handle_transfer_object,
}

-- An answer without an error comes from a first step that succeeded.
pub answering-eq :
    {W A B : Type 0} (m : M W A) (f : Error → Error) (k : A → M W (Response B)) (w : W) {b : B}
    {w2 : W}
    → answering m f k w ≡ (ok (respond_ok b), w2)
    → (a : A) × (w1 : W) × (m w ≡ (ok a, w1)) × (k a w1 ≡ (ok (respond_ok b), w2))
answering-eq {W} {A} {B} m f k w {b} {w2} h = go (m w).0 refl
  where
    go :
        (r : Res A)
        → (m w).0 ≡ r
        → (a : A) × (w1 : W) × (m w ≡ (ok a, w1)) × (k a w1 ≡ (ok (respond_ok b), w2))
    go (ok a) e = (a, (m w).1, ap (λ (q : Res A). (q, (m w).1)) e, rw e at h)
    go (err x) e = absurd (let h' = rw e at h in cc)
    go panic e = absurd (let h' = rw e at h in cc)

-- The same where the first step changes nothing.
quiet-answering :
    {W A B : Type 0} (m : M W A) (f : Error → Error) (k : A → M W (Response B)) (w : W) {b : B}
    {w2 : W}
    → IsQuiet m
    → answering m f k w ≡ (ok (respond_ok b), w2)
    → (a : A) × (m w ≡ (ok a, w)) × (k a w ≡ (ok (respond_ok b), w2))
quiet-answering {W} {A} m f k w q h =
    let (a, w1, e, rest) = answering-eq m f k w h in
    let same : w1 ≡ w = ap (λ (p : Res A × W). p.1) (sym e) ∙ q w in
    (a, e ∙ ap (λ v. (ok a, v)) same, ap (k a) (sym same) ∙ rest)

pub guard-eq :
    {W B : Type 0} (c : Bool) (e : Error) (m : M W (Response B)) (w : W) {b : B} {w2 : W}
    → (if c then pure (respond_error e) else m) w ≡ (ok (respond_ok b), w2)
    → (c ≡ false) × (m w ≡ (ok (respond_ok b), w2))
guard-eq true e m w h = cc
guard-eq false e m w h = (refl, h)

not-false : (b : Bool) → not b ≡ false → b ≡ true
not-false true h = refl
not-false false h = cc

module _ (net : Network) where
  open net use {World}

  abbrev pub request_of : InventoryActor net → TransferObjectRequest → Message
  request_of inv msg =
      request_object_transfer (record { from = inv.did; to = msg.to; object_did = msg.did })

  handled-eq :
      (r : Res (Unit {0})) (v : World) {w2 : World}
      → answer_of net r v ≡ (ok (respond_ok tt), w2)
      → Path (Res (Unit {0}) × World) (r, v) (ok tt, w2)
  unfolding answer_of
  handled-eq (ok _) v h = ap (λ q. (ok tt, q.1)) h
  handled-eq (err e) v h = cc
  handled-eq panic v h = cc

  -- A transfer that is answered without an error: the destination did not hold the object, the
  -- inventory did, and the inventory's handler took the request, which alone changed the world.
  pub record Transferred (inv : InventoryActor net) (msg : TransferObjectRequest) (w w' : World)
      : Type 0 where
    pub destination : InventoryTree net.Tree
    pub is_destination : find_inventory_tree net msg.to w ≡ (ok destination, w)
    pub not_there : exists net destination msg.did w ≡ (ok false, w)
    pub held : exists net inv.inventory msg.did w ≡ (ok true, w)
    pub supported : inv.handler.supports (request_of inv msg) ≡ true
    pub handled : inv.handler.handle (request_of inv msg) w ≡ (ok tt, w')

  -- If a request for a transfer is answered without an error, the destination did not hold the
  -- object, the actor's inventory did, and the actor's handler supports the request and succeeded
  -- on it in the same world, and left the one that is there afterwards.
  pub transfer_answered :
      (inv : InventoryActor net) (msg : TransferObjectRequest) (w w' : World)
      → handle_transfer_object net inv msg w ≡ (ok (respond_ok tt), w')
      → Transferred inv msg w w'
  unfolding handle_transfer_object request_transfer find_object_tree
  transfer_answered inv msg w w' h =
      let (_, h1) = guard-eq (msg.did == "") _ _ w h in
      let (_, h2) = guard-eq (msg.to == "") _ _ w h1 in
      let (dest, e1, h3) =
        quiet-answering (find_inventory_tree net msg.to) _ _ w
          (find_inventory_tree-IsQuiet net msg.to) h2 in
      let (there, e2, h4) =
        quiet-answering (exists net dest msg.did) _ _ w (exists-IsQuiet net dest msg.did) h3 in
      let (absent, h5) = guard-eq there _ _ w h4 in
      let (held, e3, h6) =
        quiet-answering (exists net inv.inventory msg.did) _ _ w
          (exists-IsQuiet net inv.inventory msg.did) h5 in
      let (present, h7) = guard-eq (not held) _ _ w h6 in
      let (_, _, h8) = quiet-answering (find_object_tree net msg.did) _ _ w (λ v. refl) h7 in
      let (supported, h9) = guard-eq (not (inv.handler.supports (request_of inv msg))) _ _ w h8 in
      let (target, _, h10) =
        quiet-answering (find_handler_for_tree net msg.to) _ _ w
          (find_handler_for_tree-IsQuiet net msg.to) h9 in
      let (takes, h11) = guard-eq (not (takes_transferred net target)) _ _ w h10 in
      record {
        destination = dest;
        is_destination = e1;
        not_there = e2 ∙ ap (λ (b : Bool). (ok b, w)) absent;
        held = e3 ∙ ap (λ (b : Bool). (ok b, w)) (not-false held present);
        supported = not-false _ supported;
        handled =
            handled-eq (inv.handler.handle (request_of inv msg) w).0
              (inv.handler.handle (request_of inv msg) w).1 h11;
      }
