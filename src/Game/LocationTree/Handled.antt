-- ===== src/Game/LocationTree/Handled.antt =====
-- Setting the handler of a location: the location then names it, belongs to its owners too, and is
-- found by handlers/remote_handler.go.
use jasons_game.Base.{String, ◌≡◌, refl, sym, subst, ◌∙◌, ap, some, List, [], ◌∷◌, ◌++◌}
use jasons_game.Network.{
  text, ok, err, panic, Res, M, Network, NetworkLaws, bind-eq-ok, wrapping-eq-ok, walk, walk-put_at,
  put_at, lift, wrapping, pure, ◌>>=◌,
}
use jasons_game.Handlers.Remote.{
  handler_path, get_remote_handler, find_handler_for_tree, find_handler_named,
}
use jasons_game.Game.LocationTree.{LocationTree, State, on_world, handle, assign, set_handler}

module _ (net : Network) where
  open net use {World}

  -- A chain on the handle and the world that succeeded, after its first step: a read, or a change of
  -- the world.
  read-bind :
      {A B : Type 0} (m : String) (r : Res A) (f : A → M (State net) B) (s : State net) {b : B}
      {s2 : State net}
      → (on_world net (wrapping m (lift r)) >>= f) s ≡ (ok b, s2)
      → (a : A) × (r ≡ ok a) × (f a s ≡ (ok b, s2))
  unfolding on_world
  read-bind m (ok a) f s h = (a, refl, h)
  read-bind m (err e) f s h = cc
  read-bind m panic f s h = cc

  change-bind :
      {A B : Type 0} (e : String) (m : M World A) (f : A → M (State net) B) (s : State net) {b : B}
      {s2 : State net}
      → (on_world net (wrapping e m) >>= f) s ≡ (ok b, s2)
      → (a : A) × (w1 : World) × (m s.1 ≡ (ok a, w1)) × (f a (s.0, w1) ≡ (ok b, s2))
  unfolding on_world
  change-bind e m f s h =
      let (a, s1, h1, h2) = bind-eq-ok (on_world net (wrapping e m)) f s h in
      (
        a,
        (wrapping e m s.1).1,
        wrapping-eq-ok e m s.1 (ap (λ (q : Res _ × State net). (q.0, (wrapping e m s.1).1)) h1),
        ap (λ (x : State net). f a x) (ap (λ (q : Res _ × State net). q.1) h1) ∙ h2,
      )

ok_injective : {A : Type 0} {a b : A} → Path (Res A) (ok a) (ok b) → a ≡ b
ok_injective h = cc

module _ (net : Network) (laws : NetworkLaws net) where
  open net use {
    World, Tree, must_id, authentications, update_chain_tree, change_chain_tree_owner, get_tree,
  }
  open laws use {available, data_of}

  -- What is known of a location whose handler was set.
  pub record Handled (tree handler_tree : Tree) (handler_did : String) (l : LocationTree net)
      (w : World) : Type 0 where
    pub owned : Tree
    pub is_owned : l ≡ some owned
    pub auths : List String
    pub handler_auths : List String
    pub had : authentications tree ≡ ok auths
    pub handler_had : authentications handler_tree ≡ ok handler_auths
    pub has_all : authentications owned ≡ ok (auths ++ handler_auths)
    pub is_found :
        find_handler_for_tree net (must_id tree) w
        ≡ (get_remote_handler net handler_did >>= λ h. pure (some h)) w

  -- The two writes of a handler.
  Handled-of :
      (tree handler_tree new_tree owned : Tree) (handler_did : String)
      (auths handler_auths : List String) (w w4 w5 : World)
      → authentications tree ≡ ok auths
      → authentications handler_tree ≡ ok handler_auths
      → update_chain_tree tree handler_path (text handler_did) w ≡ (ok new_tree, w4)
      → change_chain_tree_owner new_tree (auths ++ handler_auths) w4 ≡ (ok owned, w5)
      → Handled tree handler_tree handler_did (some owned) w5
  Handled-of tree handler_tree new_tree owned handler_did auths handler_auths w w4 w5 e1 e3 h4 h5 =
      let updated = laws.update_saved tree handler_path (text handler_did) w w4 new_tree h4 in
      let given = laws.owner_saved new_tree (auths ++ handler_auths) w4 w5 owned h5 in
      let path : List String = handler_path ∷ [] in
      let named : data_of owned ≡ put_at path (text handler_did) (data_of tree) =
        laws.owner_data new_tree (auths ++ handler_auths) w4 w5 owned h5
        ∙ laws.update_data tree handler_path (text handler_did) w w4 new_tree path h4
            (laws.decode-join handler_path [] refl) in
      record {
        owned = owned;
        is_owned = refl;
        auths = auths;
        handler_auths = handler_auths;
        had = e1;
        handler_had = e3;
        has_all = given.1;
        is_found =
            find_handler_named net (must_id tree) handler_did owned w5
              (ap (λ d. get_tree d w5) (sym updated.2.same_id) ∙ given.2.stored)
              (laws.resolve_data owned path given.0
                ∙ ap (λ x. ok (walk path x)) named
                ∙ ap ok (walk-put_at path (text handler_did) (data_of tree)));
      }

  assigned :
      (t : Tree) (l l' : LocationTree net) (w w' : World)
      → assign net (some t) (l, w) ≡ (ok tt, (l', w'))
      → Path (State net) (some t, w) (l', w')
  unfolding assign
  assigned t l l' w w' h = ap (λ (q : Res (Unit {0}) × State net). q.1) h

  -- Under the network's laws, after the handler of a location was set successfully to a did whose
  -- tree is found, the location belongs to its former owners followed by those of the handler, and
  -- the handler found for the location's did is the remote handler of that did.
  pub set_handler-Handled :
      (tree handler_tree : Tree) (handler_did : String) (w w' : World) (l' : LocationTree net)
      → get_tree handler_did w ≡ ok (some handler_tree)
      → set_handler net handler_did (some tree, w) ≡ (ok tt, (l', w'))
      → Handled tree handler_tree handler_did l' w'
  unfolding set_handler handle assign on_world
  set_handler-Handled tree handler_tree handler_did w w' l' found h =
      let s : State net = (some tree, w) in
      let (auths, e1, r1) = read-bind net _ (authentications tree) _ s h in
      let (got, e2, r2) = read-bind net _ (get_tree handler_did w) _ s r1 in
      let same : got ≡ some handler_tree = ok_injective (sym e2 ∙ found) in
      let (handler_auths, e3, r3) =
        read-bind net _ (authentications handler_tree) _ s (rw same at r2) in
      let (new_tree, w4, h4, r4) =
        change-bind net _ (update_chain_tree tree handler_path (text handler_did)) _ s r3 in
      let (owned, w5, h5, r5) =
        change-bind net _ (change_chain_tree_owner new_tree (auths ++ handler_auths)) _
          (some new_tree, w4) r4 in
      let done =
        Handled-of tree handler_tree new_tree owned handler_did auths handler_auths w w4 w5 e1 e3 h4
          h5 in
      subst (λ q. Handled tree handler_tree handler_did q.0 q.1)
        (assigned owned (some new_tree) l' w5 w' r5) done
