-- ===== src/Importer/Trees/Unchanged.antt =====
-- importer/importer.go: an import that is repeated writes nothing.
use jasons_game.Base.{
  String, ◌≡◌, refl, sym, ap, ◌∙◌, true, eq_refl, Bool-cases, inl, inr, some, [], ◌∷◌,
}
use jasons_game.Network.{
  Value, text, object, end, ok, M, Network, NetworkLaws, fetch, lift, walk, walk-put_at, bind-eq-ok,
  deref-eq-ok, ok-eq-ok,
}
use jasons_game.Importer.Trees.{
  lift, deref, import_hash_path, is_hash, reimport, update_tree_if_changed,
}

module _ (net : Network) (laws : NetworkLaws net) where
  open net use {World, Tree, get_tree, resolve, update_chain_tree}

  -- The tree holds the hash of what was imported.
  record Hashed (did new_hash : String) (w : World) : Type 0 where
    tree : Tree
    found : get_tree did w ≡ ok (some tree)
    hash_value : Value
    hash_at : resolve tree import_hash_path ≡ ok hash_value
    same : is_hash hash_value new_hash ≡ true

  unchanged :
      (did new_hash : String) (update : Tree → M World (Unit {0})) (w : World)
      → Hashed did new_hash w
      → update_tree_if_changed net did (ok new_hash) update w ≡ (ok tt, w)
  unfolding update_tree_if_changed
  unchanged did new_hash update w h = rw (h.found, h.hash_at, h.same) refl

  reimport-Hashed :
      (did new_hash : String) (update : Tree → M World (Unit {0})) (tree : Tree) (w w' : World)
      → reimport net did new_hash update tree w ≡ (ok tt, w')
      → Hashed did new_hash w'
  unfolding reimport is_hash
  reimport-Hashed did new_hash update tree w w' h =
      let (emptied, w1, e1, h1) = bind-eq-ok (update_chain_tree tree "" (object end)) _ w h in
      let (_, w2, e2, h2) = bind-eq-ok (update emptied) _ w1 h1 in
      let (found, w3, e3, h3) = bind-eq-ok (fetch net did) _ w2 h2 in
      let (latest, w4, e4, h4) = bind-eq-ok (deref found) _ w3 h3 in
      let (t', w5, e5, h5) =
        bind-eq-ok (update_chain_tree latest "import-hash" (text new_hash)) _ w4 h4 in
      let (at_hand, auths, saved) =
        laws.update_saved latest "import-hash" (text new_hash) w4 w5 t' e5 in
      let content =
        laws.update_data latest "import-hash" (text new_hash) w4 w5 t' ("import-hash" ∷ []) e5
          (laws.decode-join "import-hash" [] refl) in
      let got : get_tree did w2 ≡ ok found = ap (λ q. q.0) e3 in
      let own = laws.fetched_id did w2 latest (got ∙ ap ok (deref-eq-ok found w3 e4).0) in
      let at_end : w5 ≡ w' = (ok-eq-ok h5).1 in
      record {
        tree = t';
        found =
            sym (ap (λ d. get_tree d w') own)
            ∙ ap (get_tree (net.must_id latest)) (sym at_end)
            ∙ saved.stored;
        hash_value = text new_hash;
        hash_at =
            laws.resolve_data t' ("import-hash" ∷ []) at_hand
            ∙ ap ok (
                ap (walk ("import-hash" ∷ [])) content
                ∙ walk-put_at ("import-hash" ∷ []) (text new_hash) (laws.data_of latest));
        same = eq_refl new_hash;
      }

  -- After an update that succeeded, the tree holds the hash.
  updated-Hashed :
      (did new_hash : String) (update : Tree → M World (Unit {0})) (w w' : World)
      → update_tree_if_changed net did (ok new_hash) update w ≡ (ok tt, w')
      → Hashed did new_hash w'
  unfolding update_tree_if_changed
  updated-Hashed did new_hash update w w' h =
      let (found, w1, e1, h1) = bind-eq-ok (fetch net did) _ w h in
      let (tree, w2, e2, h2) = bind-eq-ok (deref found) _ w1 h1 in
      let (hash_value, w3, e3, h3) = bind-eq-ok (lift (resolve tree import_hash_path)) _ w2 h2 in
      elim (Bool-cases (is_hash hash_value new_hash)) [
        | inl e ↦
            let h4 = rw e at h3 in
            let there : w ≡ w' =
              ap (λ q. q.1) e1 ∙ (deref-eq-ok found w1 e2).1 ∙ ap (λ q. q.1) e3 ∙ (ok-eq-ok h4).1 in
            record {
              tree = tree;
              found =
                  ap (get_tree did) (sym there)
                  ∙ ap (λ q. q.0) e1
                  ∙ ap ok (deref-eq-ok found w1 e2).0;
              hash_value = hash_value;
              hash_at = ap (λ q. q.0) e3;
              same = e;
            }
        | inr e ↦ reimport-Hashed did new_hash update tree w3 w' (rw e at h3)
      ]

  -- Under the laws of the network, when the update of a chaintree with data of a hash has
  -- succeeded, an update with data of the same hash succeeds in the world that it left and changes
  -- nothing.
  pub update_tree-again :
      (did new_hash : String) (update update' : Tree → M World (Unit {0})) (w w' : World)
      → update_tree_if_changed net did (ok new_hash) update w ≡ (ok tt, w')
      → update_tree_if_changed net did (ok new_hash) update' w' ≡ (ok tt, w')
  update_tree-again did new_hash update update' w w' h =
      unchanged did new_hash update' w' (updated-Hashed did new_hash update w w' h)
