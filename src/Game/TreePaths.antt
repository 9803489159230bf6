-- ===== src/Game/TreePaths.antt =====
-- The methods getPath and updatePath that game/object_tree.go, game/location_tree.go and
-- game/interaction_tree.go repeat, and that they fulfil the laws of `updatableTree`.
use jasons_game.Base.{
  String, ◌≡◌, sym, ◌∙◌, ap, Bool, true, false, Option, none, some, List, ◌∷◌, [], join,
}
use jasons_game.Network.{
  Value, Res, ok, err, panic, message, M, deref, pure, ◌>>=◌, Network, NetworkLaws, walk, put_at,
  bind-eq-ok, deref-eq-ok, ok-eq-ok, walk-append, walk-put_at-below, are_segments, null,
}
use jasons_game.Game.Interactions.Tree.{UpdatableTree, UpdatableLaws}

module _ (net : Network) where
  open net use {World, Tree, resolve, update_chain_tree}

  -- the error names the value that was returned in its place, not the cause
  unfoldable pub resolved : String → Res Value → Res Value
  resolved what (ok v) = ok v
  resolved what (err e) = err (message what)
  resolved what panic = panic

  unfoldable pub get_path_of : String → Option Tree → List String → Res Value
  unfolding resolved
  get_path_of what none path = panic
  get_path_of what (some tree) path =
      resolved what (resolve tree ("tree" ∷ "data" ∷ "jasons-game" ∷ path))

  unfoldable pub update_path_of : Option Tree → List String → Value → M World (Option Tree)
  update_path_of tree path val = do
    t ← deref tree
    new_tree ← update_chain_tree t (join ("jasons-game" ∷ path)) val
    pure (some new_tree)

  -- the tree type of the three; `what` is the fixed part of its error
  unfoldable pub paths_of : String → UpdatableTree World (Option Tree)
  unfolding get_path_of update_path_of
  paths_of what = record { get_path = get_path_of what; update_path = update_path_of }

module _ (net : Network) (laws : NetworkLaws net) where
  open net use {World, Tree, update_chain_tree}
  open laws use {available, data_of}

  abbrev pub is_at_hand : Option Tree → Bool
  is_at_hand none = false
  is_at_hand (some t) = available t

  -- what stands under tree/data/jasons-game
  abbrev pub game_data : Option Tree → Value
  game_data none = null
  game_data (some t) = walk ("jasons-game" ∷ []) (data_of t)

  pub get_path_of-content :
      (what : String) (o : Option Tree) (path : List String)
      → is_at_hand o ≡ true
      → get_path_of net what o path ≡ ok (walk path (game_data o))
  unfolding get_path_of resolved
  get_path_of-content what none path h = cc
  get_path_of-content what (some t) path h =
      rw (laws.resolve_data t ("jasons-game" ∷ path) h)
        (ap ok (walk-append ("jasons-game" ∷ []) path (data_of t)))

  pub update_path_of-content :
      (o o' : Option Tree) (path segments : List String) (v : Value) (w w' : World)
      → update_path_of net o path v w ≡ (ok o', w')
      → are_segments segments ≡ true
      → join ("jasons-game" ∷ path) ≡ join ("jasons-game" ∷ segments)
      → (is_at_hand o' ≡ true) × (game_data o' ≡ put_at segments v (game_data o))
  unfolding update_path_of
  update_path_of-content o o' path segments v w w' h s j =
      let (t, w1, h1, h2) = bind-eq-ok (deref o) _ w h in
      let (t', w2, h3, h4) =
        bind-eq-ok (update_chain_tree t (join ("jasons-game" ∷ path)) v) _ w1 h2 in
      let e = (deref-eq-ok o w h1).0 in
      let e' = sym (ok-eq-ok h4).0 in
      let decoded = ap net.decode_path j ∙ laws.decode-join "jasons-game" segments s in
      (
        ap is_at_hand e' ∙ (laws.update_saved t _ v w1 w2 t' h3).0,
        ap game_data e'
            ∙ ap (walk ("jasons-game" ∷ []))
                (laws.update_data t _ v w1 w2 t' ("jasons-game" ∷ segments) h3 decoded)
            ∙ walk-put_at-below "jasons-game" segments v (data_of t)
            ∙ ap (λ x. put_at segments v (game_data x)) (sym e),
      )

  unfoldable pub paths-UpdatableLaws : (what : String) → UpdatableLaws (paths_of net what)
  unfolding paths_of
  paths-UpdatableLaws what = record {
    at_hand = is_at_hand;
    content = game_data;
    get_content = get_path_of-content what;
    update_content = update_path_of-content;
  }
