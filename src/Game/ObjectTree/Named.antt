-- ===== src/Game/ObjectTree/Named.antt =====
-- A handle on an object that is up to date and has its name; every write keeps it so.
use jasons_game.Base.{
  String, ◌≡◌, refl, sym, ◌∙◌, ap, true, false, some, List, [], ◌∷◌, ◌<>◌, join, has_slash,
  nonempty_of_first, subst,
}
use jasons_game.Network.{
  Value, text, ok, Network, NetworkLaws, Saved, put_at, walk, walk-put_at, walk-put_at-diverges,
  diverges, are_segments, bind-eq-ok, wrapping-eq-ok, ok-eq-ok, wrapping,
}
use jasons_game.Game.Interactions.{
  Codec, CodecLaws, Interaction, get_command, drop_object, pick_up_object, get_tree_value,
}
use jasons_game.Game.Interactions.Tree.Kept.{add_interaction-updates}
use jasons_game.Game.TreePaths.{update_path_of, paths_of, paths-UpdatableLaws}
use jasons_game.Game.ObjectTree.{
  ObjectTree, object_paths, must_id_of, set_name, update_path, add_interaction,
  create_object_on_tree,
}
use jasons_game.Game.ObjectTree.Created.{step, last_step, segment-append}

module _ (net : Network) (laws : NetworkLaws net) where
  open net use {World, Tree, must_id, get_tree, update_chain_tree}
  open laws use {available, data_of}

  -- The handle is the tree that is stored, and the name stands in it.
  pub record Named (o : ObjectTree net) (name did : String) (w : World) : Type 0 where
    pub tree : Tree
    pub is_tree : o ≡ some tree
    pub same_id : must_id tree ≡ did
    pub stored : get_tree did w ≡ ok (some tree)
    pub at_hand : available tree ≡ true
    pub named : walk ("jasons-game" ∷ "name" ∷ []) (data_of tree) ≡ text name

  -- What a write below jasons-game leaves.
  pub update_path_of-Saved :
      (t : Tree) (o' : ObjectTree net) (path : List String) (v : Value) (w w' : World)
      → update_path_of net (some t) path v w ≡ (ok o', w')
      → are_segments path ≡ true
      → (t' : Tree) × (o' ≡ some t')
        × (available t' ≡ true)
        × (data_of t' ≡ put_at ("jasons-game" ∷ path) v (data_of t))
        × Saved net t w t' w'
  unfolding update_path_of
  update_path_of-Saved t o' path v w w' h s =
      let p = join ("jasons-game" ∷ path) in
      let (t', w1, h1, h2) = bind-eq-ok (update_chain_tree t p v) _ w h in
      let saved = laws.update_saved t p v w w1 t' h1 in
      (
        t',
        sym (ok-eq-ok h2).0,
        saved.0,
        laws.update_data t p v w w1 t' ("jasons-game" ∷ path) h1
            (laws.decode-join "jasons-game" path s),
        subst (λ x. Saved net t w t' x) (ok-eq-ok h2).1 saved.2,
      )

  set_name-Named :
      (t : Tree) (o' : ObjectTree net) (name : String) (w w' : World)
      → set_name net (some t) name w ≡ (ok o', w')
      → Named o' name (must_id t) w'
  unfolding update_path
  set_name-Named t o' name w w' h =
      let (t', e, a, d, saved) = update_path_of-Saved t o' ("name" ∷ []) (text name) w w' h refl in
      record {
        tree = t';
        is_tree = e;
        same_id = saved.same_id;
        stored = saved.stored;
        at_hand = a;
        named =
            ap (walk ("jasons-game" ∷ "name" ∷ [])) d
            ∙ walk-put_at ("jasons-game" ∷ "name" ∷ []) (text name) (data_of t);
      }

  pub update_path_of-Named :
      (o o' : ObjectTree net) (path : List String) (v : Value) (name did : String) (u w w' : World)
      → are_segments path ≡ true
      → diverges ("jasons-game" ∷ path) ("jasons-game" ∷ "name" ∷ []) ≡ true
      → update_path_of net o path v w ≡ (ok o', w')
      → Named o name did u
      → Named o' name did w'
  update_path_of-Named o o' path v name did u w w' s apart h n =
      let (t', e, a, d, saved) =
        update_path_of-Saved n.tree o' path v w w' (rw (n.is_tree) at h) s in
      record {
        tree = t';
        is_tree = e;
        same_id = saved.same_id ∙ n.same_id;
        stored = ap (λ x. get_tree x w') (sym n.same_id) ∙ saved.stored;
        at_hand = a;
        named =
            ap (walk ("jasons-game" ∷ "name" ∷ [])) d
            ∙ walk-put_at-diverges ("jasons-game" ∷ path) ("jasons-game" ∷ "name" ∷ []) v
                (data_of n.tree) apart
            ∙ n.named;
      }

  pub Named-must_id :
      (o : ObjectTree net) (name did : String) (u w : World)
      → Named o name did u
      → must_id_of net o w ≡ (ok did, w)
  unfolding must_id_of
  Named-must_id o name did u w n = rw (n.is_tree) (ap (λ (d : String). (ok d, w)) n.same_id)

  module _ (codec : Codec) (codec_laws : CodecLaws codec) where
    pub add_interaction-Named :
        (o o' : ObjectTree net) (i : Interaction) (name did : String) (u w w' : World)
        → are_segments ("interactions" ∷ get_command i ∷ []) ≡ true
        → add_interaction net codec o i w ≡ (ok o', w')
        → Named o name did u
        → Named o' name did w'
    unfolding paths_of
    add_interaction-Named o o' i name did u w w' s h n =
        let (v, x, h') =
          add_interaction-updates codec codec_laws (object_paths net)
            (paths-UpdatableLaws net laws "error resolving on object") o o' i w w' h in
        update_path_of-Named o o' ("interactions" ∷ get_command i ∷ []) v name did u x w' s refl h'
          n

    -- A creation ends with an object that has its name.
    pub create_object_on_tree-Named :
        (name : String) (t : Tree) (o' : ObjectTree net) (w w' : World)
        → has_slash name ≡ false
        → create_object_on_tree net codec name (some t) w ≡ (ok o', w')
        → Named o' name (must_id t) w'
    unfolding create_object_on_tree get_command
    create_object_on_tree-Named name t o' w w' s h =
        let did = must_id t in
        let (o1, w1, h1, r1) =
          bind-eq-ok (wrapping "error setting name of new object" (set_name net (some t) name)) _ w
            h in
        let n1 =
          set_name-Named t o1 name w w1 (wrapping-eq-ok _ (set_name net (some t) name) w h1) in
        let (x2, w2, o2, a2, r2) =
          step net laws codec codec_laws o1 did w1 w' w w _ _ o' (Named-must_id o1 name did w1 w n1)
            r1 in
        let drop = drop_object ("drop " <> name) did false in
        let n2 =
          add_interaction-Named o1 o2 drop name did w1 x2 w2
            (segment-append "drop " name refl (nonempty_of_first "d" "rop " name) s) a2 n1 in
        let (x3, w3, o3, a3, r3) =
          step net laws codec codec_laws o2 did w2 w' w w _ _ o' (Named-must_id o2 name did w2 w n2)
            r2 in
        let pick = pick_up_object ("pick up " <> name) did false in
        let n3 =
          add_interaction-Named o2 o3 pick name did w2 x3 w3
            (segment-append "pick up " name refl (nonempty_of_first "p" "ick up " name) s) a3 n2 in
        let (x4, a4) =
          last_step net laws codec codec_laws o3 did w3 w' w w _ o'
            (Named-must_id o3 name did w3 w n3) r3 in
        let look = get_tree_value ("look at " <> name) did "description" false in
        add_interaction-Named o3 o' look name did w3 x4 w'
          (segment-append "look at " name refl (nonempty_of_first "l" "ook at " name) s) a4 n3
