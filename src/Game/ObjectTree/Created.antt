-- ===== src/Game/ObjectTree/Created.antt =====
-- A new object: its name and the three interactions that it gets, none of which replaces another.
use jasons_game.Base.{
  String, ◌≡◌, refl, ◌∙◌, ap, true, false, none, some, List, [], ◌∷◌, arith, ◌<>◌, ◌==◌, has_slash,
  has_slash-append, ne_of_first, nonempty_of_first,
}
use jasons_game.Network.{
  Value, text, ok, Network, NetworkLaws, M, deref, wrapping, ◌>>=◌, bind-eq-ok, deref-eq-ok,
  wrapping-eq-ok, ok-eq-ok, walk, walk-put_at, are_segments,
}
use jasons_game.Game.Interactions.{
  Codec, CodecLaws, Interaction, get_command, drop_object, pick_up_object, get_tree_value,
}
use jasons_game.Game.Interactions.Tree.{get_interaction_from_tree}
use jasons_game.Game.Interactions.Tree.Kept.{
  get-add_interaction, get-add_interaction_other, add_interaction-elsewhere,
  add_interaction-updates,
}
use jasons_game.Game.TreePaths.{
  update_path_of, is_at_hand, game_data, update_path_of-content, paths-UpdatableLaws,
  get_path_of-content, paths_of,
}
use jasons_game.Game.ObjectTree.{
  wrapping, ObjectTree, object_paths, must_id_of, get_name, get_path, prop_text, get_prop, set_name,
  update_path, add_interaction, create_object_on_tree,
}

-- A text before the name does not make a bad segment of it.
pub segment-append :
    (s name : String)
    → has_slash s ≡ false
    → ((s <> name) == "") ≡ false
    → has_slash name ≡ false
    → are_segments ("interactions" ∷ (s <> name) ∷ []) ≡ true
segment-append s name h ne h' = ground (arith, has_slash-append s name)

module _ (net : Network) (laws : NetworkLaws net) (codec : Codec)
    (codec_laws : CodecLaws codec) where
  open net use {World, Tree, must_id, update_chain_tree}

  -- An update keeps the did.
  update_path_of-must_id :
      (o o' : ObjectTree net) (path : List String) (v : Value) (w w' u u' : World) (did : String)
      → update_path_of net o path v w ≡ (ok o', w')
      → must_id_of net o u ≡ (ok did, u')
      → must_id_of net o' u ≡ (ok did, u)
  unfolding update_path_of must_id_of
  update_path_of-must_id o o' path v w w' u u' did h hd =
      let (t, w1, h1, h2) = bind-eq-ok (deref o) _ w h in
      let (t', w2, h3, h4) = bind-eq-ok (update_chain_tree t _ v) _ w1 h2 in
      let ids = (laws.update_saved t _ v w1 w2 t' h3).2.same_id in
      let same : must_id t ≡ did = (ok-eq-ok (rw ((deref-eq-ok o w h1).0) at hd)).0 in
      rw (← (ok-eq-ok h4).0) (ap (λ (d : String). (ok d, u)) (ids ∙ same))

  -- An addition keeps the did.
  add-must_id :
      (o o' : ObjectTree net) (i : Interaction) (w w' u u' : World) (did : String)
      → add_interaction net codec o i w ≡ (ok o', w')
      → must_id_of net o u ≡ (ok did, u')
      → must_id_of net o' u ≡ (ok did, u)
  unfolding paths_of
  add-must_id o o' i w w' u u' did h hd =
      let (v, x, h') =
        add_interaction-updates codec codec_laws (object_paths net) (paths-UpdatableLaws net laws _)
          o o' i w w' h in
      update_path_of-must_id o o' ("interactions" ∷ get_command i ∷ []) v x w' u u' did h' hd

  -- The name of an object under which the name stands.
  pub get_name-content :
      (o : ObjectTree net) (name : String) (u : World)
      → is_at_hand net laws o ≡ true
      → walk ("name" ∷ []) (game_data net laws o) ≡ text name
      → get_name net o u ≡ (ok name, u)
  unfolding get_prop get_path prop_text
  get_name-content o name u a e =
      rw (get_path_of-content net laws "error resolving on object" o ("name" ∷ []) a, e)

  pub must_id-anywhere :
      (o : ObjectTree net) (did : String) (u u' w : World)
      → must_id_of net o u ≡ (ok did, u')
      → must_id_of net o w ≡ (ok did, w)
  unfolding must_id_of
  must_id-anywhere none did u u' w h = cc
  must_id-anywhere (some t) did u u' w h = ap (λ (d : String). (ok d, w)) (ok-eq-ok h).0

  -- One addition of a creation that succeeded, and what follows it.
  pub step :
      (o : ObjectTree net) (did : String) (w w' u u' : World) (interaction : String → Interaction)
      (f : ObjectTree net → M World (ObjectTree net)) (o' : ObjectTree net)
      → must_id_of net o u ≡ (ok did, u')
      → (must_id_of net o >>= λ d.
            wrapping "error adding interactions to new object"
              (add_interaction net codec o (interaction d))
            >>= f)
          w
        ≡ (ok o', w')
      → (v v' : World) × (o2 : ObjectTree net) × (add_interaction net codec o (interaction did) v
          ≡ (ok o2, v'))
        × (f o2 v' ≡ (ok o', w'))
  step o did w w' u u' interaction f o' hd h =
      let m = add_interaction net codec o (interaction did) in
      let (o2, v', h1, h2) =
        bind-eq-ok (wrapping _ m) f w (rw (must_id-anywhere o did u u' w hd) at h) in
      (w, v', o2, wrapping-eq-ok _ m w h1, h2)

  pub last_step :
      (o : ObjectTree net) (did : String) (w w' u u' : World) (interaction : String → Interaction)
      (o' : ObjectTree net)
      → must_id_of net o u ≡ (ok did, u')
      → (must_id_of net o >>= λ d.
            wrapping "error adding interactions to new object"
              (add_interaction net codec o (interaction d)))
          w
        ≡ (ok o', w')
      → (v : World) × (add_interaction net codec o (interaction did) v ≡ (ok o', w'))
  last_step o did w w' u u' interaction o' hd h = (
    w,
    wrapping-eq-ok _ (add_interaction net codec o (interaction did)) w
        (rw (must_id-anywhere o did u u' w hd) at h),
  )

  -- What a created object answers.
  pub record Created (o : ObjectTree net) (name did : String) (u : World) : Type 0 where
    pub named : get_name net o u ≡ (ok name, u)
    pub dropped :
        get_interaction_from_tree codec (object_paths net) o ("drop " <> name) u
        ≡ (ok (some (drop_object ("drop " <> name) did false)), u)
    pub picked_up :
        get_interaction_from_tree codec (object_paths net) o ("pick up " <> name) u
        ≡ (ok (some (pick_up_object ("pick up " <> name) did false)), u)
    pub looked_at :
        get_interaction_from_tree codec (object_paths net) o ("look at " <> name) u
        ≡ (ok (some (get_tree_value ("look at " <> name) did "description" false)), u)

  -- Under the laws of the network and of the encoding, if the creation of an object succeeds on a
  -- tree with a did, for a name without a slash, the object has that name and answers to drop, pick
  -- up and look at, each followed by its name, with the interactions for its did.
  pub create_object_on_tree-Created :
      (name did : String) (o o' : ObjectTree net) (w w' u u' : World)
      → has_slash name ≡ false
      → must_id_of net o u ≡ (ok did, u')
      → create_object_on_tree net codec name o w ≡ (ok o', w')
      → Created o' name did u
  unfolding create_object_on_tree update_path paths-UpdatableLaws get_command
  create_object_on_tree-Created name did o o' w w' u u' s hd h =
      let L = paths-UpdatableLaws net laws "error resolving on object" in
      let (o1, w1, h1, r1) =
        bind-eq-ok (wrapping "error setting name of new object" (set_name net o name)) _ w h in
      let a1 = wrapping-eq-ok _ (set_name net o name) w h1 in
      let id1 = update_path_of-must_id o o1 ("name" ∷ []) (text name) w w1 u u' did a1 hd in
      let (x2, w2, o2, a2, r2) = step o1 did w1 w' u u _ _ o' id1 r1 in
      let id2 = add-must_id o1 o2 _ x2 w2 u u did a2 id1 in
      let (x3, w3, o3, a3, r3) = step o2 did w2 w' u u _ _ o' id2 r2 in
      let id3 = add-must_id o2 o3 _ x3 w3 u u did a3 id2 in
      let (x4, a4) = last_step o3 did w3 w' u u _ o' id3 r3 in
      let drop = drop_object ("drop " <> name) did false in
      let pick = pick_up_object ("pick up " <> name) did false in
      let look = get_tree_value ("look at " <> name) did "description" false in
      let s2 = segment-append "drop " name refl (nonempty_of_first "d" "rop " name) s in
      let s3 = segment-append "pick up " name refl (nonempty_of_first "p" "ick up " name) s in
      let s4 = segment-append "look at " name refl (nonempty_of_first "l" "ook at " name) s in
      let P = object_paths net in
      let (b1, c1) =
        update_path_of-content net laws o o1 ("name" ∷ []) ("name" ∷ []) (text name) w w1 a1 refl
          refl in
      let (b2, c2) =
        add_interaction-elsewhere codec codec_laws P L o1 o2 drop "name" x2 w2 s2 refl a2 in
      let (b3, c3) =
        add_interaction-elsewhere codec codec_laws P L o2 o3 pick "name" x3 w3 s3 refl a3 in
      let (b4, c4) =
        add_interaction-elsewhere codec codec_laws P L o3 o' look "name" x4 w' s4 refl a4 in
      let other = get-add_interaction_other codec codec_laws P L in
      record {
        named = get_name-content o' name u b4 (
            c4
            ∙ c3
            ∙ c2
            ∙ ap (walk ("name" ∷ [])) c1
            ∙ walk-put_at ("name" ∷ []) (text name) (game_data net laws o));
        dropped =
            other o3 o' look ("drop " <> name) x4 w' u b3 s4
              (ne_of_first "l" "d" "ook at " "rop " name name refl) a4
            ∙ other o2 o3 pick ("drop " <> name) x3 w3 u b2 s3
                (ne_of_first "p" "d" "ick up " "rop " name name refl) a3
            ∙ get-add_interaction codec codec_laws P L o1 o2 drop x2 w2 u s2 a2;
        picked_up =
            other o3 o' look ("pick up " <> name) x4 w' u b3 s4
              (ne_of_first "l" "p" "ook at " "ick up " name name refl) a4
            ∙ get-add_interaction codec codec_laws P L o2 o3 pick x3 w3 u s3 a3;
        looked_at = get-add_interaction codec codec_laws P L o3 o' look x4 w' u s4 a4;
      }
