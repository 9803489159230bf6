-- ===== src/Game/Interactions/Tree/Kept.antt =====
-- What is added to a tree is found again, and nothing that was there is lost.
use jasons_game.Base.{
  String-cases, join, inr, inl, Bool-cases, String, ◌≡◌, refl, sym, ◌∙◌, ap, true, false, Option,
  none, some, [], ◌∷◌, arith, is_some, ◌==◌, inl, inr, Bool-cases, ◌<>◌, has_slash,
  has_slash-append,
}
use jasons_game.Network.{
  Value, null, text, bool, number, list, object, link, ok, err, message, Res, lift, wrapping,
  are_segments, walk, bind-eq-ok, wrapping-eq-ok, walk-put_at, walk-put_at-diverges,
}
use jasons_game.Game.Interactions.Types.{Interaction, get_command}
use jasons_game.Game.Interactions.Encoding.{
  Codec, CodecLaws, interaction_to_node, interaction_from_value, stored-roundtrip,
}
use jasons_game.Game.Interactions.Tree.{
  number, bool, text, UpdatableTree, UpdatableLaws, stored_interaction, get_interaction_from_tree,
  add_interaction_to_tree,
}

-- A slash between two texts is a slash of the whole.
slash-between : (a b : String) → has_slash (a <> "/" <> b) ≡ true
slash-between a b = ground (arith, has_slash-append a ("/" <> b), has_slash-append "/" b)

segment : (a b : String) → are_segments ("interactions" ∷ a ∷ b ∷ []) ≡ true → has_slash a ≡ false
segment a b h = ground arith

first_ne : (a b c : String) → c ≡ a <> "/" <> b → has_slash a ≡ false → (a == c) ≡ false
first_ne a b c e h = elim (String-cases a c) [
  | inl q ↦ absurd (ground (arith, slash-between a b, ap has_slash (q ∙ e)))
  | inr q ↦ q
]

module _ (codec : Codec) (codec_laws : CodecLaws codec) {W T : Type 0} (trees : UpdatableTree W T)
    (laws : UpdatableLaws trees) where
  open trees use {get_path, update_path}
  open laws use {at_hand, content}

  pub get_interaction-eq :
      (t : T) (command : String) (w : W)
      → at_hand t ≡ true
      → get_interaction_from_tree codec trees t command w
        ≡ (stored_interaction codec trees (walk ("interactions" ∷ command ∷ []) (content t)), w)
  unfolding get_interaction_from_tree
  get_interaction-eq t command w h = rw (laws.get_content t ("interactions" ∷ command ∷ []) h)

  stored_node :
      (v : Value) (i : Interaction)
      → interaction_from_value codec v ≡ ok i
      → stored_interaction codec trees v ≡ ok (some i)
  unfolding interaction_from_value
  stored_node null i h = cc
  stored_node (text _) i h = cc
  stored_node (bool _) i h = cc
  stored_node (number _) i h = cc
  stored_node (list _) i h = cc
  stored_node (object m) i h = rw h refl
  stored_node (link _) i h = cc

  is_some-none : (o : Option Interaction) → is_some o ≡ false → o ≡ none
  is_some-none none h = refl
  is_some-none (some i) h = cc

  -- A chain of an addition that succeeded.
  added :
      (t t' : T) (i : Interaction) (w w' : W)
      → add_interaction_to_tree codec trees t i w ≡ (ok t', w')
      → (v : Value) × (u : W) × (u' : W) × (get_interaction_from_tree codec trees t
            (get_command i)
            w
          ≡ (ok none, u'))
        × (interaction_to_node codec i ≡ ok v)
        × (update_path t ("interactions" ∷ get_command i ∷ []) v u ≡ (ok t', w'))
  unfolding add_interaction_to_tree
  added t t' i w w' h =
      let (resp, w1, h1, h2) =
        bind-eq-ok (get_interaction_from_tree codec trees t (get_command i)) _ w h in
      elim (Bool-cases (is_some resp)) [
        | inl e ↦ absurd (let h3 = rw e at h2 in cc)
        | inr e ↦
            let (v, w2, h3, h4) =
              bind-eq-ok
                (wrapping "error turning interaction into cbor"
                  (lift (interaction_to_node codec i)))
                _ w1 (rw e at h2) in
            (
              v,
              w2,
              w1,
              h1 ∙ ap (λ (o : Option Interaction). (ok o, w1)) (is_some-none resp e),
              ap (λ (q : Res Value × W). q.0)
                  (wrapping-eq-ok _ (lift (interaction_to_node codec i)) w1 h3),
              h4,
            )
      ]

  -- Under the laws of the encoding and of the tree, an interaction that was added under a command
  -- that is a path segment is found under that command in the later tree.
  pub get-add_interaction :
      (t t' : T) (i : Interaction) (w w' u : W)
      → are_segments ("interactions" ∷ get_command i ∷ []) ≡ true
      → add_interaction_to_tree codec trees t i w ≡ (ok t', w')
      → get_interaction_from_tree codec trees t' (get_command i) u ≡ (ok (some i), u)
  get-add_interaction t t' i w w' u s h =
      let path = "interactions" ∷ get_command i ∷ [] in
      let (v, x, x', n, e, h') = added t t' i w w' h in
      let (a, c) = laws.update_content t t' path path v x w' h' s refl in
      get_interaction-eq t' (get_command i) u a
      ∙ ap (λ x. (stored_interaction codec trees x, u))
          (ap (walk path) c ∙ walk-put_at path v (content t))
      ∙ ap (λ (r : Res (Option Interaction)). (r, u))
          (stored_node v i (stored-roundtrip codec codec_laws i v e))

  -- Under the laws of the encoding and of the tree, a successful addition under a command that is a
  -- path segment leaves the interactions under all other commands of a tree at hand as they were.
  pub get-add_interaction_other :
      (t t' : T) (i : Interaction) (command : String) (w w' u : W)
      → at_hand t ≡ true
      → are_segments ("interactions" ∷ get_command i ∷ []) ≡ true
      → (get_command i == command) ≡ false
      → add_interaction_to_tree codec trees t i w ≡ (ok t', w')
      → get_interaction_from_tree codec trees t' command u
        ≡ get_interaction_from_tree codec trees t command u
  get-add_interaction_other t t' i command w w' u hand s ne h =
      let path = "interactions" ∷ get_command i ∷ [] in
      let (v, x, x', n, e, h') = added t t' i w w' h in
      let (a, c) = laws.update_content t t' path path v x w' h' s refl in
      get_interaction-eq t' command u a
      ∙ ap (λ x. (stored_interaction codec trees x, u))
          (ap (walk ("interactions" ∷ command ∷ [])) c
            ∙ walk-put_at-diverges path ("interactions" ∷ command ∷ []) v (content t) (rw ne refl))
      ∙ sym (get_interaction-eq t command u hand)

  -- Under the laws of the encoding and of the tree, after a successful addition under a command
  -- that is a path segment, adding any interaction with the same command to the later tree is
  -- refused and changes nothing.
  pub add_interaction_twice :
      (t t' : T) (i j : Interaction) (w w' u : W)
      → are_segments ("interactions" ∷ get_command i ∷ []) ≡ true
      → get_command j ≡ get_command i
      → add_interaction_to_tree codec trees t i w ≡ (ok t', w')
      → add_interaction_to_tree codec trees t' j u ≡ (err (message "interaction already exists"), u)
  unfolding add_interaction_to_tree
  add_interaction_twice t t' i j w w' u s same h = rw (same, get-add_interaction t t' i w w' u s h)

  -- Under the laws of the encoding and of the tree, an interaction whose command is two path
  -- segments joined by a slash is not found under its command after a successful addition to a tree
  -- at hand.
  pub get-add_interaction_slash :
      (t t' : T) (i : Interaction) (a b : String) (w w' u : W)
      → at_hand t ≡ true
      → get_command i ≡ a <> "/" <> b
      → are_segments ("interactions" ∷ a ∷ b ∷ []) ≡ true
      → add_interaction_to_tree codec trees t i w ≡ (ok t', w')
      → get_interaction_from_tree codec trees t' (get_command i) u ≡ (ok none, u)
  get-add_interaction_slash t t' i a b w w' u hand parts s h =
      let path = "interactions" ∷ get_command i ∷ [] in
      let (v, x, x', n, e, h') = added t t' i w w' h in
      let (at, c) =
        laws.update_content t t' path ("interactions" ∷ a ∷ b ∷ []) v x w' h' s
          (ap (λ (c : String). join ("jasons-game" ∷ "interactions" ∷ c ∷ [])) parts) in
      get_interaction-eq t' (get_command i) u at
      ∙ ap (λ x. (stored_interaction codec trees x, u))
          (ap (walk path) c
            ∙ walk-put_at-diverges ("interactions" ∷ a ∷ b ∷ []) path v (content t)
                (rw (first_ne a b (get_command i) parts (segment a b s)) refl))
      ∙ ap (λ (r : Res (Option Interaction)). (r, u))
          (ap (λ (q : Res (Option Interaction) × W). q.0)
            (sym (get_interaction-eq t (get_command i) w hand) ∙ n))

  -- What an addition changes in the content, read elsewhere.
  pub add_interaction-elsewhere :
      (t t' : T) (i : Interaction) (k : String) (w w' : W)
      → are_segments ("interactions" ∷ get_command i ∷ []) ≡ true
      → ("interactions" == k) ≡ false
      → add_interaction_to_tree codec trees t i w ≡ (ok t', w')
      → (at_hand t' ≡ true) × (walk (k ∷ []) (content t') ≡ walk (k ∷ []) (content t))
  add_interaction-elsewhere t t' i k w w' s ne h =
      let path = "interactions" ∷ get_command i ∷ [] in
      let (v, x, x', n, e, h') = added t t' i w w' h in
      let (a, c) = laws.update_content t t' path path v x w' h' s refl in
      (a, ap (walk (k ∷ [])) c ∙ walk-put_at-diverges path (k ∷ []) v (content t) (rw ne refl))

  -- The update by which an addition ends.
  pub add_interaction-updates :
      (t t' : T) (i : Interaction) (w w' : W)
      → add_interaction_to_tree codec trees t i w ≡ (ok t', w')
      → (v : Value) × (u : W) × (update_path t ("interactions" ∷ get_command i ∷ []) v u
          ≡ (ok t', w'))
  add_interaction-updates t t' i w w' h =
      let (v, x, x', n, e, h') = added t t' i w w' h in (v, x, h')
