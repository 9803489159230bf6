-- ===== src/Game/Interactions/Tree/Listed.antt =====
-- The list of the interactions of a tree misses none.
use jasons_game.Base.{
  String, ◌≡◌, refl, sym, ◌∙◌, ap, subst, true, false, Option, some, List, [], ◌∷◌, map,
  String-cases, inl, inr,
}
use mathlib.Core.List.{Memᴰ}
use jasons_game.Network.{
  Value, null, text, bool, number, list, object, link, Fields, end, field, entries, field_or_null,
  Res, ok, walk, walk-append, bind-eq-ok, ok-eq-ok,
}
use jasons_game.Game.Interactions.Types.{Interaction}
use jasons_game.Game.Interactions.Encoding.{Codec, CodecLaws}
use jasons_game.Game.Interactions.Tree.{
  UpdatableTree, UpdatableLaws, is_nil, stored_interaction, get_interaction_from_tree, listed,
  interactions_list_from_tree,
}
use jasons_game.Game.Interactions.Tree.Kept.{get_interaction-eq}

keys_of-Mem :
    (command : String) (m : Fields)
    → is_nil (field_or_null command m) ≡ false
    → Memᴰ command (map (λ p. p.0) (entries m))
keys_of-Mem command end h = cc
keys_of-Mem command (field k v m) h = elim (String-cases k command) [
  | inl e ↦ Memᴰ.head (sym e)
  | inr e ↦ Memᴰ.tail (keys_of-Mem command m (rw e at h))
]

module _ (codec : Codec) (codec_laws : CodecLaws codec) {W T : Type 0} (trees : UpdatableTree W T)
    (laws : UpdatableLaws trees) where
  open laws use {at_hand, content}

  not_nil :
      (v : Value) {i : Interaction}
      → stored_interaction codec trees v ≡ ok (some i)
      → is_nil v ≡ false
  not_nil null h = cc
  not_nil (text x) h = refl
  not_nil (bool x) h = refl
  not_nil (number x) h = refl
  not_nil (list x) h = refl
  not_nil (object x) h = refl
  not_nil (link x) h = refl

  listed-Mem :
      (t : T) (commands : List String) (command : String) (o : Option Interaction)
      (l : List (Option Interaction)) (w w' : W)
      → ((v : W) → get_interaction_from_tree codec trees t command v ≡ (ok o, v))
      → Memᴰ command commands
      → listed codec trees t commands w ≡ (ok l, w')
      → Memᴰ o l
  unfolding listed
  listed-Mem t (c ∷ rest) command o l w w' g m h =
      let (o', w1, h1, h2) = bind-eq-ok (get_interaction_from_tree codec trees t c) _ w h in
      let (is, w3, h3, h4) = bind-eq-ok (listed codec trees t rest) _ w1 h2 in
      elim m [
        | Memᴰ.head e ↦
            subst (λ x. Memᴰ o x) (ok-eq-ok h4).0
              (Memᴰ.head
                (ok-eq-ok
                  (sym (g w) ∙ ap (λ x. get_interaction_from_tree codec trees t x w) e ∙ h1)).0)
        | Memᴰ.tail m' ↦
            subst (λ x. Memᴰ o x) (ok-eq-ok h4).0
              (Memᴰ.tail (listed-Mem t rest command o is w1 w3 g m' h3))
      ]
  listed-Mem t [] command o l w w' g m h = elim m [ ]

  -- Under the laws of the encoding and of the tree, if the list of the interactions of a tree at
  -- hand is returned, every interaction that is found under a command is in it.
  pub list_holds_all :
      (t : T) (command : String) (i : Interaction) (l : List (Option Interaction)) (w w' : W)
      → at_hand t ≡ true
      → get_interaction_from_tree codec trees t command w ≡ (ok (some i), w)
      → interactions_list_from_tree codec trees t w ≡ (ok l, w')
      → Memᴰ (some i) l
  unfolding interactions_list_from_tree
  list_holds_all t command i l w w' a g h = go (walk ("interactions" ∷ []) (content t)) refl
    where
      found :
          (v : Value)
          → walk ("interactions" ∷ []) (content t) ≡ v
          → stored_interaction codec trees (walk (command ∷ []) v) ≡ ok (some i)
      found v e =
          ap (λ (q : Res (Option Interaction) × W). q.0)
            (ap (λ x. (stored_interaction codec trees x, w))
                (ap (walk (command ∷ [])) (sym e)
                  ∙ sym (walk-append ("interactions" ∷ []) (command ∷ []) (content t)))
              ∙ sym (get_interaction-eq codec codec_laws trees laws t command w a)
              ∙ g)

      everywhere : (v : W) → get_interaction_from_tree codec trees t command v ≡ (ok (some i), v)
      everywhere v =
          get_interaction-eq codec codec_laws trees laws t command v a
          ∙ ap (λ (r : Res (Option Interaction)). (r, v))
              (ap (λ (q : Res (Option Interaction) × W). q.0)
                (sym (get_interaction-eq codec codec_laws trees laws t command w a) ∙ g))

      go : (v : Value) → walk ("interactions" ∷ []) (content t) ≡ v → Memᴰ (some i) l
      go (object m) e =
          listed-Mem t (map (λ p. p.0) (entries m)) command (some i) l w w' everywhere
            (keys_of-Mem command m (not_nil (field_or_null command m) (found (object m) e)))
            (rw (laws.get_content t ("interactions" ∷ []) a ∙ ap ok e) at h)
      go null e = absurd (let f = found null e in cc)
      go (text x) e = absurd (let f = found (text x) e in cc)
      go (bool x) e = absurd (let f = found (bool x) e in cc)
      go (number x) e = absurd (let f = found (number x) e in cc)
      go (list x) e = absurd (let f = found (list x) e in cc)
      go (link x) e = absurd (let f = found (link x) e in cc)
