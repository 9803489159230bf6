-- ===== src/Game/GameActor/Interactions/Terminates.antt =====
-- game/game.go: handleInteractionInput comes to an end, with more fuel than the interaction's bytes, if
-- the events come that are waited for.
use jasons_game.Base.{
  ℕ, zero, suc, ◌<◌, ◌≤◌, String, ◌≡◌, refl, Bool, Option, some, List, [], ◌∷◌, All, arith,
}
use jasons_game.Network.{Res, ok, err, panic, Network}
use jasons_game.Game.Interactions.{
  Codec, Interaction, respond, change_location, change_named_location, pick_up_object, drop_object,
  create_object, get_tree_value, set_tree_value, chained, cipher, build_portal_interaction,
  delete_portal_interaction, look_around_interaction,
}
use jasons_game.Game.Interactions.Sealed.{Sealing, interactions, unseal}
use jasons_game.Game.Interactions.Sealed.Sizes.{held_size, bytes_of_all, SizeLaws}
use jasons_game.Game.Interactions.Sealed.Unsealed.{interactions-held_size, unseal-held_size}
use jasons_game.Game.GameActor.{Session, Surroundings}
use jasons_game.Game.GameActor.Steps.Waited.{EventsCome, handle_pick_up_object-Waited}
use jasons_game.Game.GameActor.Places.{Shown}
use jasons_game.Game.GameActor.Interactions.{
  Fueled, after_one, run_each, run_chained, run_unsealed, handle_interaction,
}

module _ (net : Network) (O : Type 0) (around : Surroundings (net.World × O)) (codec : Codec)
    (sealing : Sealing) (format : Shown) where
  -- The fuel did not run out, and no event was waited for in vain.
  abbrev pub Returns : Option (Res (Unit {0}) × Session net O) → Type 0
  Returns o = (q : Res (Unit {0}) × Session net O) × (o ≡ some q)

  abbrev F : Type 0
  F = Fueled net O around codec sealing format

  after_one-Returns :
      (rest : F) (q : Res (Unit {0}) × Session net O)
      → ((s : Session net O) → Returns (rest s))
      → Returns (after_one net O around codec sealing format rest q)
  after_one-Returns rest (ok _, s) h = h s
  after_one-Returns rest (err e, s) h = ((err e, s), refl)
  after_one-Returns rest (panic, s) h = ((panic, s), refl)

  run_each-Returns :
      (f : Interaction → F) (is : List Interaction)
      → All (λ i. (s : Session net O) → Returns (f i s)) is
      → (s : Session net O) → Returns (run_each net O around codec sealing format f is s)
  unfolding run_each
  run_each-Returns f [] hs s = ((ok tt, s), refl)
  run_each-Returns f (i ∷ is) (h, hs) s =
      let (q, e) = h s in
      rw (e, run_each)
        (after_one-Returns (run_each net O around codec sealing format f is) q
          (run_each-Returns f is hs))

  run_chained-Returns :
      (f : Interaction → F) (r : Res (List Interaction))
      → ((is : List Interaction) → r ≡ ok is → All (λ i. (s : Session net O) → Returns (f i s)) is)
      → (s : Session net O) → Returns (run_chained net O around codec sealing format f r s)
  unfolding run_chained
  run_chained-Returns f (ok is) h s = run_each-Returns f is (h is refl) s
  run_chained-Returns f (err e) h s = (_, refl)
  run_chained-Returns f panic h s = (_, refl)

  run_unsealed-Returns :
      (f : Interaction → F) (r : Res (Interaction × Bool))
      → ((q : Interaction × Bool) → r ≡ ok q → (s : Session net O) → Returns (f (q.0) s))
      → (s : Session net O) → Returns (run_unsealed net O around codec sealing format f r s)
  unfolding run_unsealed
  run_unsealed-Returns f (ok (i, b)) h s = h (i, b) refl s
  run_unsealed-Returns f (err e) h s = (_, refl)
  run_unsealed-Returns f panic h s = (_, refl)

  module _ (laws : SizeLaws codec sealing) (come : EventsCome net O around) where
    -- What holds of all small interactions holds of all in a list of small ones.
    below-All :
        (P : Interaction → Type 0) (n m : ℕ)
        → ((i : Interaction) → held_size i < n → P i)
        → (is : List Interaction) → m ≤ n
        → All (λ i. held_size i < m) is
        → All P is
    below-All P n m h [] le hs = tt
    below-All P n m h (i ∷ is) le (small, hs) =
        (h i (omega (arith, le, small)), below-All P n m h is le hs)

    pub handle_interaction-Returns :
        (fuel : ℕ) (did args : String) (i : Interaction) (s : Session net O)
        → held_size i < fuel
        → Returns (handle_interaction net O around codec sealing format fuel did args i s)
    unfolding handle_interaction
    handle_interaction-Returns zero did args i s h = absurd (omega (arith, h))
    handle_interaction-Returns (suc n) did args (respond _ _ _) s h = (_, refl)
    handle_interaction-Returns (suc n) did args build_portal_interaction s h = (_, refl)
    handle_interaction-Returns (suc n) did args delete_portal_interaction s h = (_, refl)
    handle_interaction-Returns (suc n) did args (change_location _ _ _) s h = (_, refl)
    handle_interaction-Returns (suc n) did args (change_named_location _ _ _) s h = (_, refl)
    handle_interaction-Returns (suc n) did args (drop_object _ _ _) s h = (_, refl)
    handle_interaction-Returns (suc n) did args (pick_up_object _ object_did _) s h =
        (handle_pick_up_object-Waited net O around object_did).ends come s
    handle_interaction-Returns (suc n) did args (get_tree_value _ _ _ _) s h = (_, refl)
    handle_interaction-Returns (suc n) did args (set_tree_value _ _ _ _ _) s h = (_, refl)
    handle_interaction-Returns (suc n) did args look_around_interaction s h = (_, refl)
    handle_interaction-Returns (suc n) did args (create_object _ _ _ _ _) s h = (_, refl)
    handle_interaction-Returns (suc n) did args (cipher _ sealed_bytes failure_bytes _) s h =
        run_unsealed-Returns _ (unseal codec sealing sealed_bytes failure_bytes args)
          (λ q e t.
            let small = unseal-held_size codec sealing laws sealed_bytes failure_bytes args q e in
            handle_interaction-Returns n "" args (q.0) t (omega (arith, small, h)))
          s
    handle_interaction-Returns (suc n) did args (chained _ bytes _) s h =
        run_chained-Returns _ (interactions codec bytes)
          (λ is e.
            below-All _ n (bytes_of_all bytes)
              (λ i small t. handle_interaction-Returns n "" args i t small) is (omega (arith, h))
              (interactions-held_size codec sealing laws bytes is e))
          s
