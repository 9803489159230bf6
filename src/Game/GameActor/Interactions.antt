-- ===== src/Game/GameActor/Interactions.antt =====
-- game/game.go: handleInteractionInput. Interactions that hold others are run with fuel, and `none`
-- means that it ran out, or that the event of a pick-up is waited for for ever. More fuel than the
-- length of their bytes is enough, since they hold the others.
pub mod Terminates
use Prim.Native.String
use jasons_game.Base.{ℕ, zero, suc, String, Bool, true, false, Option, some, none, List, [], ◌∷◌}
use jasons_game.Network.{
  Res, ok, err, panic, Error, message, M, panics, pure, fail, lift, ◌>>=◌, Network,
}
use jasons_game.Game.Interactions.{
  Codec, Interaction, respond, change_location, change_named_location, pick_up_object, drop_object,
  create_object, get_tree_value, set_tree_value, chained, cipher, build_portal_interaction,
  delete_portal_interaction, look_around_interaction,
}
use jasons_game.Game.Interactions.Sealed.{Sealing, interactions, unseal}
use jasons_game.Game.GameActor.{Session, Surroundings}
use jasons_game.Game.GameActor.Messages.{say}
use jasons_game.Game.GameActor.Places.{
  Shown, handle_build_portal, handle_delete_portal, handle_change_location,
  handle_change_named_location, handle_set_tree_value, handle_get_tree_value,
  handle_location_inventory_list,
}
use jasons_game.Game.GameActor.Inventories.{handle_drop_object, handle_create_object_request}
use jasons_game.Game.GameActor.Waiting.{handle_pick_up_object}

module _ (net : Network) (O : Type 0) (around : Surroundings (net.World × O)) (codec : Codec)
    (sealing : Sealing) (format : Shown) where
  -- an action with fuel
  abbrev pub Fueled : Type 0
  Fueled = Session net O → Option (Res (Unit {0}) × Session net O)

  abbrev pub at_once : M (Session net O) (Unit {0}) → Fueled
  at_once m s = some (m s)

  -- the loop over chained interactions, up to the first error
  abbrev pub after_one :
      Fueled → Res (Unit {0}) × Session net O → Option (Res (Unit {0}) × Session net O)
  after_one rest (ok _, s) = rest s
  after_one rest (err e, s) = some (err e, s)
  after_one rest (panic, s) = some (panic, s)

  unfoldable pub run_each : (Interaction → Fueled) → List Interaction → Fueled
  run_each f [] s = some (ok tt, s)
  run_each f (i ∷ is) s =
      let rest = run_each f is in elim (f i s) [ none ↦ none | some q ↦ after_one rest q ]

  unfoldable pub run_chained : (Interaction → Fueled) → Res (List Interaction) → Fueled
  unfolding run_each
  run_chained f (ok is) = run_each f is
  run_chained f (err e) = at_once (fail e)
  run_chained f panic = at_once panics

  unfoldable pub run_unsealed : (Interaction → Fueled) → Res (Interaction × Bool) → Fueled
  run_unsealed f (ok (i, _)) = f i
  run_unsealed f (err e) = at_once (fail e)
  run_unsealed f panic = at_once panics

  -- `did` is that of the command; the commands that are made for held interactions have none
  unfoldable pub handle_interaction : ℕ → String → String → Interaction → Fueled
  unfolding run_chained run_unsealed
  handle_interaction zero did args i = λ s. none
  handle_interaction (suc f) did args (respond _ response _) = at_once (say net O response)
  handle_interaction (suc f) did args build_portal_interaction =
      at_once (handle_build_portal net O around args)
  handle_interaction (suc f) did args delete_portal_interaction =
      at_once (handle_delete_portal net O around)
  handle_interaction (suc f) did args (change_location _ to _) =
      at_once (handle_change_location net O around to)
  handle_interaction (suc f) did args (change_named_location _ name _) =
      at_once (handle_change_named_location net O around name)
  handle_interaction (suc f) did args (drop_object _ object_did _) =
      at_once (handle_drop_object net O around did object_did)
  handle_interaction (suc f) did args (pick_up_object _ object_did _) =
      handle_pick_up_object net O around object_did
  handle_interaction (suc f) did args (get_tree_value _ tree_did path _) =
      at_once (handle_get_tree_value net O around format tree_did path)
  handle_interaction (suc f) did args (set_tree_value _ tree_did path multiple _) =
      at_once (handle_set_tree_value net O around multiple tree_did path args)
  handle_interaction (suc f) did args look_around_interaction =
      at_once (handle_location_inventory_list net O around)
  handle_interaction (suc f) did args (create_object _ name description _ with_inscriptions) =
      at_once (
        handle_create_object_request net O around (record {
          name = name;
          description = description;
          with_inscriptions = with_inscriptions;
        }))
  handle_interaction (suc f) did args (cipher _ sealed_bytes failure_bytes _) =
      run_unsealed (handle_interaction f "" args)
        (unseal codec sealing sealed_bytes failure_bytes args)
  handle_interaction (suc f) did args (chained _ bytes _) =
      run_chained (handle_interaction f "" args) (interactions codec bytes)
