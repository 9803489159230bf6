-- ===== src/Samples/Witnesses/Prizes.antt =====
-- The prize of a court: a request for what lies at its location.
use jasons_game.Handlers.Broadcast.{new_topic_broadcast_handler}
use jasons_game.Trees.Inventory.{name_of}
use jasons_game.Trees.Inventory.{add_named}
use jasons_game.Trees.Inventory.{add}
use jasons_game.Trees.Inventory.{update_objects}
use jasons_game.Trees.Inventory.{remove}
use jasons_game.Trees.Inventory.{all}
use jasons_game.Trees.Inventory.{exists}
use jasons_game.Trees.Inventory.{find_inventory_tree}
use jasons_game.Trees.Inventory.{new_inventory_tree}
use jasons_game.Trees.Inventory.{did_for_name}
use jasons_game.Courts.Autumn.PickUp.{replaced}
use jasons_game.Handlers.Remote.{find_handler_for_tree}
use jasons_game.Courts.Court.Prize.{on_world}
use jasons_game.Base.{String, ◌≡◌, refl, Option, some, none, [], ◌∷◌}
use jasons_game.Network.{Res, ok, text, field, end, RequestObjectTransfer}
use jasons_game.Importer.Trees.{ImportObject}
use jasons_game.Courts.Court.Prize.{PrizeConfig, PrizeHandler, Kept}
use jasons_game.Courts.Court.Prize.Transfer.{handle_transfer}
use jasons_game.Courts.Court.Prize.Granted.{Granted, handle_transfer-Granted}
use jasons_game.Samples.Chain.{Store, SampleTree, sample}
use jasons_game.Samples.Scenes.{tree_of, called, holding}

abbrev called_prize : String → ImportObject
called_prize name = record { attributes = some (field "name" (text name) end); interactions = [] }

abbrev config : PrizeConfig
config = record {
  location = "did:court";
  spawn = called_prize "crown";
  prize = called_prize "won crown";
}

abbrev handler : PrizeHandler sample
handler = record {
  prize_cfg = config;
  parse_config = λ did w. (ok config, w);
  update_object = λ did o w. (ok tt, w);
  validator_func = none;
  cleanup_func = none;
}

abbrev realm : Store
realm = record {
  trees =
      ("did:court", tree_of "did:court" ("court" ∷ []) (holding (("crown", "did:crown") ∷ [])))
      ∷ ("did:crown", tree_of "did:crown" ("court" ∷ []) (called "crown"))
      ∷ ("did:you", tree_of "did:you" ("you" ∷ []) (holding []))
      ∷ [];
  sent = [];
  created = 0;
}

abbrev asked : RequestObjectTransfer
asked = record { from = "did:court"; to = "did:you"; object_did = "did:crown" }

abbrev ledger : Option SampleTree
ledger = some (tree_of "did:ledger" ("court" ∷ []) (called "ledger"))

abbrev given_away : Res (Unit {0}) × Kept sample
given_away = handle_transfer sample handler asked (realm, ledger)

ran_given : handle_transfer sample handler asked (realm, ledger) ≡ (ok tt, given_away.1)
unfolding handle_transfer on_world find_handler_for_tree replaced did_for_name new_inventory_tree
    find_inventory_tree exists all remove update_objects add add_named name_of
    new_topic_broadcast_handler
ran_given = refl

handle_transfer-Granted_example : Granted sample handler asked realm
handle_transfer-Granted_example =
    handle_transfer-Granted sample handler asked realm ledger given_away.1 ran_given
