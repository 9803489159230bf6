-- ===== src/Samples/Witnesses/Places.antt =====
-- Locations: their portals and their handlers.
use jasons_game.Game.TreePaths.{update_path_of}
use jasons_game.Game.LocationTree.{update_path}
use jasons_game.Game.TreePaths.{get_path_of}
use jasons_game.Game.LocationTree.{get_path}
use jasons_game.Base.{String, ◌≡◌, refl, Option, none, some, [], ◌∷◌}
use jasons_game.Network.{Res, ok, null}
use jasons_game.Game.LocationTree.{LocationTree, State, get_portal, build_portal, set_handler}
use jasons_game.Game.LocationTree.Portals.{build, portal_after, run, portal_refines}
use jasons_game.Game.LocationTree.Handled.{Handled, set_handler-Handled}
use jasons_game.Samples.Chain.{Store, sample, sample_laws}
use jasons_game.Samples.Codecs.{sample_portals, sample_portals_laws}
use jasons_game.Samples.Scenes.{or_else, tree_of, store, shop_tree, my_tree}

abbrev meadow : LocationTree sample
meadow = some (tree_of "did:meadow" ("me" ∷ []) null)

abbrev built : Res (LocationTree sample) × Store
built = run sample sample_portals meadow (build "did:cave") store

no_portal : get_portal sample sample_portals meadow store ≡ (ok none, store)
unfolding get_portal get_path get_path_of
no_portal = refl

ran_built :
    run sample sample_portals meadow (build "did:cave") store
    ≡ (ok (or_else built.0 meadow), built.1)
unfolding run build_portal get_portal get_path get_path_of update_path update_path_of
ran_built = refl

portal_refines_example :
    (q : Option String) × (portal_after none (build "did:cave") ≡ some q)
    × (get_portal sample sample_portals (or_else built.0 meadow) store ≡ (ok q, store))
portal_refines_example =
    portal_refines sample sample_laws sample_portals sample_portals_laws meadow
      (or_else built.0 meadow) (build "did:cave") none store built.1 store no_portal ran_built

abbrev handled : Res (Unit {0}) × State sample
handled = set_handler sample "did:shop" (some my_tree, store)

ran_handled :
    set_handler sample "did:shop" (some my_tree, store) ≡ (ok tt, (handled.1.0, handled.1.1))
unfolding set_handler
ran_handled = refl

set_handler-Handled_example :
    Handled sample sample_laws my_tree shop_tree "did:shop" handled.1.0 handled.1.1
set_handler-Handled_example =
    set_handler-Handled sample sample_laws my_tree shop_tree "did:shop" store handled.1.1
      handled.1.0 refl ran_handled
