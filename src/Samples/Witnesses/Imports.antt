-- ===== src/Samples/Witnesses/Imports.antt =====
-- Imports: one that is repeated, and the keys of data that are written.
use jasons_game.Importer.Flatmap.{keys}
use jasons_game.Trees.Ownership.{sort_strings}
use jasons_game.Importer.Flatmap.{flatten}
use mathlib.Core.List.{Memᴰ}
use jasons_game.Base.{◌≡◌, ◌↔◌, refl, false, some, [], ◌∷◌, lookup}
use jasons_game.Network.{Res, ok, err, message, text, field, end}
use jasons_game.Importer.Flatmap.{FlatMap}
use jasons_game.Importer.Trees.{ImportObject, plan, fill_object, update_tree_if_changed}
use jasons_game.Importer.Trees.Planned.{has_dot, plan-exactly}
use jasons_game.Importer.Trees.Unchanged.{update_tree-again}
use jasons_game.Samples.Chain.{Store, SampleTree, sample, sample_laws}
use jasons_game.Samples.Codecs.{stored_codec}
use jasons_game.Samples.Scenes.{store}

abbrev idol : ImportObject
idol = record { attributes = some (field "name" (text "idol") end); interactions = [] }

abbrev filled : SampleTree → Store → Res (Unit {0}) × Store
filled = fill_object sample stored_codec (λ i. err (message "no interactions")) idol

abbrev imported : Res (Unit {0}) × Store
imported = update_tree_if_changed sample "did:sword" (ok "0x1") filled store

ran_imported :
    update_tree_if_changed sample "did:sword" (ok "0x1") filled store ≡ (ok tt, imported.1)
unfolding update_tree_if_changed fill_object flatten sort_strings keys
ran_imported = refl

update_tree-again_example :
    update_tree_if_changed sample "did:sword" (ok "0x1") filled imported.1 ≡ (ok tt, imported.1)
update_tree-again_example =
    update_tree-again sample sample_laws "did:sword" "0x1" filled filled store imported.1
      ran_imported

-- a flat map with a dot in a key
abbrev flat : FlatMap
flat = ("name", "idol") ∷ ("made.of", "gold") ∷ []

made_of : lookup "made.of" flat ≡ some "gold"
made_of = refl

plan-exactly_example : Memᴰ ("made.of", "gold") (plan flat) ↔ (has_dot "made.of" ≡ false)
plan-exactly_example = plan-exactly "made.of" "gold" flat made_of
