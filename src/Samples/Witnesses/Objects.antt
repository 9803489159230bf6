-- ===== src/Samples/Witnesses/Objects.antt =====
-- Objects and the interactions that trees keep.
use jasons_game.Game.Interactions.Tree.{listed}
use mathlib.Core.List.{Memᴰ}
use jasons_game.Game.Interactions.Tree.{interactions_list_from_tree}
use jasons_game.Game.Interactions.Tree.Listed.{list_holds_all}
use jasons_game.Base.{Option, List}
use jasons_game.Game.Interactions.Values.{write_value}
use jasons_game.Game.Interactions.Values.{value_to_set}
use jasons_game.Game.Interactions.Values.{set_value}
use jasons_game.Game.Interactions.Values.Written.{Wrote, set_value-Wrote}
use jasons_game.Samples.Scenes.{sword}
use jasons_game.Game.ObjectTree.{update_path}
use jasons_game.Base.{◌<>◌, ◌==◌, ◌≡◌, refl, true, false, none, some, [], ◌∷◌}
use jasons_game.Network.{are_segments, Res, ok, null}
use jasons_game.Game.Interactions.{
  Interaction, respond, interaction_to_node, interaction_from_value, get_command,
}
use jasons_game.Game.Interactions.Tree.{
  UpdatableTree, UpdatableLaws, get_interaction_from_tree, add_interaction_to_tree,
}
use jasons_game.Game.Interactions.Tree.Kept.{
  get-add_interaction, get-add_interaction_other, get-add_interaction_slash,
}
use jasons_game.Game.TreePaths.{paths_of, paths-UpdatableLaws, update_path_of}
use jasons_game.Game.ObjectTree.{ObjectTree, must_id_of, create_object_on_tree}
use jasons_game.Game.ObjectTree.Created.{Created, create_object_on_tree-Created}
use jasons_game.Samples.Chain.{SampleTree, Store, sample, sample_laws}
use jasons_game.Samples.Codecs.{stored_codec, stored_codec_laws}
use jasons_game.Samples.Scenes.{or_else, tree_of, store}

abbrev blank : ObjectTree sample
blank = some (tree_of "did:sword" ("me" ∷ []) null)

abbrev left : Res (ObjectTree sample) × Store → ObjectTree sample
left r = or_else r.0 blank

abbrev paths : UpdatableTree Store (ObjectTree sample)
paths = paths_of sample "error resolving on object"

abbrev laws : UpdatableLaws paths
laws = paths-UpdatableLaws sample sample_laws "error resolving on object"

abbrev wave : Interaction
wave = respond "wave" "you wave" false

abbrev waved : Res (ObjectTree sample) × Store
waved = add_interaction_to_tree stored_codec paths blank wave store

ran_waved : add_interaction_to_tree stored_codec paths blank wave store ≡ (ok (left waved), waved.1)
unfolding add_interaction_to_tree get_interaction_from_tree paths_of interaction_to_node
ran_waved = refl

segments_wave : are_segments ("interactions" ∷ get_command wave ∷ []) ≡ true
unfolding get_command
segments_wave = refl

get-add_interaction_example :
    get_interaction_from_tree stored_codec paths (left waved) (get_command wave) store
    ≡ (ok (some wave), store)
get-add_interaction_example =
    get-add_interaction stored_codec stored_codec_laws paths laws blank (left waved) wave store
      waved.1 store segments_wave ran_waved

blank_at_hand : laws.at_hand blank ≡ true
unfolding paths-UpdatableLaws sample_laws
blank_at_hand = refl

other_command : (get_command wave == "bow") ≡ false
unfolding get_command
other_command = refl

get-add_interaction_other_example :
    get_interaction_from_tree stored_codec paths (left waved) "bow" store
    ≡ get_interaction_from_tree stored_codec paths blank "bow" store
get-add_interaction_other_example =
    get-add_interaction_other stored_codec stored_codec_laws paths laws blank (left waved) wave
      "bow" store waved.1 store blank_at_hand segments_wave other_command ran_waved

abbrev either : Interaction
either = respond "yes/no" "make up your mind" false

abbrev slashed : Res (ObjectTree sample) × Store
slashed = add_interaction_to_tree stored_codec paths blank either store

ran_slashed :
    add_interaction_to_tree stored_codec paths blank either store ≡ (ok (left slashed), slashed.1)
unfolding add_interaction_to_tree get_interaction_from_tree paths_of interaction_to_node
ran_slashed = refl

yes_no : get_command either ≡ "yes" <> "/" <> "no"
unfolding get_command
yes_no = refl

get-add_interaction_slash_example :
    get_interaction_from_tree stored_codec paths (left slashed) (get_command either) store
    ≡ (ok none, store)
get-add_interaction_slash_example =
    get-add_interaction_slash stored_codec stored_codec_laws paths laws blank (left slashed) either
      "yes" "no" store slashed.1 store blank_at_hand yes_no refl ran_slashed

abbrev made : Res (ObjectTree sample) × Store
made = create_object_on_tree sample stored_codec "sword" blank store

ran_made : create_object_on_tree sample stored_codec "sword" blank store ≡ (ok (left made), made.1)
unfolding create_object_on_tree update_path update_path_of must_id_of add_interaction_to_tree
    get_interaction_from_tree paths_of interaction_to_node get_command
ran_made = refl

blank_id : must_id_of sample blank store ≡ (ok "did:sword", store)
unfolding must_id_of
blank_id = refl

create_object_on_tree-Created_example :
    Created sample sample_laws stored_codec stored_codec_laws (left made) "sword" "did:sword" store
create_object_on_tree-Created_example =
    create_object_on_tree-Created sample sample_laws stored_codec stored_codec_laws "sword"
      "did:sword" blank (left made) store made.1 store store refl blank_id ran_made

ran_node :
    interaction_to_node stored_codec wave
    ≡ ok (or_else (interaction_to_node stored_codec wave) null)
unfolding interaction_to_node
ran_node = refl

-- Appending where nothing stands.
abbrev inscribed : Res SampleTree × Store
inscribed = set_value sample true "marks" sword "of doom" store

ran_inscribed :
    set_value sample true "marks" sword "of doom" store
    ≡ (ok (or_else inscribed.0 sword), inscribed.1)
unfolding set_value value_to_set write_value
ran_inscribed = refl

set_value-Wrote_example :
    Wrote sample sample_laws true
      ("marks" ∷ [])
      "of doom"
      sword
      (or_else inscribed.0 sword)
      store
      inscribed.1
unfolding sample_laws
set_value-Wrote_example =
    set_value-Wrote sample sample_laws true sword (or_else inscribed.0 sword) "marks" [] "of doom"
      store inscribed.1 refl refl ran_inscribed

waved_at_hand : laws.at_hand (left waved) ≡ true
unfolding paths-UpdatableLaws add_interaction_to_tree get_interaction_from_tree interaction_to_node
    sample_laws
waved_at_hand = refl

ran_found :
    get_interaction_from_tree stored_codec paths (left waved) "wave" store ≡ (ok (some wave), store)
unfolding get_interaction_from_tree paths_of add_interaction_to_tree interaction_to_node get_command
    interaction_from_value
ran_found = refl

abbrev all_of : Res (List (Option Interaction)) × Store
all_of = interactions_list_from_tree stored_codec paths (left waved) store

ran_list :
    interactions_list_from_tree stored_codec paths (left waved) store
    ≡ (ok (or_else all_of.0 []), all_of.1)
unfolding interactions_list_from_tree paths_of add_interaction_to_tree get_interaction_from_tree
    interaction_to_node get_command listed interaction_from_value
ran_list = refl

list_holds_all_example : Memᴰ (some wave) (or_else all_of.0 [])
list_holds_all_example =
    list_holds_all stored_codec stored_codec_laws paths laws (left waved) "wave" wave
      (or_else all_of.0 []) store all_of.1 waved_at_hand ran_found ran_list
