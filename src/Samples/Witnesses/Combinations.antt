-- ===== src/Samples/Witnesses/Combinations.antt =====
-- The combinations of elements.
use jasons_game.Base.{false, ◌≡◌, refl, some, List, [], ◌∷◌, ◌++◌}
use mathlib.Core.List.{Permᴰ}
use jasons_game.Courts.Autumn.Combinations.{ℤ, pos, ElementCombination, find, fill, key_from_slice}
use jasons_game.Courts.Autumn.Combinations.Found.{Others}
use jasons_game.Base.{◌<◌, ◌≤◌, length, arith}
use jasons_game.Network.{Res, ok, Value, object, field, text, end, RequestObjectTransfer}
use jasons_game.Courts.Autumn.Combinations.{negsuc}
use jasons_game.Courts.Autumn.Elements.{Element, name_of_element, element_name_to_id}
use jasons_game.Courts.Autumn.Elements.Names.{element_name_to_id-name}
use jasons_game.Courts.Autumn.Combiner.{
  ElementCombiner, put_elements, least_length, new_element_combiner, find_combined_element,
}
use jasons_game.Courts.Autumn.Combiner.Configured.{configured_is_found}
use jasons_game.Courts.Autumn.PickUp.{handle_pickup_element, new_response_sender}
use jasons_game.Courts.Autumn.PickUp.Earned.{Earned, handle_pickup_element-Earned}
use jasons_game.Samples.Chain.{SampleTree, Store, sample}
use jasons_game.Samples.Codecs.{stored_codec}
use jasons_game.Samples.Scenes.{tree_of, holding, your_tree}
use jasons_game.Courts.Autumn.PickUp.{
  chosen, answer, send_success, pick_up, find_bowl, replaced, logged, use_bowl, is_player, ids_of,
  combine_elements, found_or_not, give_element, make_element, take_away,
}
use jasons_game.Courts.Autumn.Combiner.{base_err, element_for, element_at, put_element}
use jasons_game.Courts.Autumn.Elements.{
  id_or_zero, parse_int, trim_prefix, parse_uint, digits_value, digit_value, bounded, as_positive,
  format_int, hex_digits,
}
use jasons_game.Handlers.Remote.{find_handler_for_tree, handler_named, did_of}
use jasons_game.Handlers.Broadcast.{new_topic_broadcast_handler}
use jasons_game.Trees.Inventory.{
  find_inventory_tree, new_inventory_tree, did_for_name, remove, broadcast_topic_for, all,
  objects_of, collect, update_objects, reverse_objects, decoded, text_or_empty,
}
use jasons_game.Game.ObjectTree.{
  find_object_tree, must_id_of, get_path, update_path, change_owner_of_object,
  create_object_on_tree,
}
use jasons_game.Game.TreePaths.{get_path_of, update_path_of, paths_of, resolved}
use jasons_game.Game.Interactions.Tree.{add_interaction_to_tree, get_interaction_from_tree}
use jasons_game.Game.Interactions.{
  interaction_to_node, get_command, interaction_from_value, interaction_from_stored_map,
}

abbrev making : List ℤ → ℤ → ElementCombination
making from to = record { from = from; to = to }

abbrev element_of : ℤ → Element
element_of id = record { id = id; description = "warm"; skip_origin_validation = false }

lt_300 : 299 < 9223372036854775808
lt_300 = omega arith

element_name_to_id-name_example :
    element_name_to_id (name_of_element (element_of (negsuc 299))) ≡ negsuc 299
element_name_to_id-name_example = element_name_to_id-name (element_of (negsuc 299)) lt_300

abbrev wizard : ElementCombiner
wizard = record {
  name = "wizard";
  elements = put_elements (element_of (pos 7) ∷ element_of (pos 200) ∷ []) [];
  combinations_map =
      fill ([] ++ making (pos 1 ∷ pos 2 ∷ []) (pos 200) ∷ making (pos 3 ∷ []) (pos 7) ∷ []) [];
  min_required = 1;
}

made_wizard :
    new_element_combiner (record {
      name = "wizard";
      elements = (element_of (pos 7) ∷ []) ++ element_of (pos 200) ∷ [];
      combinations = [] ++ making (pos 1 ∷ pos 2 ∷ []) (pos 200) ∷ making (pos 3 ∷ []) (pos 7) ∷ [];
    })
    ≡ ok wizard
unfolding new_element_combiner least_length
made_wizard = refl

later-Others : Others (pos 2 ∷ pos 1 ∷ []) (making (pos 3 ∷ []) (pos 7) ∷ [])
unfolding key_from_slice
later-Others = (refl, tt)

configured_is_found_example :
    (wizard.min_required ≤ length (pos 2 ∷ pos 1 ∷ []))
    × (find_combined_element wizard (pos 2 ∷ pos 1 ∷ []) ≡ some (element_of (pos 200)))
configured_is_found_example =
    configured_is_found "wizard" (element_of (pos 7) ∷ []) [] (element_of (pos 200)) []
      (making (pos 3 ∷ []) (pos 7) ∷ []) (making (pos 1 ∷ pos 2 ∷ []) (pos 200))
      (pos 2 ∷ pos 1 ∷ []) wizard made_wizard tt later-Others (Permᴰ.swap refl refl) refl

abbrev bowl_content : Value
bowl_content = object (field "element-1" (text "did:e1") (field "element-2" (text "did:e2") end))

abbrev bowl_tree : SampleTree
bowl_tree = tree_of "did:bowl" ("me" ∷ []) (
    object (
      field "jasons-game"
        (object (
          field "name" (text "bowl")
            (field "player" (text "did:you") (field "elements" bowl_content end))))
        end))

abbrev place : Store
place = record {
  trees =
      ("did:place", tree_of "did:place" ("me" ∷ []) (holding (("bowl", "did:bowl") ∷ [])))
      ∷ ("did:you", your_tree)
      ∷ ("did:bowl", bowl_tree)
      ∷ [];
  sent = [];
  created = 0;
}

abbrev wish : RequestObjectTransfer
wish = record { from = "did:place"; to = "did:you"; object_did = "did:bowl" }

abbrev granted : Res (Unit {0}) × Store
granted = handle_pickup_element sample stored_codec wizard wish place

was_granted : handle_pickup_element sample stored_codec wizard wish place ≡ (ok tt, granted.1)
unfolding handle_pickup_element new_response_sender chosen answer send_success pick_up find_bowl
    replaced logged use_bowl is_player ids_of combine_elements found_or_not give_element
    make_element take_away base_err find_combined_element element_for element_at put_elements
    put_element find fill key_from_slice element_name_to_id id_or_zero parse_int trim_prefix
    parse_uint digits_value digit_value bounded as_positive name_of_element format_int hex_digits
    find_handler_for_tree handler_named did_of new_topic_broadcast_handler find_inventory_tree
    new_inventory_tree did_for_name remove broadcast_topic_for all objects_of collect update_objects
    reverse_objects decoded text_or_empty find_object_tree must_id_of get_path update_path
    change_owner_of_object create_object_on_tree get_path_of update_path_of paths_of resolved
    add_interaction_to_tree get_interaction_from_tree interaction_to_node get_command
    interaction_from_value interaction_from_stored_map
was_granted = refl

handle_pickup_element-Earned_example : Earned sample stored_codec wizard wish place
handle_pickup_element-Earned_example =
    handle_pickup_element-Earned sample stored_codec wizard wish place granted.1 was_granted
