-- ===== src/Samples/Witnesses/Creations.antt =====
-- The creation of an object in an inventory.
use jasons_game.Base.{String, ◌≡◌, refl, true, false, is_some, lookup, ◌==◌, if◌then◌else◌, []}
use jasons_game.Trees.Inventory.{
  did_for_name, add, all, add_named, name_of, update_objects, collect, decoded, objects_of,
  reverse_objects, text_or_empty,
}
use jasons_game.Game.ObjectTree.{create_object_tree, create_object_on_tree, update_path, must_id_of}
use jasons_game.Game.TreePaths.{update_path_of, paths_of, get_path_of, resolved}
use jasons_game.Game.Interactions.Tree.{add_interaction_to_tree, get_interaction_from_tree}
use jasons_game.Game.Interactions.{
  interaction_to_node, get_command, interaction_from_value, interaction_from_stored_map,
}
use jasons_game.Network.{Res, ok, err, message}
use jasons_game.Trees.Inventory.{InventoryTree, exists}
use jasons_game.Trees.Inventory.Flip.{swapped}
use jasons_game.Game.InventoryActor.{
  InventoryActor, CreateObjectRequest, Response, respond_ok, respond_error, no_response,
  handle_create_object, furnished,
}
use jasons_game.Game.InventoryActor.Creations.{Fresh, created_is_held}
use jasons_game.Samples.Chain.{SampleTree, Store, sample, sample_laws}
use jasons_game.Samples.Codecs.{stored_codec, stored_codec_laws}
use jasons_game.Samples.Scenes.{or_else, inventory_of, my_tree, my_names, store, mine-Stored}

abbrev keeper : InventoryActor sample
keeper = record {
  did = "did:me";
  inventory = inventory_of my_tree;
  handler = record {
    handle = λ m w. (err (message "no"), w);
    supports = λ m. false;
    supported_messages = [];
  };
}

abbrev apple : CreateObjectRequest
apple = record { name = "apple"; description = "red"; with_inscriptions = false }

abbrev grown_tree : Response (String × InventoryTree SampleTree) → InventoryTree SampleTree
grown_tree (respond_ok (did, i)) = i
grown_tree (respond_error e) = inventory_of my_tree
grown_tree no_response = inventory_of my_tree

abbrev creation : Res (Response (String × InventoryTree SampleTree)) × Store
creation = handle_create_object sample stored_codec keeper apple store

abbrev with_apple : InventoryTree SampleTree
with_apple = grown_tree (or_else creation.0 no_response)

apple-Fresh : Fresh sample sample_laws stored_codec stored_codec_laws keeper apple my_names
apple-Fresh = record { readable = mine-Stored; plain_name = refl; no_empty_did = λ e. cc }

ran_creation :
    handle_create_object sample stored_codec keeper apple store
    ≡ (ok (respond_ok ("did:new", with_apple)), creation.1)
unfolding handle_create_object furnished did_for_name add all add_named name_of update_objects
    collect decoded objects_of reverse_objects text_or_empty create_object_tree
    create_object_on_tree update_path must_id_of update_path_of paths_of get_path_of resolved
    add_interaction_to_tree get_interaction_from_tree interaction_to_node get_command
    interaction_from_value interaction_from_stored_map
ran_creation = refl

created_is_held_example : exists sample with_apple "did:sword" store ≡ (
  ok (if "did:new" == "did:sword" then true else is_some (lookup "did:sword" (swapped my_names))),
  store,
)
created_is_held_example =
    created_is_held sample sample_laws stored_codec stored_codec_laws keeper apple my_names store
      creation.1 "did:new" with_apple apple-Fresh ran_creation "did:sword" store
