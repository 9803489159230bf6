-- ===== src/Samples/Witnesses/Inventories.antt =====
-- Inventories: additions, removals and collisions.
use jasons_game.Base.{◌≡◌, refl, Bool, true, false, not, some, is_some, lookup, ne_of_beq, [], ◌∷◌}
use jasons_game.Network.{Res, ok, err, message, wrap, RequestObjectTransfer}
use jasons_game.Trees.Inventory.{
  InventoryTree, exists, add, remove, all, decoded, collect, objects_of, add_named, name_of,
  update_objects, reverse_objects,
}
use jasons_game.Trees.Inventory.Contents.{exists-add, exists-remove}
use jasons_game.Trees.Inventory.Collision.{add_collides}
use jasons_game.Trees.Inventory.Flip.{swapped}
use jasons_game.Handlers.Inventory.Remove.{Plan, hand_over}
use jasons_game.Handlers.Inventory.Remove.Rollback.{
  put_back_restores, refused_transfer-Undone, Undone,
}
use jasons_game.Samples.Chain.{SampleTree, Store, sample, sample_laws}
use jasons_game.Samples.Scenes.{
  or_else, inventory_of, my_tree, my_names, store, sword, rope, second_lamp, mine-Stored,
}

abbrev mine : InventoryTree SampleTree
mine = inventory_of my_tree

-- what an action on the inventory leaves
abbrev left : Res (InventoryTree SampleTree) × Store → InventoryTree SampleTree
left r = or_else r.0 mine

abbrev roped : Res (InventoryTree SampleTree) × Store
roped = add sample mine "did:rope" store

ran_rope : add sample mine "did:rope" store ≡ (ok (left roped), roped.1)
unfolding add all decoded collect objects_of add_named name_of update_objects reverse_objects
ran_rope = refl

exists-add_example : exists sample (left roped) "did:sword" store ≡ (ok true, store)
unfolding reverse_objects
exists-add_example =
    exists-add sample sample_laws "did:rope" "rope" rope store refl refl mine (left roped) my_names
      "did:sword" roped.1 store mine-Stored refl ran_rope

abbrev swordless : Res (InventoryTree SampleTree) × Store
swordless = remove sample mine "did:sword" store

ran_remove : remove sample mine "did:sword" store ≡ (ok (left swordless), swordless.1)
unfolding remove all decoded collect objects_of update_objects reverse_objects
ran_remove = refl

exists-remove_example : exists sample (left swordless) "did:sword" store ≡ (ok false, store)
exists-remove_example =
    exists-remove sample sample_laws mine (left swordless) my_names "did:sword" "did:sword" store
      swordless.1 store mine-Stored ran_remove

abbrev lamps : Res (InventoryTree SampleTree) × Store
lamps = add sample mine "did:lamp2" store

ran_lamps : add sample mine "did:lamp2" store ≡ (ok (left lamps), lamps.1)
unfolding add all decoded collect objects_of add_named name_of update_objects reverse_objects
ran_lamps = refl

add_collides_example :
    (b : Bool) × (exists sample (left lamps) "did:lamp2" store ≡ (ok b, store))
    × (exists sample (left lamps) "did:lamp" store ≡ (ok (not b), store))
unfolding reverse_objects
add_collides_example =
    add_collides sample sample_laws "did:lamp2" "lamp" second_lamp store refl refl mine (left lamps)
      my_names "did:lamp" lamps.1 store mine-Stored refl refl refl ran_lamps

abbrev restored : Res (InventoryTree SampleTree) × Store
restored = add sample (left swordless) "did:sword" swordless.1

ran_restored :
    add sample (left swordless) "did:sword" swordless.1 ≡ (ok (left restored), restored.1)
unfolding remove add all decoded collect objects_of add_named name_of update_objects reverse_objects
ran_restored = refl

found_sword : sample.get_tree "did:sword" swordless.1 ≡ ok (some sword)
unfolding remove all decoded collect objects_of update_objects reverse_objects
found_sword = refl

put_back_restores_example :
    exists sample (left restored) "did:sword" store
    ≡ (ok (is_some (lookup "did:sword" (swapped my_names))), store)
unfolding reverse_objects
put_back_restores_example =
    put_back_restores sample sample_laws mine (left swordless) (left restored) my_names "did:sword"
      "sword" sword store swordless.1 swordless.1 restored.1 mine-Stored refl ran_remove found_sword
      refl ran_restored "did:sword" store

abbrev request : RequestObjectTransfer
request = record { from = "did:me"; to = "did:you"; object_did = "did:sword" }

-- the receiver says no
abbrev plan : Plan Store SampleTree
plan = record {
  source = mine;
  source_auths = "me" ∷ [];
  target_auths = "you" ∷ [];
  object_tree = some sword;
  target_handler = record {
    handle = λ m w. (err (message "no"), w);
    supports = λ m. true;
    supported_messages = [];
  };
}

abbrev shared : Res SampleTree × Store
shared = sample.change_chain_tree_owner sword ("me" ∷ "you" ∷ []) store

abbrev taken : Res (InventoryTree SampleTree) × Store
taken = remove sample mine "did:sword" shared.1

ran_taken : remove sample mine "did:sword" shared.1 ≡ (ok (left taken), taken.1)
unfolding remove all decoded collect objects_of update_objects reverse_objects
ran_taken = refl

abbrev back : Res SampleTree × Store
back = sample.change_chain_tree_owner (or_else shared.0 sword) ("me" ∷ []) taken.1

abbrev put : Res (InventoryTree SampleTree) × Store
put = add sample (left taken) "did:sword" back.1

ran_put : add sample (left taken) "did:sword" back.1 ≡ (ok (left put), put.1)
unfolding remove add all decoded collect objects_of add_named name_of update_objects reverse_objects
ran_put = refl

refused_transfer-Undone_example :
    (hand_over sample plan request store
      ≡ (err (wrap "error with target handler" (message "no")), put.1))
    × Undone sample sample_laws "did:sword" (sample.must_id my_tree) my_names ("me" ∷ []) put.1
unfolding reverse_objects
refused_transfer-Undone_example =
    refused_transfer-Undone sample sample_laws plan request my_names sword (or_else shared.0 sword)
      (or_else back.0 sword) my_tree (left taken) (left put) "sword" (message "no") store shared.1
      taken.1 taken.1 taken.1 back.1 put.1 refl mine-Stored refl refl refl (ne_of_beq _ _ refl) refl
      ran_taken refl refl refl refl ran_put
