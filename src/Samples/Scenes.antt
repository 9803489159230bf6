-- ===== src/Samples/Scenes.antt =====
-- The trees, the store and the handles on which the witnesses run.
use jasons_game.Base.{String, refl, false, some, List, [], ◌∷◌}
use jasons_game.Network.{
  Value, text, list, object, field, end, of_strings, of_texts, Res, ok, err, panic,
}
use jasons_game.Trees.Inventory.{InventoryTree}
use jasons_game.Trees.Inventory.Stored.{Stored, present}
use jasons_game.Samples.Chain.{SampleTree, Store, sample, sample_laws}

-- What an action returned, or what stands in for it.
abbrev pub or_else : {A : Type 0} → Res A → A → A
or_else (ok a) d = a
or_else (err _) d = d
or_else panic d = d

abbrev pub tree_of : String → List String → Value → SampleTree
tree_of id owners content = record {
  id = id;
  latest = record {
    version_tip = "tip";
    version_height = 0;
    owners = owners;
    content = content;
    sets_owner = false;
  };
  older = [];
}

abbrev pub holding : List (String × String) → Value
holding names =
    object (field "jasons-game" (object (field "inventory" (object (of_strings names)) end)) end)

abbrev pub called : String → Value
called name = object (field "jasons-game" (object (field "name" (text name) end)) end)

abbrev pub my_names : List (String × String)
my_names = ("sword", "did:sword") ∷ ("lamp", "did:lamp") ∷ []

abbrev pub my_tree : SampleTree
my_tree = tree_of "did:me" ("me" ∷ []) (holding my_names)

abbrev pub your_tree : SampleTree
your_tree = tree_of "did:you" ("you" ∷ []) (holding [])

abbrev pub sword : SampleTree
sword = tree_of "did:sword" ("me" ∷ []) (called "sword")

abbrev pub rope : SampleTree
rope = tree_of "did:rope" ("them" ∷ []) (called "rope")

-- a second lamp
abbrev pub second_lamp : SampleTree
second_lamp = tree_of "did:lamp2" ("me" ∷ []) (called "lamp")

abbrev pub shop_tree : SampleTree
shop_tree = tree_of "did:shop" ("shop" ∷ []) (
    object (
      field "jasons-game"
        (object (
          field "handler"
            (object
              (field "supports" (list (of_texts ("jasonsgame.TransferredObjectMessage" ∷ []))) end))
            end))
        end))

abbrev pub store : Store
store = record {
  trees =
      ("did:me", my_tree)
      ∷ ("did:you", your_tree)
      ∷ ("did:sword", sword)
      ∷ ("did:rope", rope)
      ∷ ("did:lamp2", second_lamp)
      ∷ ("did:shop", shop_tree)
      ∷ [];
  sent = [];
  created = 0;
}

abbrev pub inventory_of : SampleTree → InventoryTree SampleTree
inventory_of t = record { tree = some t }

pub mine-Stored : Stored sample sample_laws (inventory_of my_tree) my_names
unfolding sample_laws
mine-Stored = record {
  tree = my_tree;
  handle = refl;
  at_hand = refl;
  content = present refl;
  unique = (refl, (refl, tt));
}

pub yours-Stored : Stored sample sample_laws (inventory_of your_tree) []
unfolding sample_laws
yours-Stored = record {
  tree = your_tree;
  handle = refl;
  at_hand = refl;
  content = present refl;
  unique = tt;
}
