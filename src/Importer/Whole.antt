-- ===== src/Importer/Whole.antt =====
-- importer/importer.go: an import, and the updates of single trees.

use Prim.Native.Char.{code}
use jasons_game.Base.{
  String, ◌<>◌, Option, some, none, List, [], ◌∷◌, insert, lookup, is_some, eqb, if◌then◌else◌,
}
use jasons_game.Network.{
  Value, text, field, Res, ok, panic, M, pure, lift, wrapping, ◌>>=◌, ◌>>◌, Network,
}
use jasons_game.Game.Static.{get_all_static}
use jasons_game.Game.Interactions.{Codec, Interaction}
use jasons_game.Importer.Convert.{ImportInteraction, given}
use jasons_game.Importer.Trees.{
  ImportLocation, ImportObject, fill_location, fill_object, update_tree_if_changed,
}

pub record NameToDids : Type 0 where
  pub locations : List (String × String)
  pub objects : List (String × String)
  pub static : List (String × String)

-- the entries are never nil
pub record ImportPayload : Type 0 where
  pub locations : List (String × ImportLocation)
  pub objects : List (String × ImportObject)

-- ids[name], the empty text where there is none
abbrev pub did_for : String → List (String × String) → String
did_for name ids = elim (lookup name ids) [ none ↦ "" | some did ↦ did ]

-- strings.ReplaceAll(name, "_", "-")
unfoldable pub hyphenated : String → String
hyphenated String.[] = ""
hyphenated (String.◌∷◌ c s) =
    let rest = hyphenated s in if eqb (code c) 95 then "-" <> rest else String.◌∷◌ c rest

-- an object without a name gets that of its file; a nil map takes no entry
unfoldable pub with_name : String → ImportObject → Res ImportObject
unfolding hyphenated
with_name name obj_data =
    if is_some (given "name" obj_data.attributes) then ok obj_data else elim (obj_data.attributes) [
      | none ↦ panic
      | some m ↦
          ok (record obj_data { attributes = some (field "name" (text (hyphenated name)) m) })
    ]

-- yaml, templates and sha256 are parameters: the hashes of what is imported, the payload with its
-- variables replaced, the casts of yaml.
pub record Formats : Type 0 where
  pub location_hash : ImportLocation → Res String
  pub object_hash : ImportObject → Res String
  pub replace_variables : ImportPayload → NameToDids → Res ImportPayload
  pub to_object : Value → Res ImportObject
  pub to_location : Value → Res ImportLocation

module _ (net : Network) (codec : Codec) (convert : Option ImportInteraction → Res Interaction)
    (formats : Formats) where
  open net use {World, must_id, find_or_create_passphrase_tree}
  open formats use {location_hash, object_hash, replace_variables, to_object, to_location}

  unfoldable pub create_each :
      {A : Type 0}
      → String
      → List (String × A)
      → List (String × String)
      → M World (List (String × String))
  create_each prefix [] ids = pure ids
  create_each prefix ((key, a) ∷ rest) ids = do
    tree ← find_or_create_passphrase_tree (prefix <> key)
    create_each prefix rest (insert key (must_id tree) ids)

  unfoldable pub create_trees : ImportPayload → M World NameToDids
  unfolding create_each
  create_trees payload = do
    static_vals ← get_all_static net
    locations ← create_each "locations/" payload.locations []
    objects ← create_each "objects/" payload.objects []
    pure (record { locations = locations; objects = objects; static = static_vals })

  unfoldable pub update_location : String → ImportLocation → M World (Unit {0})
  update_location did loc_data =
      update_tree_if_changed net did (location_hash loc_data)
        (fill_location net codec convert loc_data)

  unfoldable pub update_object : String → ImportObject → M World (Unit {0})
  update_object did obj_data =
      update_tree_if_changed net did (object_hash obj_data) (fill_object net codec convert obj_data)

  unfoldable pub load_locations : List (String × ImportLocation) → NameToDids → M World (Unit {0})
  unfolding update_location
  load_locations [] ids = pure tt
  load_locations ((name, loc_data) ∷ rest) ids = do
    update_location (did_for name ids.locations) loc_data
    load_locations rest ids

  unfoldable pub load_objects : List (String × ImportObject) → NameToDids → M World (Unit {0})
  unfolding update_object with_name
  load_objects [] ids = pure tt
  load_objects ((name, obj_data) ∷ rest) ids = do
    named ← lift (with_name name obj_data)
    update_object (did_for name ids.objects) named
    load_objects rest ids

  -- UpdateObject and UpdateLocation
  unfoldable pub cast_and_update_object : String → Value → M World (Unit {0})
  unfolding update_object
  cast_and_update_object did object_data = do
    import_object ← wrapping "error typecasting" (lift (to_object object_data))
    wrapping "error updating" (update_object did import_object)

  unfoldable pub cast_and_update_location : String → Value → M World (Unit {0})
  unfolding update_location
  cast_and_update_location did location_data = do
    import_location ← wrapping "error typecasting" (lift (to_location location_data))
    wrapping "error updating" (update_location did import_location)

  -- Import, once the files were read; the objects first, since inventories read their names
  unfoldable pub import_all : ImportPayload → M World NameToDids
  unfolding create_trees load_objects load_locations
  import_all payload = do
    ids ← create_trees payload
    replaced ← lift (replace_variables payload ids)
    load_objects replaced.objects ids
    load_locations replaced.locations ids
    pure ids
