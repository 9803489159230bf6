-- ===== src/Game/LocationActor/Requests.antt =====
-- game/location_actor.go: the requests that a location answers, and the notices that it takes. Where
-- `LocationTree.…` is called on the actor's handle, the handle that the call leaves is kept.
use jasons_game.Base.{
  String, Bool, true, false, not, Option, some, none, List, [], ◌∷◌, ◌++◌, map, ◌==◌, if◌then◌else◌,
}
use jasons_game.Network.{
  ok, err, panic, message, external, wrap, M, pure, reads, deref, ◌>>=◌, ◌>>◌, Network,
}
use jasons_game.Game.Interactions.{
  Codec, Interaction, set_tree_value, change_location, build_portal_interaction,
  delete_portal_interaction, look_around_interaction,
}
use jasons_game.Game.LocationTree.{
  LocationTree, PortalCodec, get_description, set_description, add_interaction, delete_portal,
  get_portal, build_portal, interactions_list, is_owned_by,
}
use jasons_game.Game.InventoryActor.{Response, respond_ok, respond_error, no_response, answering}
use jasons_game.Game.InventoryActor.Listing.{
  InteractionResponse, attach, list_inventory_interactions,
}
use jasons_game.Game.LocationActor.{LocationActor}
use jasons_game.Game.LocationActor.PlayerInventory.{must}

-- jasonsgame.Location
pub record Location : Type 0 where
  pub did : String
  pub tip : String
  pub description : String
  pub portal : Option String

-- the interactions that the actor adds for the owner, and for the portal
unfoldable pub own_interactions : Bool → String → String → List InteractionResponse
unfolding attach
own_interactions is_local did location_did =
    if is_local
    then attach "location" did
        (some (set_tree_value "set description" location_did "description" false false))
      ∷ []
    else []

unfoldable pub portal_interactions : Bool → String → Option String → List InteractionResponse
unfolding attach
portal_interactions is_local did (some to) =
    attach "location" did (some (change_location "go through portal" to false))
    ∷ (if is_local then attach "location" did (some delete_portal_interaction) ∷ [] else [])
portal_interactions is_local did none =
    if is_local then attach "location" did (some build_portal_interaction) ∷ [] else []

-- all but those of the inventory
unfoldable pub place_interactions :
    Bool → String → String → Option String → List (Option Interaction) → List InteractionResponse
unfolding own_interactions portal_interactions attach
place_interactions is_local did location_did portal listed =
    own_interactions is_local did location_did
    ++ (portal_interactions is_local did portal
        ++ (map (attach "location" did) listed
            ++ attach "location" did (some look_around_interaction) ∷ []))

module _ (net : Network) (codec : Codec) (portals : PortalCodec) where
  open net use {World, Tree, must_id, tip, public_addr, get_tree_by_tip, update_tree_metadata}

  unfoldable pub located : LocationActor net → M World Location
  located l = do
    desc ← get_description net l.location
    portal ← get_portal net portals l.location
    tree ← deref l.location
    pure (record { did = must_id tree; tip = tip tree; description = desc; portal = portal })

  -- GetLocation
  unfoldable pub get_location : LocationActor net → M World Location
  unfolding must
  get_location l = must net (located l)

  -- the answer of a method that assigns the handle, and the actor after it
  unfoldable pub respond_with :
      LocationActor net
      → M World (LocationTree net)
      → M World (Response (Unit {0}) × LocationActor net)
  respond_with l m w =
      let (r, w') = m w in
      (
        elim r [
          | ok t ↦ ok (respond_ok tt, record l { location = t })
          | err e ↦ ok (respond_error e, l)
          | panic ↦ panic
        ],
        w',
      )

  unfoldable pub handle_build_portal :
      LocationActor net → String → M World (Response (Unit {0}) × LocationActor net)
  handle_build_portal l to =
      if to == ""
      then pure (respond_error (message "must specify a did to build a portal"), l)
      else respond_with l (build_portal net portals l.location to)

  unfoldable pub handle_set_location_description :
      LocationActor net → String → M World (Response (Unit {0}) × LocationActor net)
  handle_set_location_description l description =
      respond_with l (set_description net l.location description)

  unfoldable pub handle_delete_portal :
      LocationActor net → M World (Response (Unit {0}) × LocationActor net)
  handle_delete_portal l = respond_with l (delete_portal net portals l.location)

  unfoldable pub handle_add_interaction :
      LocationActor net → Interaction → M World (Response (Unit {0}) × LocationActor net)
  handle_add_interaction l i = respond_with l (add_interaction net codec l.location i)

  -- the interactions of the inventory's actor are added at the end; its error is the answer
  unfoldable pub with_inventory :
      List InteractionResponse
      → Response (List InteractionResponse)
      → Response (List InteractionResponse)
  with_inventory interactions (respond_ok is) = respond_ok (interactions ++ is)
  with_inventory interactions (respond_error e) = respond_error e
  with_inventory interactions no_response = respond_error (external "future: timeout")

  unfoldable pub handle_list_interactions :
      (List String → List String)
      → LocationActor net
      → M World (Response (List InteractionResponse))
  handle_list_interactions arrival l =
      answering (is_owned_by net l.location (public_addr ∷ [])) (wrap "error getting owner auths")
        (λ is_local.
          answering (get_portal net portals l.location) (wrap "error getting portal") (λ portal.
            answering (interactions_list net codec l.location) (λ e. e)
              (λ listed. do
                tree ← deref l.location
                inventory ← list_inventory_interactions net codec arrival l.inventory_actor
                pure (
                    with_inventory (place_interactions is_local l.did (must_id tree) portal listed)
                      inventory))))

  -- CurrentState: the tree at the new tip of the actor's own location; errors are logged
  unfoldable pub refreshed : LocationActor net → String → M World (LocationActor net)
  refreshed l new_tip = do
    found ← reads (get_tree_by_tip new_tip)
    tree ← deref found
    update_tree_metadata tree
    pure (record l { location = some tree })

  -- whether the parent is told of a change, with the actor after the notice
  unfoldable pub current_state :
      LocationActor net → String → String → M World (Bool × LocationActor net)
  unfolding refreshed
  current_state l object_id new_tip w =
      if object_id == l.did
      then (let (r, w') = refreshed l new_tip w in
          (elim r [ ok l' ↦ ok (true, l') | err e ↦ ok (false, l) | panic ↦ panic ], w'))
      else (ok (true, l), w)

  -- StateChange of the inventory's actor: passed on where the inventory is another tree
  unfoldable pub passes_on : LocationActor net → Bool
  passes_on l = not (l.did == l.inventory_did)
