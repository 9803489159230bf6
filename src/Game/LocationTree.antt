-- ===== src/Game/LocationTree.antt =====
-- game/location_tree.go. The struct is its chaintree, which may be nil; the network is a parameter
-- of the section. `SetHandler` assigns the handle twice, so it is an action on the handle too.
pub mod Portals
pub mod Handled
use jasons_game.Base.{
  String, ◌≡◌, Bool, false, Option, none, some, List, [], ◌∷◌, ◌++◌, is_some, if◌then◌else◌,
}
use jasons_game.Network.{
  Value, null, text, as_text, Res, ok, err, panic, message, M, pure, fail, lift, wrapping, wrapped,
  deref, ◌>>=◌, ◌>>◌, Network, fetch,
}
use jasons_game.Trees.Ownership.{verify_ownership}
use jasons_game.Handlers.Remote.{handler_path}
use jasons_game.Game.Interactions.{Codec, Interaction}
use jasons_game.Game.Interactions.Tree.{
  UpdatableTree, is_nil, some_of, add_interaction_to_tree, interactions_list_from_tree,
}
use jasons_game.Game.TreePaths.{get_path_of, update_path_of, paths_of}

abbrev pub LocationTree : Network → Type 0
LocationTree net = Option net.Tree

-- `&jasonsgame.Portal{To: did}` as it is stored, and typecaster.ToType back from it.
pub record PortalCodec : Type 0 where
  pub portal_value : String → Value
  pub to_portal : Value → Res String

pub record PortalCodecLaws (codec : PortalCodec) : Type 0 where
  pub stored_not_nil : (did : String) → is_nil (codec.portal_value did) ≡ false
  pub to_portal-portal_value : (did : String) → codec.to_portal (codec.portal_value did) ≡ ok did

-- `if err != nil || val == nil { return "", err }`, then `val.(string)`
pub description_text : Value → Res String
description_text v = if is_nil v then ok "" else elim (as_text v) [ none ↦ panic | some s ↦ ok s ]

module _ (net : Network) where
  open net use {World, authentications, update_chain_tree, change_chain_tree_owner}

  abbrev pub location_paths : UpdatableTree World (LocationTree net)
  location_paths = paths_of net "error resolving on location"

  unfoldable pub get_path : LocationTree net → List String → M World Value
  get_path l path = lift (get_path_of net "error resolving on location" l path)

  unfoldable pub update_path : LocationTree net → List String → Value → M World (LocationTree net)
  update_path = update_path_of net

  unfoldable pub get_description : LocationTree net → M World String
  get_description l = do val ← get_path l ("description" ∷ []); lift (description_text val)

  abbrev pub set_description : LocationTree net → String → M World (LocationTree net)
  set_description l description = update_path l ("description" ∷ []) (text description)

  abbrev pub add_interaction : Codec → LocationTree net → Interaction → M World (LocationTree net)
  add_interaction codec = add_interaction_to_tree codec location_paths

  abbrev pub interactions_list : Codec → LocationTree net → M World (List (Option Interaction))
  interactions_list codec = interactions_list_from_tree codec location_paths

  unfoldable pub is_owned_by : LocationTree net → List String → M World Bool
  is_owned_by l key_addrs = do t ← deref l; lift (verify_ownership net t key_addrs)

  module _ (portals : PortalCodec) where
    open portals use {portal_value, to_portal}

    unfoldable pub portal_of : Value → Res (Option String)
    portal_of v =
        if is_nil v then ok none else some_of (wrapped "error casting portal" (to_portal v))

    -- The did to which the portal leads, or nil.
    unfoldable pub get_portal : LocationTree net → M World (Option String)
    unfolding portal_of
    get_portal l = do
      portal ← wrapping "error fetching portal" (get_path l ("portal" ∷ []))
      lift (portal_of portal)

    unfoldable pub build_portal : LocationTree net → String → M World (LocationTree net)
    build_portal l to_did = do
      current_portal ← wrapping "error fetching portals" (get_portal l)
      if is_some current_portal
          then fail (message "error, portal already exists")
          else update_path l ("portal" ∷ []) (portal_value to_did)

    unfoldable pub delete_portal : LocationTree net → M World (LocationTree net)
    delete_portal l = do
      current_portal ← wrapping "error fetching portals" (get_portal l)
      if is_some current_portal
          then update_path l ("portal" ∷ []) null
          else fail (message "error, no portal to delete")

  -- A method that assigns its receiver works on the handle and the world.
  abbrev pub State : Type 0
  State = LocationTree net × World

  unfoldable pub on_world : {A : Type 0} → M World A → M State A
  on_world m (l, w) = let (r, w') = m w in (r, (l, w'))

  unfoldable pub handle : M State (LocationTree net)
  handle (l, w) = (ok l, (l, w))

  unfoldable pub assign : LocationTree net → M State (Unit {0})
  assign l (old, w) = (ok tt, (l, w))

  unfoldable pub set_handler : String → M State (Unit {0})
  unfolding on_world handle assign
  set_handler handler_did = do
    l ← handle
    t ← on_world (deref l)
    location_auths ← on_world (wrapping "error fetching location auths" (lift (authentications t)))
    found ← on_world (wrapping "error fetching handler tree" (fetch net handler_did))
    handler_tree ← on_world (deref found)
    handler_auths ←
        on_world (wrapping "error fetching handler auths" (lift (authentications handler_tree)))
    new_tree ← on_world (
        wrapping "error setting new handler attr"
          (update_chain_tree t handler_path (text handler_did)))
    assign (some new_tree)
    owned_tree ← on_world (
        wrapping "error setting new handler auths"
          (change_chain_tree_owner new_tree (location_auths ++ handler_auths)))
    assign (some owned_tree)
