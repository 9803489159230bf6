-- ===== src/Game/LocationTree/Portals.antt =====
-- The portal of a location as a machine with two states, and that the chaintree implements it.
use jasons_game.Base.{String, ◌≡◌, refl, ◌∙◌, ap, true, Option, none, some, [], ◌∷◌}
use jasons_game.Network.{Value, null, ok, M, Network, NetworkLaws, walk, walk-put_at}
use jasons_game.Game.TreePaths.{is_at_hand, game_data, update_path_of-content, get_path_of-content}
use jasons_game.Game.LocationTree.{
  LocationTree, PortalCodec, PortalCodecLaws, get_path, update_path, portal_of, get_portal,
  build_portal, delete_portal,
}

pub data PortalOp : Type 0 where
  build : String → PortalOp
  delete : PortalOp

-- What an operation makes of the portal; none where it is refused.
unfoldable pub portal_after : Option String → PortalOp → Option (Option String)
portal_after none (build did) = some (some did)
portal_after (some _) (build did) = none
portal_after none delete = none
portal_after (some _) delete = some none

module _ (net : Network) (portals : PortalCodec) where
  open net use {World}

  unfoldable pub run : LocationTree net → PortalOp → M World (LocationTree net)
  run l (build did) = build_portal net portals l did
  run l delete = delete_portal net portals l

module _ (net : Network) (laws : NetworkLaws net) (portals : PortalCodec)
    (portal_laws : PortalCodecLaws portals) where
  open net use {World}

  get_portal-content :
      (l : LocationTree net) (v : Value) (u : World)
      → is_at_hand net laws l ≡ true
      → walk ("portal" ∷ []) (game_data net laws l) ≡ v
      → get_portal net portals l u ≡ (portal_of net portals v, u)
  unfolding get_portal get_path
  get_portal-content l v u a e =
      rw (get_path_of-content net laws "error resolving on location" l ("portal" ∷ []) a, e)

  written :
      (l l' : LocationTree net) (v : Value) (w w' u : World)
      → update_path net l ("portal" ∷ []) v w ≡ (ok l', w')
      → get_portal net portals l' u ≡ (portal_of net portals v, u)
  unfolding update_path
  written l l' v w w' u h =
      let (a, c) =
        update_path_of-content net laws l l' ("portal" ∷ []) ("portal" ∷ []) v w w' h refl refl in
      get_portal-content l' v u a
        (ap (walk ("portal" ∷ [])) c ∙ walk-put_at ("portal" ∷ []) v (game_data net laws l))

  -- Under the laws of the network and of the portal's encoding, when building or deleting a portal
  -- succeeds, the machine with the states no portal and a portal to a did allows the operation, and
  -- the portal read afterwards is the machine's next state.
  pub portal_refines :
      (l l' : LocationTree net) (op : PortalOp) (p : Option String) (w w' u : World)
      → get_portal net portals l w ≡ (ok p, w)
      → run net portals l op w ≡ (ok l', w')
      → (q : Option String) × (portal_after p op ≡ some q)
        × (get_portal net portals l' u ≡ (ok q, u))
  unfolding run build_portal delete_portal portal_after portal_of
  portal_refines l l' (build did) none w w' u g h = (
    some did,
    refl,
    written l l' (portals.portal_value did) w w' u (rw g at h)
        ∙ rw (portal_laws.stored_not_nil did, portal_laws.to_portal-portal_value did) refl,
  )
  portal_refines l l' (build did) (some d) w w' u g h = absurd (let h' = rw g at h in cc)
  portal_refines l l' delete none w w' u g h = absurd (let h' = rw g at h in cc)
  portal_refines l l' delete (some d) w w' u g h =
      (none, refl, written l l' null w w' u (rw g at h))
