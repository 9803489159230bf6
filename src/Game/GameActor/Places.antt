-- ===== src/Game/GameActor/Places.antt =====
-- game/game.go: the commands about locations and about the values of trees.
use jasons_game.Game.GameActor.Matches.{connect_match}
use jasons_game.Base.{
  String, Bool, false, not, ◌<>◌, Option, some, none, List, [], ◌∷◌, map, ◌==◌, if◌then◌else◌,
}
use jasons_game.Network.{
  Value, null, bool, number, list, object, link, text, elements, Res, ok, err, panic, message, wrap,
  M, panics, pure, fail, lift, deref, wrapping, reads, ◌>>=◌, ◌>>◌, Network, fetch,
}
use jasons_game.Game.Interactions.{change_location}
use jasons_game.Game.Interactions.Values.{set_value}
use jasons_game.Game.Static.{get_static}
use jasons_game.Game.PlayerTree.{PlayerTree, player_authentications}
use jasons_game.Game.LocationTree.{is_owned_by}
use jasons_game.Game.InventoryActor.{Response, respond_ok, respond_error, no_response}
use jasons_game.Game.GameActor.{
  Error, Session, Surroundings, Reply, failed, odd, reply, asking, this, on_net, location_pid,
}
use jasons_game.Game.GameActor.Messages.{
  say, send_user_message, indented_list, get_inventory_list, get_current_location, send_ui_location,
  send_artifact_hint, join_with,
}
use jasons_game.Game.GameActor.Refresh.{set_location, home_did}

-- What is shown of values: fmt's %v, and YAML of what is neither a text nor a list.
pub record Shown : Type 0 where
  pub shown : Value → String
  pub yaml_of : Value → Res String

unfoldable pub shown_value : Shown → Value → Res String
shown_value f (text s) = ok s
shown_value f (list vs) = ok (join_with "\n" (map f.shown (elements vs)))
shown_value f null = f.yaml_of null
shown_value f (bool b) = f.yaml_of (bool b)
shown_value f (number n) = f.yaml_of (number n)
shown_value f (object m) = f.yaml_of (object m)
shown_value f (link c) = f.yaml_of (link c)

module _ (net : Network) (O : Type 0) (around : Surroundings (net.World × O)) where
  open net use {World, Tree, must_id, resolve, decode_path, get_tree_by_tip, create_chain_tree}
  open around use {build_portal, delete_portal, add_interaction, last_location}

  -- `errors.Wrap(err, …)` of the error of the future, which is nil here: nothing is returned or said
  unfoldable pub portal_answer :
      String → String → Reply (Response (Unit {0})) → M (Session net O) (Unit {0})
  portal_answer what done (failed e) = fail (wrap what e)
  portal_answer what done odd = panics
  portal_answer what done (reply (respond_ok _)) = say net O done
  portal_answer what done (reply (respond_error e)) = pure tt
  portal_answer what done (reply no_response) = fail (wrap what (message "future: timeout"))

  unfoldable pub handle_build_portal : String → M (Session net O) (Unit {0})
  unfolding portal_answer
  handle_build_portal to_did = do
    pid ← location_pid net O
    r ← asking net O (build_portal pid to_did)
    portal_answer "error building portal" ("successfully built a portal to " <> to_did) r

  unfoldable pub handle_delete_portal : M (Session net O) (Unit {0})
  unfolding portal_answer
  handle_delete_portal = do
    pid ← location_pid net O
    r ← asking net O (delete_portal pid)
    portal_answer "error deleting portal" "successfully deleted the portal" r

  -- `parsed` is what cid.Parse makes of the tip
  unfoldable pub handle_tip_zoom : String → Res String → M (Session net O) (Unit {0})
  handle_tip_zoom tip (err e) = do say net O "error parsing tip"; fail (wrap "error parsing tip" e)
  handle_tip_zoom tip panic = panics
  handle_tip_zoom tip (ok tip_cid) = do
    found ← wrapping "error getting tip" (on_net net O (reads (get_tree_by_tip tip_cid)))
    tree ← deref found
    set_location net O around (must_id tree)
    send_ui_location net O around

  -- an error leaves no objects
  unfoldable pub objects_or_none :
      M (Session net O) (List (String × String)) → M (Session net O) (List (String × String))
  objects_or_none m s =
      let (r, s') = m s in (elim r [ ok os ↦ ok os | err e ↦ ok [] | panic ↦ panic ], s')

  unfoldable pub handle_change_location : String → M (Session net O) (Unit {0})
  unfolding objects_or_none
  handle_change_location did = do
    set_location net O around did
    pid ← location_pid net O
    objects ← objects_or_none (get_inventory_list net O around pid)
    send_ui_location net O around
    send_artifact_hint net O objects

  -- static.Get without its error
  unfoldable pub static_or_empty : String → M (Session net O) String
  static_or_empty key s =
      let (r, s') = on_net net O (get_static net key) s in
      (elim r [ ok v ↦ ok v | err e ↦ ok "" | panic ↦ panic ], s')

  unfoldable pub last_or_start : Option String → M (Session net O) String
  unfolding static_or_empty
  last_or_start none = static_or_empty "ArcadiaStartAgain"
  last_or_start (some did) = if did == "" then static_or_empty "ArcadiaStartAgain" else pure did

  unfoldable pub did_of_name : String → M (Session net O) String
  unfolding last_or_start static_or_empty
  did_of_name name =
      if name == "last-location"
      then (λ s. last_or_start (last_location (s.world, s.others)) s)
      else if name == "home"
      then home_did net O around
      else static_or_empty name

  unfoldable pub handle_change_named_location : String → M (Session net O) (Unit {0})
  unfolding did_of_name
  handle_change_named_location name = do
    did ← did_of_name name
    to ← if did == "" then home_did net O around else pure did
    handle_change_location to

  unfoldable pub found_or : Error → Option Tree → M (Session net O) Tree
  found_or e none = fail e
  found_or e (some t) = pure t

  unfoldable pub handle_set_tree_value :
      Bool → String → String → String → M (Session net O) (Unit {0})
  handle_set_tree_value multiple did path args = do
    found ← wrapping "error fetching tree" (on_net net O (fetch net did))
    tree ← found_or (message "could not find tree") found
    wrapping "error setting value on tree" (on_net net O (set_value net multiple path tree args))
    say net O ("set " <> path <> " to " <> args)

  unfoldable pub handle_get_tree_value : Shown → String → String → M (Session net O) (Unit {0})
  unfolding shown_value
  handle_get_tree_value f did path = do
    found ← wrapping "error fetching tree" (on_net net O (fetch net did))
    tree ← found_or (message "could not find tree") found
    path_slice ← wrapping "error casting path" (lift (decode_path path))
    value ←
        wrapping "error fetching value"
          (lift (resolve tree ("tree" ∷ "data" ∷ "jasons-game" ∷ path_slice)))
    to_send ← wrapping "error casting value" (lift (shown_value f value))
    say net O to_send

  unfoldable pub list_entries : List (String × String) → List String
  list_entries [] = []
  list_entries ((name, did) ∷ rest) = (name <> " (" <> did <> ")") ∷ list_entries rest

  unfoldable pub list_location : List (String × String) → M (Session net O) (Unit {0})
  unfolding list_entries
  list_location [] = pure tt
  list_location (o ∷ objects) =
      send_user_message net O (indented_list ("location inventory:" ∷ list_entries (o ∷ objects)))

  unfoldable pub tell_portal : Option String → M (Session net O) (Unit {0})
  tell_portal none = pure tt
  tell_portal (some to) = say net O ("you see a mysterious portal leading to " <> to)

  unfoldable pub handle_location_inventory_list : M (Session net O) (Unit {0})
  unfolding list_location tell_portal
  handle_location_inventory_list = do
    pid ← location_pid net O
    objects ← wrapping "error getting location inventory list" (get_inventory_list net O around pid)
    l ← wrapping "error getting current location" (get_current_location net O around)
    send_ui_location net O around
    list_location objects
    tell_portal l.portal
    send_artifact_hint net O objects

  unfoldable pub handle_create_location : M (Session net O) (Unit {0})
  handle_create_location = do
    new_location ← on_net net O create_chain_tree
    say net O ("new location created " <> must_id new_location)

  unfoldable pub connected :
      String → String → Reply (Response (Unit {0})) → M (Session net O) (Unit {0})
  connected to_did command (failed e) = fail (wrap "error adding connection" e)
  connected to_did command odd = fail (message "error casting location")
  connected to_did command (reply (respond_error e)) = fail (wrap "error adding connection" e)
  connected to_did command (reply no_response) =
      fail (wrap "error adding connection" (message "future: timeout"))
  connected to_did command (reply (respond_ok _)) =
      say net O ("added a connection to " <> to_did <> " as " <> command)

  -- the error of IsOwnedBy is dropped: the location is not owned then
  unfoldable pub owned_or_not : M (Session net O) Bool → M (Session net O) Bool
  owned_or_not m s =
      let (r, s') = m s in (elim r [ ok b ↦ ok b | err e ↦ ok false | panic ↦ panic ], s')

  unfoldable pub auths_of_player : PlayerTree net → M (Session net O) (List String)
  auths_of_player pt s =
      let (r, s') = on_net net O (player_authentications net pt) s in
      (
        elim r [
          | ok a ↦ ok a
          | err e ↦ err (message "error fetching player authentications")
          | panic ↦ panic
        ],
        s',
      )

  unfoldable pub connect_to : Option (String × String) → M (Session net O) (Unit {0})
  unfolding connected owned_or_not
  connect_to none =
      fail (message "must specify connections in the syntax of: connect location DID as CMD")
  connect_to (some (to_did, command)) = do
    found ← wrapping "error fetching target location" (on_net net O (fetch net to_did))
    target ← found_or (message "could not find target location") found
    s ← this net O
    auths ← auths_of_player s.player_tree
    is_owned ← owned_or_not (on_net net O (is_owned_by net (some target) auths))
    if not is_owned then fail (message "can't connect a location that you don't own") else do
      pid ← location_pid net O
      r ← asking net O (add_interaction pid (change_location command to_did false))
      connected to_did command r

  unfoldable pub handle_connect_location : String → M (Session net O) (Unit {0})
  unfolding connect_to connect_match
  handle_connect_location args = connect_to (connect_match args)
