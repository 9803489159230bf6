-- ===== src/Game/GameActor/Refresh.antt =====
-- game/game.go: the commands that the session knows, gathered from the interactions of its actors, and
-- the change of the location.
pub mod Gathered
pub mod Offered
use jasons_game.Base.{
  ℕ, String, Bool, true, false, not, ◌&&◌, Option, some, none, List, [], ◌∷◌, ◌++◌, map, eqb, ◌==◌,
  if◌then◌else◌,
}
use jasons_game.Network.{
  Res, ok, err, panic, Error, message, M, panics, pure, fail, lift, deref, ◌>>=◌, ◌>>◌, Network,
}
use jasons_game.Game.Interactions.{
  Interaction, get_command, respond, change_location, change_named_location, pick_up_object,
  drop_object, create_object, get_tree_value, set_tree_value, chained, cipher,
  build_portal_interaction, delete_portal_interaction, look_around_interaction,
}
use jasons_game.Game.Commands.{Command, interaction_command, default_command_list}
use jasons_game.Game.InventoryActor.{Response, respond_ok, respond_error, no_response}
use jasons_game.Game.InventoryActor.Listing.{InteractionResponse}
use jasons_game.Game.GameActor.{
  Session, Surroundings, Reply, failed, odd, reply, asking, doing, this, on_net, location_pid,
}
use jasons_game.Game.GameActor.Messages.{set_commands}

-- Is the interaction left out? Objects are picked up elsewhere, and dropped from the player's inventory.
unfoldable pub left_out : Bool → Interaction → Bool
left_out in_inventory (pick_up_object _ _ _) = in_inventory
left_out in_inventory (drop_object _ _ _) = not in_inventory
left_out in_inventory (respond _ _ _) = false
left_out in_inventory (change_location _ _ _) = false
left_out in_inventory (change_named_location _ _ _) = false
left_out in_inventory (create_object _ _ _ _ _) = false
left_out in_inventory (get_tree_value _ _ _ _) = false
left_out in_inventory (set_tree_value _ _ _ _ _) = false
left_out in_inventory (chained _ _ _) = false
left_out in_inventory (cipher _ _ _ _) = false
left_out in_inventory build_portal_interaction = false
left_out in_inventory delete_portal_interaction = false
left_out in_inventory look_around_interaction = false

unfoldable pub command_for : InteractionResponse → Interaction → Command
command_for r i = interaction_command (get_command i) i r.attached_to r.attached_to_did

-- the loop over the responses; the command of a nil interaction is a panic
unfoldable pub commands_for : Bool → List InteractionResponse → Res (List Command)
unfolding command_for
commands_for in_inventory [] = ok []
commands_for in_inventory (r ∷ rs) =
    let rest = commands_for in_inventory rs in
    elim (r.interaction) [
      | none ↦ panic
      | some i ↦
          if left_out in_inventory i
          then rest
          else elim rest [ ok cs ↦ ok (command_for r i ∷ cs) | err e ↦ err e | panic ↦ panic ]
    ]

abbrev pub portal_home : Command
portal_home =
    interaction_command "portal home" (change_named_location "portal home" "home" false) "" ""

-- the map of the commands by their actors
abbrev pub put_commands : ℕ → List Command → List (ℕ × List Command) → List (ℕ × List Command)
put_commands pid cs [] = (pid, cs) ∷ []
put_commands pid cs ((p, old) ∷ m) =
    let rest = put_commands pid cs m in if eqb p pid then (pid, cs) ∷ m else (p, old) ∷ rest

abbrev pub remove_commands : Option ℕ → List (ℕ × List Command) → List (ℕ × List Command)
remove_commands none m = m
remove_commands (some pid) [] = []
remove_commands (some pid) ((p, cs) ∷ m) =
    let rest = remove_commands (some pid) m in if eqb p pid then rest else (p, cs) ∷ rest

abbrev pub knows : ℕ → List (ℕ × List Command) → Bool
knows pid [] = false
knows pid ((p, cs) ∷ m) = let rest = knows pid m in if eqb p pid then true else rest

abbrev pub all_commands : List (ℕ × List Command) → List Command
all_commands [] = []
all_commands ((p, cs) ∷ m) = cs ++ all_commands m

abbrev pub is_pid : ℕ → Option ℕ → Bool
is_pid pid none = false
is_pid pid (some p) = eqb pid p

module _ (net : Network) (O : Type 0) (around : Surroundings (net.World × O)) where
  open net use {World, must_id}
  open around use {map_order, spawn_location, stop, list_interactions, store_last_location}

  unfoldable pub responses_of :
      Reply (Response (List InteractionResponse)) → Res (List InteractionResponse)
  responses_of (failed e) = err (message "error fetching interactions")
  responses_of odd = err (message "error casting ListInteractionsResponse")
  responses_of (reply (respond_ok is)) = ok is
  responses_of (reply (respond_error e)) = err e
  responses_of (reply no_response) = err (message "error fetching interactions")

  unfoldable pub home_did : M (Session net O) String
  home_did = do s ← this net O; t ← deref s.player_tree.home_location; pure (must_id t)

  unfoldable pub unless_home : String → List Command → M (Session net O) (List Command)
  unless_home location_did cs = do
    home ← home_did
    pure (if not (location_did == home) then cs ++ portal_home ∷ [] else cs)

  unfoldable pub with_home : ℕ → List Command → M (Session net O) (List Command)
  unfolding unless_home
  with_home pid cs = do
    s ← this net O
    if is_pid pid s.location_actor then unless_home s.location_did cs else pure cs

  unfoldable pub interaction_commands_for : ℕ → M (Session net O) (List Command)
  unfolding responses_of with_home
  interaction_commands_for pid = do
    r ← asking net O (list_interactions pid)
    responses ← lift (responses_of r)
    s ← this net O
    cs ← lift (commands_for (eqb s.inventory_actor pid) responses)
    with_home pid cs

  -- On an error the entry of the actor is nil.
  unfoldable pub cache : ℕ → List Command → M (Session net O) (Unit {0})
  cache pid cs s = (ok tt, record s { commands_by_actor = put_commands pid cs s.commands_by_actor })

  unfoldable pub offer : M (Session net O) (Unit {0})
  offer s =
      set_commands net O (default_command_list ++ all_commands (map_order s.commands_by_actor)) s

  unfoldable pub cached : ℕ → Res (List Command) → M (Session net O) (Unit {0})
  unfolding cache offer
  cached pid (ok cs) = do cache pid cs; offer
  cached pid (err e) = do cache pid []; fail e
  cached pid panic = panics

  unfoldable pub refresh_interactions_for : ℕ → M (Session net O) (Unit {0})
  unfolding cached
  refresh_interactions_for pid s = let (r, s') = interaction_commands_for pid s in cached pid r s'

  -- the loop over the actors of the map
  unfoldable pub refresh_each : List (ℕ × List Command) → M (Session net O) (Unit {0})
  refresh_each [] = pure tt
  refresh_each ((pid, cs) ∷ m) = refresh_interactions_for pid >> refresh_each m

  unfoldable pub refresh_all_interactions : M (Session net O) (Unit {0})
  unfolding refresh_each
  refresh_all_interactions s = refresh_each (map_order s.commands_by_actor) s

  unfoldable pub forget_commands : Option ℕ → M (Session net O) (Unit {0})
  forget_commands old s =
      (ok tt, record s { commands_by_actor = remove_commands old s.commands_by_actor })

  unfoldable pub replace_interactions_for : ℕ → Option ℕ → M (Session net O) (Unit {0})
  unfolding forget_commands
  replace_interactions_for pid old = do forget_commands old; refresh_interactions_for pid

  unfoldable pub stop_old : Option ℕ → M (Session net O) (Unit {0})
  stop_old none = pure tt
  stop_old (some pid) = doing net O (stop pid)

  -- the new actor of the location
  unfoldable pub spawn_at : String → M (Session net O) ℕ
  spawn_at did s =
      let (pid, (w, o)) = spawn_location did (s.world, s.others) in
      (ok pid, record s { world = w; others = o; location_actor = some pid; location_did = did })

  unfoldable pub or_dies : {A : Type 0} → M (Session net O) A → M (Session net O) A
  or_dies m s = let (r, s') = m s in (elim r [ ok a ↦ ok a | err e ↦ panic | panic ↦ panic ], s')

  unfoldable pub store_location : String → M (Session net O) (Unit {0})
  unfolding or_dies
  store_location did = do
    home ← home_did
    if did == home then pure tt else or_dies (asking net O (store_last_location did))

  unfoldable pub set_location : String → M (Session net O) (Unit {0})
  unfolding stop_old spawn_at store_location or_dies
  set_location did = do
    s ← this net O
    stop_old s.location_actor
    pid ← spawn_at did
    store_location did
    or_dies (replace_interactions_for pid s.location_actor)

  -- handleStateChange; an error is logged
  unfoldable pub handle_state_change : ℕ → M (Session net O) (Unit {0})
  handle_state_change pid s =
      if knows pid s.commands_by_actor
      then (let (r, s') = refresh_interactions_for pid s in
          (elim r as (λ _. Res (Unit {0})) [ ok a ↦ ok tt | err e ↦ ok tt | panic ↦ panic ], s'))
      else (ok tt, s)
