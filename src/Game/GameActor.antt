-- ===== src/Game/GameActor.antt =====
-- game/game.go: the actor of a player's session. Its state is `Session`; `Surroundings` are the other
-- actors that it asks and the datastore, with the timeouts and casts of the actor library in `Reply`.
pub mod Messages
pub mod Refresh
pub mod Matches
pub mod Inventories
pub mod Waiting
pub mod Places
pub mod Interactions
pub mod Input
pub mod Start
pub mod Steps
use jasons_game.Base.{ℕ, String, Bool, Option, some, none, List, [], ◌∷◌}
use jasons_game.Network.{
  Res, ok, err, panic, Error, message, M, panics, pure, fail, lift, ◌>>=◌, Network,
  TransferredObject,
}
use jasons_game.Game.Interactions.{Interaction}
use jasons_game.Game.Commands.{Command}
use jasons_game.Game.PlayerTree.{PlayerTree}
use jasons_game.Game.PlayerInventoryHandler.{InventoryChangeEvent}
use jasons_game.Game.InventoryActor.{CreateObjectRequest, TransferObjectRequest, Response}
use jasons_game.Game.InventoryActor.Listing.{InteractionResponse}
use jasons_game.Game.LocationActor.Requests.{Location}

-- `future.Result()`: an error such as a timeout, a message of another type, or the one that is expected
pub data Reply (A : Type 0) : Type 0 where
  failed : Error → Reply A
  odd : Reply A
  reply : A → Reply A

-- The actors are known by numbers, their PIDs. `next_event` waits for the handler of the player's
-- inventory to tell of an object, and is `none` if it never does.
pub record Surroundings (W : Type 0) : Type 0 where
  pub spawn_location : String → W → ℕ × W
  pub stop : ℕ → W → W
  pub list_interactions : ℕ → M W (Reply (Response (List InteractionResponse)))
  pub inventory_list : ℕ → M W (Reply (Response (List (String × String))))
  pub transfer_object : ℕ → TransferObjectRequest → M W (Reply (Response (Unit {0})))
  pub create_object : ℕ → CreateObjectRequest → M W (Reply (Response String))
  pub get_location : ℕ → M W (Reply Location)
  pub build_portal : ℕ → String → M W (Reply (Response (Unit {0})))
  pub delete_portal : ℕ → M W (Reply (Response (Unit {0})))
  pub inventory_did : ℕ → M W (Reply String)
  pub add_interaction : ℕ → Interaction → M W (Reply (Response (Unit {0})))
  pub expect_object : String → W → W
  pub send_transferred : ℕ → TransferredObject → W → W
  pub next_event : String → W → Option (InventoryChangeEvent × W)
  -- the order in which Go ranges over the map of the commands by their actors
  pub map_order : List (ℕ × List Command) → List (ℕ × List Command)
  -- g.ds under lastLocationKey
  pub last_location : W → Option String
  pub store_last_location : String → M W (Unit {0})

-- What is sent to the user interface, or answered to the sender of an input.
pub data Sent : Type 0 where
  -- sequence
  command_received : ℕ → Sent
  -- message, location, sequence
  message_to_user : String → Option Location → ℕ → Sent
  command_update : List String → Sent

abbrev pub uint64 : ℕ
uint64 = 18446744073709551616

module _ (net : Network) (O : Type 0) where
  open net use {World}

  -- `sent` holds the latest first; `watches` the objects whose transfer a goroutine waits for.
  pub record Session : Type 0 where
    pub player_tree : PlayerTree net
    pub commands : List Command
    pub message_sequence : ℕ
    pub location_did : String
    pub location_actor : Option ℕ
    pub inventory_actor : ℕ
    pub commands_by_actor : List (ℕ × List Command)
    pub watches : List String
    pub sent : List Sent
    pub world : World
    pub others : O

  -- An action of the network, and one of the surroundings, in a session.
  unfoldable pub on_net : {A : Type 0} → M World A → M Session A
  on_net m s = let (r, w) = m s.world in (r, record s { world = w })

  unfoldable pub asking : {A : Type 0} → M (World × O) A → M Session A
  asking m s = let (r, (w, o)) = m (s.world, s.others) in (r, record s { world = w; others = o })

  unfoldable pub doing : (World × O → World × O) → M Session (Unit {0})
  doing f s = let (w, o) = f (s.world, s.others) in (ok tt, record s { world = w; others = o })

  unfoldable pub this : M Session Session
  this s = (ok s, s)

  unfoldable pub pid_or_panic : Option ℕ → Res ℕ
  pid_or_panic none = panic
  pid_or_panic (some pid) = ok pid

  unfoldable pub location_pid : M Session ℕ
  unfolding pid_or_panic
  location_pid s = (pid_or_panic s.location_actor, s)
