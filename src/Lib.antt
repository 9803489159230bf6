-- ===== src/Lib.antt =====
-- Jason's Game: a text adventure whose players, places and objects are chaintrees, append-only trees
-- of values that have owners. This library models the parts of the program that decide what happens
-- to them, and proves what they promise.
--
-- The parts, and the files that model them:
--
-- - utils/stringslice: Utils/StringSlice. `Index` answers with an option in place of -1, and `Reverse`
--   is a loop over swaps.
-- - game/trees/inventory_tree.go: Trees/Inventory, the objects that a chaintree holds. `update_objects`
--   is `updateObjects`, `add_named` the part that `Add` and `ForceAdd` share; the other operations keep
--   their names. Flip is about the exchange of keys and values, Stored about a chaintree that holds an
--   inventory, Contents and Collision about the objects in it.
-- - game/trees/height.go and game/trees/ownership.go: Trees/Height and Trees/Ownership. The loops over
--   the tips take fuel, and `none` means that it ran out; one more than the height of the tree is
--   enough, since a block's height is one more than that of the block before. `History` is that link.
-- - handlers/*.go: Handlers, with Core for the interface and the lists of message names, Composite,
--   Remote and Broadcast for the kinds of handlers.
-- - handlers/inventory/unrestricted_add.go and unrestricted_remove.go: Handlers/Inventory/Add and
--   Remove, the two halves of a transfer. `prepare` is all that the sender reads, `hand_over` all that
--   it writes, `undoing` a step whose failure runs the rollbacks.
-- - game/types.proto and game/interactions.go: Game/Interactions, with Types for the messages, Encoding
--   for their storage, Tree for the interactions that a tree keeps, Sealed for those that hold others,
--   Values for `SetValue`.
-- - game/object_tree.go, game/location_tree.go, game/interaction_tree.go: Game/ObjectTree,
--   Game/LocationTree and Game/InteractionTree. The methods getPath and updatePath, which the three repeat, are those of
--   Game/TreePaths, which fulfils the laws that Game/Interactions/Tree asks of an `updatableTree`.
-- - game/commands.go: Game/Commands.
-- - game/player_inventory_handler.go: Game/PlayerInventoryHandler, the handler with its expected
--   objects and the events that it published.
-- - game/inventory.go: Game/InventoryActor, the requests that an inventory answers; Listing has the
--   interactions of all its objects, in an order of the goroutines' answers that is a parameter.
-- - game/location_actor.go: Game/LocationActor, with PlayerInventory for the inventory that a player
--   has at a location, and Requests for what a location answers. The actor of its inventory is a child
--   whose state it holds.
-- - game/player_tree.go, game/default_tree.go and game/static: Game/PlayerTree and Game/Static.
-- - game/game.go: Game/GameActor, the session of a player. `Session` is the actor's state with all that
--   was sent to the user, `Surroundings` the other actors and the datastore, `Reply` the result of a
--   future. Messages numbers what is sent, Refresh gathers the commands of the actors and changes the
--   location, Matches reads the arguments of commands, Inventories and Places have their handlers,
--   Waiting those that wait for an event of the player's inventory, with no timeout: `none` is to wait
--   for ever. Interactions and Input choose among them, Start begins the game. Steps has what the
--   handlers may do to a session as a relation, `Reach`, and the rules by which chains of actions stay
--   within it. Interactions that hold others are handled with fuel, `none` where it runs out; more
--   than the length of the bytes in them is enough. The order in which Go goes over a map of commands
--   is a parameter.
-- - courts/autumn/element.go and element_combiner_handler.go: Courts/Autumn/Elements for the names of
--   elements, Combinations for the map from sets of elements to the element that they make, Combiner
--   for the configuration, PickUp for the handler of a request. Ids are integers without a bound;
--   `strings.Title` is that of ASCII.
-- - courts/court/prize_handler.go: Courts/Court/Prize spawns the object, Prize/Transfer gives it
--   away; the state is the handler's tree beside the world. The goroutine that spawns the next object
--   is run where it starts.
-- - importer/importer.go and importer/flatmap: Importer, with Flatmap for nested maps, Convert for the
--   interactions of a file, Trees for what is written into one chaintree, Whole for an import. A
--   conversion that never ends is a panic, as is one whose fuel ends.
-- - network/network.go and pb/jasonsgame.proto: Network. Data has the values that a chaintree stores,
--   Effects results and actions, Messages the messages of a transfer, Api the interface `Network`,
--   Laws what is relied on of it, Paths the reading of a value after a write.
-- - Samples: a network in memory and encodings that fulfil the laws, and the theorems run on them.
--
-- How they interact: the inventory actor asks its handler for a transfer; the sender's handler shares
-- the object with the target's owners, takes it out of the source and sends the message to the target's
-- handler, which puts it into the target and makes it the target's alone. All of it works on
-- chaintrees through the interface `Network`.
--
-- How the program is translated: an operation is an action that takes the world and returns a result
-- and the world after it, also when it fails or panics. A handle on a chaintree is a value, the tree as
-- the handle last saw it; a method that assigns its receiver returns the new handle, and a handle
-- whose update failed keeps its content. A nil handle is `none`, and its use a panic. A Go map is the
-- list of its entries, and `range` of the network's interface is the order in which it is ranged over.
-- Errors keep the fixed part of their text. Paths are texts, split by DecodePath as the network's laws
-- say. Bytes are texts. An error beside a result drops the result, but in `OwnershipChanges`.
--
-- What stands outside, as parameters: the consensus library, the stores and the peers (`Network`, with
-- `NetworkLaws`), the encodings of protobuf, the typecaster and CBOR (`Codec`, `CodecLaws`, `BytesLaws`,
-- `PortalCodec`, `PlayerCodec`), scrypt, secretbox and the random source (`Sealing`, `SealingLaws`), with
-- the sizes of both (`SizeLaws`), the other actors and the datastore of a session (`Surroundings`), the
-- printing of values (`Shown`), the parser of tips, yaml, templates and hashes (`Formats`). The laws are hypotheses of the theorems that use
-- them.
--
-- What is not modelled: the implementations of the network, the actors of logins and chats, the mode of
-- invitations, the courts but the files above, the files of an import, the ink faucet, the services, the server
-- and the user interface; of the files above the wiring of actors, subscriptions, connections to peers
-- and logs, PeerPublicKeys, AtTip, the load of the cache and, of the combiner, `setup`, the receiving of
-- elements and the test of their origin. The order of the commands of help among the help texts, beyond
-- the twelve texts that sort.Slice sorts by insertion, is not that of the code.
mod Base
pub mod Utils
pub mod Network
pub mod Trees
pub mod Handlers
pub mod Game
pub mod Courts
pub mod Importer
pub mod Samples
