-- ===== src/Samples/Sessions.antt =====
-- A session of a player, the actors around it, and an encoding for interactions that hold others.

use Prim.Native.Char.{code}
use jasons_game.Base.{
  ℕ, ◌<◌, ◌≤◌, String, ◌≡◌, sym, ap, subst, false, some, none, List, [], ◌∷◌, ◌++◌, map, ◌==◌,
  arith, eq_iff, Bool-cases, inl, inr, byte_count, eqb, if◌then◌else◌,
}
use jasons_game.Network.{Value, text, object, field, end, Res, ok, err, message}
use jasons_game.Game.Interactions.{Codec, Interaction, respond, pick_up_object, chained}
use jasons_game.Game.Interactions.Sealed.Sizes.{SizeLaws, text_size, held_size}
use jasons_game.Game.Commands.{
  Command, interaction_command, default_command_list, parse, after_prefix,
}
use jasons_game.Game.InventoryActor.{respond_ok, respond_error}
use jasons_game.Game.InventoryActor.Listing.{InteractionResponse}
use jasons_game.Game.GameActor.{Session, Surroundings, reply, failed, command_update}
use jasons_game.Game.GameActor.Places.{Shown}
use jasons_game.Samples.Chain.{Store, sample}
use jasons_game.Samples.Codecs.{sample_sealing}
use jasons_game.Samples.Scenes.{my_tree, your_tree, store}

-- the bytes of an answer
abbrev pub hello_bytes : String
hello_bytes = "{typeUrl: respond, value: hello}"

abbrev hello_value : Value
hello_value = object (field "typeUrl" (text "respond") (field "value" (text "hello") end))

abbrev pub holding_codec : Codec
holding_codec = record {
  type_url = λ i. ok "respond";
  to_value = λ i. text "hello";
  empty_any = λ url. ok tt;
  of_value = λ url v. ok (respond "" "hello" false);
  to_bytes = λ v. hello_bytes;
  of_bytes = λ s. if s == hello_bytes then ok hello_value else err (message "no such bytes");
}

ok_injective : {A : Type 0} {a b : A} → Path (Res A) (ok a) (ok b) → a ≡ b
ok_injective h = cc

after_prefix-byte_count :
    (p s rest : String) → after_prefix p s ≡ some rest → byte_count rest ≤ byte_count s
after_prefix-byte_count String.[] s rest h =
    let same : s ≡ rest = cc in omega (arith, ap byte_count same)
after_prefix-byte_count (String.◌∷◌ c p) String.[] rest h = absurd cc
after_prefix-byte_count (String.◌∷◌ c p) (String.◌∷◌ d s) rest h =
    elim (Bool-cases (eqb (code c) (code d))) [
      | inl e ↦ let below = after_prefix-byte_count p s rest (rw e at h) in omega (arith, below)
      | inr e ↦ absurd (let h' = rw e at h in cc)
    ]

decoded-smaller :
    (b : String) (v : Value) → holding_codec.of_bytes b ≡ ok v → text_size v < byte_count b
decoded-smaller b v h = elim (Bool-cases (b == hello_bytes)) [
  | inl e ↦
      let small : text_size hello_value < byte_count hello_bytes = omega arith in
      let same = ok_injective (rw e at h) in
      subst (λ q. text_size v < byte_count q) (sym ((eq_iff b hello_bytes).0 e))
        (subst (λ q. text_size q < byte_count hello_bytes) same small)
  | inr e ↦ absurd (let h' = rw e at h in cc)
]

pub holding_laws : SizeLaws holding_codec sample_sealing
holding_laws = record {
  of_bytes-text_size = decoded-smaller;
  of_value-held_size =
      λ url v i h. subst (λ j. held_size j ≤ text_size v) (ok_injective h) (omega arith);
  open_box-byte_count = λ key nonce box bytes h. after_prefix-byte_count key box bytes h;
}

abbrev pub greeting : Interaction
greeting = chained "greet" (hello_bytes ∷ []) false

-- what the bag's actor answers: one object to pick up, and one that speaks
abbrev pub responses : List InteractionResponse
responses =
    record {
      attached_to = "rope";
      attached_to_did = "did:rope";
      interaction = some (pick_up_object "get rope" "did:rope" false);
    }
    ∷ record {
      attached_to = "lamp";
      attached_to_did = "did:lamp";
      interaction = some (respond "rub lamp" "a djinn" false);
    }
    ∷ []

abbrev pub around : Surroundings (Store × ℕ)
around = record {
  spawn_location = λ did w. (7, w);
  stop = λ pid w. w;
  list_interactions = λ pid w. (ok (reply (respond_ok responses)), w);
  inventory_list = λ pid w. (ok (reply (respond_ok (("rope", "did:rope") ∷ []))), w);
  transfer_object = λ pid req w. (ok (reply (respond_ok tt)), w);
  create_object = λ pid req w. (ok (reply (respond_ok "did:new")), w);
  get_location = λ pid w. (ok (failed (message "future: timeout")), w);
  build_portal = λ pid to w. (ok (reply (respond_error (message "there is a portal"))), w);
  delete_portal = λ pid w. (ok (reply (respond_ok tt)), w);
  inventory_did = λ pid w. (ok (reply "did:meadow"), w);
  add_interaction = λ pid i w. (ok (reply (respond_ok tt)), w);
  expect_object = λ did w. w;
  send_transferred = λ pid m w. w;
  next_event =
      λ did w. some (record { did = did; action = "add"; message_text = ""; error = none }, w);
  map_order = λ m. m;
  last_location = λ w. none;
  store_last_location = λ did w. (ok tt, w);
}

abbrev pub known : List Command
known = default_command_list ++ interaction_command "greet" greeting "lamp" "did:lamp" ∷ []

-- A session in the meadow, with the actor 5 for the bag and 6 for the meadow.
abbrev pub session : Session sample ℕ
session = record {
  player_tree = record {
    tree = my_tree;
    home_location = some your_tree;
    player = none;
    did = "did:me";
  };
  commands = known;
  message_sequence = 0;
  location_did = "did:meadow";
  location_actor = some 6;
  inventory_actor = 5;
  commands_by_actor = (6, []) ∷ [];
  watches = [];
  sent = command_update (map parse known) ∷ [];
  world = store;
  others = 0;
}

abbrev pub plainly : Shown
plainly = record { shown = λ v. ""; yaml_of = λ v. ok "" }
