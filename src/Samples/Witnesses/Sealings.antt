-- ===== src/Samples/Witnesses/Sealings.antt =====
-- Interactions as bytes, chained and sealed; commands.
use package.text.Mathlib.TextLemmas.{cons-append}
use jasons_game.Base.{
  subst, ap, ◌<>◌, String, ◌≡◌, refl, true, false, Option, none, some, List, [], ◌∷◌,
}
use jasons_game.Network.{Res, ok, Value, null}
use jasons_game.Game.Interactions.{
  Interaction, respond, chained, cipher, look_around_interaction, interaction_to_node,
}
use jasons_game.Game.Interactions.Sealed.{
  new_chained_interaction, interactions, new_cipher_interaction, unseal,
}
use jasons_game.Game.Interactions.Sealed.Opened.{chained_roundtrip, unseal_right, unseal_wrong}
use jasons_game.Game.Commands.{
  after_prefix, Command, default_command_list, new_command, find_command, parse,
}
use jasons_game.Game.Commands.Found.{NoPrefix}
use jasons_game.Samples.Codecs.{
  plain_codec, plain_codec_laws, plain-BytesLaws, sample_sealing, sample_sealing_laws,
}
use jasons_game.Samples.Scenes.{or_else}

abbrev open_door : Interaction
open_door = respond "open" "" false

abbrev stuck : Interaction
stuck = respond "stuck" "" false

abbrev node : Value
node = or_else (interaction_to_node plain_codec open_door) null

ran_node : interaction_to_node plain_codec open_door ≡ ok node
unfolding interaction_to_node
ran_node = refl

abbrev chain : Interaction
chain =
    or_else (new_chained_interaction plain_codec "both" (open_door ∷ stuck ∷ []))
      look_around_interaction

ran_chain : new_chained_interaction plain_codec "both" (open_door ∷ stuck ∷ []) ≡ ok chain
unfolding new_chained_interaction interaction_to_node
ran_chain = refl

chained_roundtrip_example :
    (bs : List String) × (chain ≡ chained "both" bs false)
    × (interactions plain_codec bs ≡ ok (open_door ∷ stuck ∷ []))
chained_roundtrip_example =
    chained_roundtrip plain_codec plain_codec_laws plain-BytesLaws "both" (open_door ∷ stuck ∷ [])
      chain ran_chain

abbrev nonce : String
nonce = "abcdefghijklmnopqrstuvwx"

abbrev door : Interaction
door =
    or_else
      (new_cipher_interaction plain_codec sample_sealing (ok nonce) "say" "sesame" open_door stuck)
      look_around_interaction

ran_door :
    new_cipher_interaction plain_codec sample_sealing (ok nonce) "say" "sesame" open_door stuck
    ≡ ok door
unfolding new_cipher_interaction interaction_to_node
ran_door = refl

unseal_right_example :
    (sealed failure : String) × (door ≡ cipher "say" sealed failure false)
    × (unseal plain_codec sample_sealing sealed failure "sesame" ≡ ok (open_door, true))
unseal_right_example =
    unseal_right plain_codec plain_codec_laws plain-BytesLaws sample_sealing sample_sealing_laws
      nonce "say" "sesame" open_door stuck door refl ran_door

ok_injective : {a b : String} → Path (Res String) (ok a) (ok b) → a ≡ b
ok_injective h = cc

closed :
    (key bytes : String)
    → sample_sealing.scrypt_key "sesame" nonce ≡ ok key
    → sample_sealing.open_box "barley" nonce (sample_sealing.seal_box key nonce bytes) ≡ none
closed key bytes e =
    subst (λ k. after_prefix "barley" (k <> bytes) ≡ none) (ok_injective e)
      (ap (after_prefix "barley") (cons-append "s" "esame" bytes))

unseal_wrong_example :
    (sealed failure : String) × (door ≡ cipher "say" sealed failure false)
    × (unseal plain_codec sample_sealing sealed failure "barley" ≡ ok (stuck, false))
unseal_wrong_example =
    unseal_wrong plain_codec plain_codec_laws plain-BytesLaws sample_sealing sample_sealing_laws
      nonce "say" "sesame" "barley" "barley" open_door stuck door refl ran_door refl closed

abbrev asked : Option Command × String
asked = find_command default_command_list "help  location "

ran_asked :
    find_command default_command_list "help  location "
    ≡ (some (new_command "help" "help"), "location")
unfolding find_command parse
ran_asked = refl

begins_look :
    after_prefix (parse (new_command "player-inventory-list" "look in bag")) "look in bag now"
    ≡ some " now"
unfolding parse
begins_look = refl

none_before : NoPrefix "look in bag now" (new_command "create-object" "create object" ∷ [])
unfolding parse
none_before = (refl, tt)
