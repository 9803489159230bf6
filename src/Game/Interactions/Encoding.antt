-- ===== src/Game/Interactions/Encoding.antt =====
-- The encoding of interactions. Protobuf's registry of types, the typecaster and CBOR stand behind
-- `Codec`; `CodecLaws` is what the game relies on of them.
use jasons_game.Base.{
  arith, String, ◌≡◌, refl, false, Option, none, some, lookup, ◌==◌, if◌then◌else◌,
}
use jasons_game.Network.{
  Value, null, text, bool, number, list, object, link, Fields, end, field, entries, as_text, Res,
  ok, err, panic, message, wrapped,
}
use jasons_game.Game.Interactions.Types.{Interaction}

pub record Codec : Type 0 where
  -- ptypes.MarshalAny(i).GetTypeUrl(); an error for a type that is not registered
  pub type_url : Interaction → Res String
  -- the interaction as CBOR stores it; the messages of game/types.proto can all be wrapped
  pub to_value : Interaction → Value
  -- ptypes.EmptyAny: an error for a type that is not registered
  pub empty_any : String → Res (Unit {0})
  -- typecaster.ToType into the type of the url
  pub of_value : String → Value → Res Interaction
  -- safewrap's WrapObject(…).RawData() and Decode
  pub to_bytes : Value → String
  pub of_bytes : String → Res Value

pub record CodecLaws (codec : Codec) : Type 0 where
  pub url_filled :
      (i : Interaction) (url : String) → codec.type_url i ≡ ok url → (url == "") ≡ false
  pub known_url :
      (i : Interaction) (url : String) → codec.type_url i ≡ ok url → codec.empty_any url ≡ ok tt
  pub of_value-to_value :
      (i : Interaction) (url : String)
      → codec.type_url i ≡ ok url
      → codec.of_value url (codec.to_value i) ≡ ok i

module _ (codec : Codec) where
  open codec use {type_url, to_value, empty_any, of_value, to_bytes, of_bytes}

  -- an any-like map, with the type beside the value
  unfoldable pub interaction_to_node : Interaction → Res Value
  interaction_to_node i = elim (wrapped "error turning into any" (type_url i)) [
    | ok url ↦ ok (object (field "typeUrl" (text url) (field "value" (to_value i) end)))
    | err e ↦ err e
    | panic ↦ panic
  ]

  -- the stored value, under a type that is known to be a text
  unfoldable pub interaction_of_url : String → Option Value → Res Interaction
  interaction_of_url url stored =
      if url == ""
      then err (message "interaction was not stored with protobuf typeUrl")
      else elim stored [
        | none ↦ err (message "interaction was not stored with protobuf typeUrl")
        | some value ↦ elim (wrapped "protobuf type not found" (empty_any url)) [
          | ok _ ↦ wrapped "error casting interaction" (of_value url value)
          | err e ↦ err e
          | panic ↦ panic
        ]
      ]

  unfoldable pub interaction_from_stored_map : Fields → Res Interaction
  unfolding interaction_of_url
  interaction_from_stored_map m = elim (lookup "typeUrl" (entries m)) [
    | none ↦ err (message "interaction was not stored with protobuf typeUrl")
    | some url_value ↦ elim (as_text url_value) [
      | none ↦ panic
      | some url ↦ interaction_of_url url (lookup "value" (entries m))
    ]
  ]

  -- `val.(map[string]interface{})`
  unfoldable pub interaction_from_value : Value → Res Interaction
  unfolding interaction_from_stored_map
  interaction_from_value (object m) = interaction_from_stored_map m
  interaction_from_value null = panic
  interaction_from_value (text _) = panic
  interaction_from_value (bool _) = panic
  interaction_from_value (number _) = panic
  interaction_from_value (list _) = panic
  interaction_from_value (link _) = panic

  unfoldable pub interaction_from_bytes : String → Res Interaction
  unfolding interaction_from_value
  interaction_from_bytes bytes =
      elim (wrapped "error decoding interaction cbor bytes" (of_bytes bytes)) [
        | ok v ↦ interaction_from_value v
        | err e ↦ err e
        | panic ↦ panic
      ]

-- CBOR decodes the node of an interaction to itself.
pub record BytesLaws (codec : Codec) : Type 0 where
  pub of_bytes-to_bytes :
      (i : Interaction) (v : Value)
      → interaction_to_node codec i ≡ ok v
      → codec.of_bytes (codec.to_bytes v) ≡ ok v

-- What is encoded is decoded to itself.
module _ (codec : Codec) (laws : CodecLaws codec) where
  -- Under the laws of the encoding, the stored value of an interaction that was encoded is read as
  -- the interaction.
  pub stored-roundtrip :
      (i : Interaction) (v : Value)
      → interaction_to_node codec i ≡ ok v
      → interaction_from_value codec v ≡ ok i
  unfolding interaction_to_node interaction_from_value
  stored-roundtrip i v h = go (codec.type_url i) refl
    where
      go : (r : Res String) → codec.type_url i ≡ r → interaction_from_value codec v ≡ ok i
      go (ok url) e = ground (
        arith,
        h,
        e,
        laws.url_filled i url e,
        laws.known_url i url e,
        laws.of_value-to_value i url e,
      )
      go (err x) e = ground (arith, h, e)
      go panic e = ground (arith, h, e)

  module _ (bytes : BytesLaws codec) where
    -- Under the laws of the encoding, the bytes of an interaction that was encoded decode to the
    -- interaction.
    pub bytes-roundtrip :
        (i : Interaction) (v : Value)
        → interaction_to_node codec i ≡ ok v
        → interaction_from_bytes codec (codec.to_bytes v) ≡ ok i
    unfolding interaction_from_bytes
    bytes-roundtrip i v h =
        rw (bytes.of_bytes-to_bytes i v h, interaction_from_bytes) (stored-roundtrip i v h)
