-- ===== src/Game/Interactions/Sealed.antt =====
-- game/interactions.go: the interactions that hold other interactions as bytes, `ChainedInteraction`
-- and `CipherInteraction`. Bytes are texts; scrypt, secretbox and the random source are parameters.
pub mod Opened
pub mod Sizes
pub mod Unsealed
use Prim.Native.String
use jasons_game.Base.{
  ℕ, zero, suc, String, Bool, true, false, Option, none, some, List, [], ◌∷◌, ◌<>◌,
}
use jasons_game.Network.{Res, ok, err, panic, wrapped}
use jasons_game.Game.Interactions.Types.{Interaction, chained, cipher}
use jasons_game.Game.Interactions.Encoding.{Codec, interaction_to_node, interaction_from_bytes}

-- golang.org/x/crypto: scrypt.Key with the parameters of `cipherKey`, secretbox.Seal without the
-- prefix that it appends to, secretbox.Open.
pub record Sealing : Type 0 where
  pub scrypt_key : String → String → Res String
  pub seal_box : String → String → String → String
  pub open_box : String → String → String → Option String

abbrev pub cipher_nonce_length : ℕ
cipher_nonce_length = 24

-- b[:n] and b[n:] of bytes; none where the slice bounds are out of range
abbrev pub split_bytes : ℕ → String → Option (String × String)
split_bytes zero s = some ("", s)
split_bytes (suc n) String.[] = none
split_bytes (suc n) (String.◌∷◌ c s) =
    let rest = split_bytes n s in elim rest [ none ↦ none | some (a, b) ↦ some (String.◌∷◌ c a, b) ]

abbrev pub then_of {ℓ} : {A B : Type ℓ} → Res A → (A → Res B) → Res B
then_of (ok a) f = f a
then_of (err e) f = err e
then_of panic f = panic

module _ (codec : Codec) where
  open codec use {to_bytes}

  -- the node's RawData
  unfoldable pub encoded : String → Interaction → Res String
  encoded what i = then_of (wrapped what (interaction_to_node codec i)) (λ node. ok (to_bytes node))

  unfoldable pub encode_all : List Interaction → Res (List String)
  unfolding encoded
  encode_all [] = ok []
  encode_all (i ∷ is) =
      let rest = encode_all is in
      then_of (encoded "interaction could not be encoded" i) (λ b. then_of rest (λ bs. ok (b ∷ bs)))

  -- NewChainedInteraction
  unfoldable pub new_chained_interaction : String → List Interaction → Res Interaction
  unfolding encode_all
  new_chained_interaction command is = then_of (encode_all is) (λ bs. ok (chained command bs false))

  -- ChainedInteraction.Interactions
  unfoldable pub interactions : List String → Res (List Interaction)
  interactions [] = ok []
  interactions (b ∷ bs) =
      let rest = interactions bs in
      then_of (wrapped "error decoding interaction" (interaction_from_bytes codec b))
        (λ i. then_of rest (λ is. ok (i ∷ is)))

  module _ (sealing : Sealing) where
    open sealing use {scrypt_key, seal_box, open_box}

    abbrev pub cipher_key : String → String → Res String
    cipher_key secret salt = wrapped "error generating secret key" (scrypt_key secret salt)

    -- NewCipherInteraction; the nonce is what rand.Reader gives
    unfoldable pub new_cipher_interaction :
        Res String → String → String → Interaction → Interaction → Res Interaction
    unfolding encoded
    new_cipher_interaction random command secret to_seal failure =
        then_of (encoded "interactionToSeal could not be encoded" to_seal) (λ seal_bytes.
          then_of (encoded "failureInteraction could not be encoded" failure) (λ failure_bytes.
            then_of random (λ nonce. then_of (cipher_key secret nonce) (λ key.
              ok (cipher command (nonce <> seal_box key nonce seal_bytes) failure_bytes false)))))

    -- the interaction, and whether the box opened
    unfoldable pub opened : Option String → String → Res (Interaction × Bool)
    opened (some bytes) failure_bytes =
        then_of (wrapped "error decoding interaction" (interaction_from_bytes codec bytes))
          (λ i. ok (i, true))
    opened none failure_bytes =
        then_of (wrapped "error decoding interaction" (interaction_from_bytes codec failure_bytes))
          (λ i. ok (i, false))

    -- after the nonce and the box were sliced off
    unfoldable pub unsealed : Option (String × String) → String → String → Res (Interaction × Bool)
    unfolding opened
    unsealed none failure_bytes secret = panic
    unsealed (some (nonce, box)) failure_bytes secret =
        then_of (cipher_key secret nonce) (λ key. opened (open_box key nonce box) failure_bytes)

    -- CipherInteraction.Unseal, on the two byte fields
    unfoldable pub unseal : String → String → String → Res (Interaction × Bool)
    unfolding unsealed
    unseal sealed_bytes failure_bytes secret =
        unsealed (split_bytes cipher_nonce_length sealed_bytes) failure_bytes secret
