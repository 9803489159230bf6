-- ===== src/Game/Interactions/Sealed/Opened.antt =====
-- What a chained or a sealed interaction holds comes out again.

use package.text.Mathlib.TextLemmas.{nil-append, cons-append}
use jasons_game.Base.{
  ℕ, zero, suc, String, ◌≡◌, refl, sym, ◌∙◌, ap, true, false, Option, none, some, List, [], ◌∷◌,
  ◌<>◌,
}
use jasons_game.Network.{Res, ok, err, panic, wrapped}
use jasons_game.Game.Interactions.Types.{Interaction, chained, cipher}
use jasons_game.Game.Interactions.Encoding.{
  Codec, CodecLaws, BytesLaws, interaction_to_node, interaction_from_bytes, bytes-roundtrip,
}
use jasons_game.Game.Interactions.Sealed.{
  Sealing, cipher_nonce_length, split_bytes, then_of, encoded, encode_all, new_chained_interaction,
  interactions, new_cipher_interaction, cipher_key, opened, unseal, unsealed,
}

pub record SealingLaws (sealing : Sealing) : Type 0 where
  pub open-seal :
      (key nonce bytes : String)
      → sealing.open_box key nonce (sealing.seal_box key nonce bytes) ≡ some bytes

pub then_of-eq-ok {ℓ} :
    {A B : Type ℓ} (r : Res A) (f : A → Res B) {b : B}
    → then_of r f ≡ ok b
    → (a : A) × (r ≡ ok a) × (f a ≡ ok b)
then_of-eq-ok (ok a) f h = (a, refl, h)
then_of-eq-ok (err e) f h = cc
then_of-eq-ok panic f h = cc

ok_injective {ℓ} : {A : Type ℓ} {a b : A} → Path (Res A) (ok a) (ok b) → a ≡ b
ok_injective h = cc

pair_injective :
    {a b c d : String}
    → Path (Option (String × String)) (some (a, b)) (some (c, d))
    → (a ≡ c) × (b ≡ d)
pair_injective h = (cc, cc)

wrapped-eq {ℓ} : {A : Type ℓ} (s : String) (r : Res A) (a : A) → wrapped s r ≡ ok a → r ≡ ok a
wrapped-eq s (ok b) a h = h
wrapped-eq s (err e) a h = cc
wrapped-eq s panic a h = cc

-- A prefix of n bytes is split off again.
split_bytes-append :
    (n : ℕ) (s a b : String) → split_bytes n s ≡ some (a, "") → split_bytes n (s <> b) ≡ some (a, b)
split_bytes-append zero s a b h =
    let (e, e') = pair_injective h in
    ap (λ (x : String). some ("", x <> b)) e'
    ∙ ap (λ (x : String). some (x, "" <> b)) e
    ∙ ap (λ (x : String). some (a, x)) (nil-append b)
split_bytes-append (suc n) String.[] a b h = cc
split_bytes-append (suc n) (String.◌∷◌ c s) a b h =
    ap (split_bytes (suc n)) (cons-append c s b)
    ∙ go (split_bytes n s) refl (split_bytes-append n s)
  where
    go :
        (r : Option (String × String))
        → split_bytes n s ≡ r
        → ((x y : String) → split_bytes n s ≡ some (x, "") → split_bytes n (s <> y) ≡ some (x, y))
        → split_bytes (suc n) (String.◌∷◌ c (s <> b)) ≡ some (a, b)
    go none e again = absurd (let h' = rw e at h in cc)
    go (some (x, y)) e again =
        let (f, g) = pair_injective (rw e at h) in
        rw (again x b (e ∙ ap (λ (z : String). some (x, z)) g)) (ap (λ (z : String). some (z, b)) f)

module _ (codec : Codec) (laws : CodecLaws codec) (bytes_laws : BytesLaws codec) where
  -- Bytes that an encoding gave decode to the interaction.
  decoded_again :
      (what : String) (i : Interaction) (bytes : String)
      → encoded codec what i ≡ ok bytes
      → interaction_from_bytes codec bytes ≡ ok i
  unfolding encoded
  decoded_again what i bytes h =
      let (node, h1, h2) = then_of-eq-ok (wrapped what (interaction_to_node codec i)) _ h in
      ap (interaction_from_bytes codec) (sym (ok_injective h2))
      ∙ bytes-roundtrip codec laws bytes_laws i node
          (wrapped-eq what (interaction_to_node codec i) node h1)

  encode_all-roundtrip :
      (is : List Interaction) (bs : List String)
      → encode_all codec is ≡ ok bs
      → interactions codec bs ≡ ok is
  unfolding encode_all interactions
  encode_all-roundtrip [] bs h = ap (interactions codec) (sym (ok_injective h))
  encode_all-roundtrip (i ∷ is) bs h =
      let (b, h1, h2) = then_of-eq-ok (encoded codec _ i) _ h in
      let (rest, h3, h4) = then_of-eq-ok (encode_all codec is) _ h2 in
      ap (interactions codec) (sym (ok_injective h4))
      ∙ rw (decoded_again _ i b h1, encode_all-roundtrip is rest h3) refl

  -- Under the laws of the encoding, a chained interaction that was made successfully gives its
  -- interactions back, in their order.
  pub chained_roundtrip :
      (command : String) (is : List Interaction) (c : Interaction)
      → new_chained_interaction codec command is ≡ ok c
      → (bs : List String) × (c ≡ chained command bs false) × (interactions codec bs ≡ ok is)
  unfolding new_chained_interaction
  chained_roundtrip command is c h =
      let (bs, h1, h2) = then_of-eq-ok (encode_all codec is) _ h in
      (bs, sym (ok_injective h2), encode_all-roundtrip is bs h1)

  module _ (sealing : Sealing) (sealing_laws : SealingLaws sealing) where
    open sealing use {scrypt_key, seal_box, open_box}

    -- The bytes of a new sealed interaction: a nonce, a box of the one, the encoding of the other.
    pub record Sealed (secret nonce : String) (i f c : Interaction) (command : String)
        : Type 0 where
      pub key : String
      pub box_bytes : String
      pub failure_bytes : String
      pub keyed : cipher_key codec sealing secret nonce ≡ ok key
      pub is_cipher : c ≡ cipher command (nonce <> seal_box key nonce box_bytes) failure_bytes false
      pub inside : interaction_from_bytes codec box_bytes ≡ ok i
      pub outside : interaction_from_bytes codec failure_bytes ≡ ok f

    pub new_cipher-Sealed :
        (nonce command secret : String) (i f c : Interaction)
        → new_cipher_interaction codec sealing (ok nonce) command secret i f ≡ ok c
        → Sealed secret nonce i f c command
    unfolding new_cipher_interaction
    new_cipher-Sealed nonce command secret i f c h =
        let (box_bytes, h1, h2) = then_of-eq-ok (encoded codec _ i) _ h in
        let (failure_bytes, h3, h4) = then_of-eq-ok (encoded codec _ f) _ h2 in
        let (key, h5, h6) = then_of-eq-ok (cipher_key codec sealing secret nonce) _ h4 in
        record {
          key = key;
          box_bytes = box_bytes;
          failure_bytes = failure_bytes;
          keyed = h5;
          is_cipher = sym (ok_injective h6);
          inside = decoded_again _ i box_bytes h1;
          outside = decoded_again _ f failure_bytes h3;
        }

    -- The nonce of 24 bytes is found again in front of the box.
    nonce_split :
        (nonce box : String)
        → split_bytes cipher_nonce_length nonce ≡ some (nonce, "")
        → split_bytes cipher_nonce_length (nonce <> box) ≡ some (nonce, box)
    nonce_split nonce box h = split_bytes-append cipher_nonce_length nonce nonce box h

    unseal-opened :
        (nonce box failure secret key : String)
        → split_bytes cipher_nonce_length nonce ≡ some (nonce, "")
        → cipher_key codec sealing secret nonce ≡ ok key
        → unseal codec sealing (nonce <> box) failure secret
          ≡ opened codec sealing (open_box key nonce box) failure
    unfolding unseal unsealed
    unseal-opened nonce box failure secret key n k =
        ap (λ o. unsealed codec sealing o failure secret) (nonce_split nonce box n)
        ∙ ap (λ r. then_of r (λ x. opened codec sealing (open_box x nonce box) failure)) k

    -- Under the laws of the encoding and of secretbox, and with a nonce of 24 bytes, an interaction
    -- that was sealed successfully is unsealed by its secret, with success.
    pub unseal_right :
        (nonce command secret : String) (i f c : Interaction)
        → split_bytes cipher_nonce_length nonce ≡ some (nonce, "")
        → new_cipher_interaction codec sealing (ok nonce) command secret i f ≡ ok c
        → (sealed failure : String) × (c ≡ cipher command sealed failure false)
          × (unseal codec sealing sealed failure secret ≡ ok (i, true))
    unfolding opened
    unseal_right nonce command secret i f c n h =
        let s = new_cipher-Sealed nonce command secret i f c h in
        (
          nonce <> seal_box s.key nonce s.box_bytes,
          s.failure_bytes,
          s.is_cipher,
          unseal-opened nonce (seal_box s.key nonce s.box_bytes) s.failure_bytes secret s.key n
                s.keyed
              ∙ ap (λ o. opened codec sealing o s.failure_bytes)
                  (sealing_laws.open-seal s.key nonce s.box_bytes)
              ∙ ap (λ r. then_of (wrapped "error decoding interaction" r) (λ x. ok (x, true)))
                  s.inside,
        )

    -- Under the laws of the encoding and of secretbox, and with a nonce of 24 bytes, a guess whose
    -- key exists and opens no box that was closed with the secret's key gives the failure
    -- interaction, without success.
    pub unseal_wrong :
        (nonce command secret guess guessed : String) (i f c : Interaction)
        → split_bytes cipher_nonce_length nonce ≡ some (nonce, "")
        → new_cipher_interaction codec sealing (ok nonce) command secret i f ≡ ok c
        → scrypt_key guess nonce ≡ ok guessed
        → ((key bytes : String)
            → scrypt_key secret nonce ≡ ok key
            → open_box guessed nonce (seal_box key nonce bytes) ≡ none)
        → (sealed failure : String) × (c ≡ cipher command sealed failure false)
          × (unseal codec sealing sealed failure guess ≡ ok (f, false))
    unfolding opened
    unseal_wrong nonce command secret guess guessed i f c n h k closed =
        let s = new_cipher-Sealed nonce command secret i f c h in
        (
          nonce <> seal_box s.key nonce s.box_bytes,
          s.failure_bytes,
          s.is_cipher,
          unseal-opened nonce (seal_box s.key nonce s.box_bytes) s.failure_bytes guess guessed n
                (ap (wrapped "error generating secret key") k)
              ∙ ap (λ o. opened codec sealing o s.failure_bytes)
                  (closed s.key s.box_bytes (wrapped-eq _ (scrypt_key secret nonce) s.key s.keyed))
              ∙ ap (λ r. then_of (wrapped "error decoding interaction" r) (λ x. ok (x, false)))
                  s.outside,
        )
