-- ===== src/Game/Interactions/Sealed/Unsealed.antt =====
-- game/interactions.go: what is decoded of the bytes that an interaction holds is smaller than it.
use jasons_game.Base.{
  subst, ℕ, zero, suc, ◌+◌, ◌<◌, ◌≤◌, String, ◌≡◌, refl, ap, Bool, Option, none, some, List, [],
  ◌∷◌, arith, byte_count, All,
}
use jasons_game.Network.{ok, wrapped, wrapped-eq-ok}
use jasons_game.Game.Interactions.Types.{Interaction}
use jasons_game.Game.Interactions.Encoding.{Codec, interaction_from_bytes}
use jasons_game.Game.Interactions.Sealed.{
  Sealing, cipher_nonce_length, split_bytes, interactions, cipher_key, opened, unseal, unsealed,
}
use jasons_game.Game.Interactions.Sealed.Opened.{then_of-eq-ok}
use jasons_game.Game.Interactions.Sealed.Sizes.{
  bytes_of_all, held_size, SizeLaws, from_bytes-held_size,
}

split_bytes-byte_count :
    (n : ℕ) (s a b : String) → split_bytes n s ≡ some (a, b) → byte_count b ≤ byte_count s
split_bytes-byte_count zero s a b h = let same : s ≡ b = cc in omega (arith, ap byte_count same)
split_bytes-byte_count (suc n) String.[] a b h = cc
split_bytes-byte_count (suc n) (String.◌∷◌ c s) a b h =
    go (split_bytes n s) refl (split_bytes-byte_count n s)
  where
    go :
        (r : Option (String × String))
        → split_bytes n s ≡ r
        → ((x y : String) → split_bytes n s ≡ some (x, y) → byte_count y ≤ byte_count s)
        → byte_count b ≤ suc (byte_count s)
    go none e below = absurd (let h' = rw e at h in cc)
    go (some (x, y)) e below =
        let h' = rw e at h in
        let same : y ≡ b = cc in omega (arith, below x y e, ap byte_count same)

module _ (codec : Codec) (sealing : Sealing) (laws : SizeLaws codec sealing) where
  -- What decodes under an error of its own decodes.
  decoded-held_size :
      (what b : String) (i : Interaction)
      → wrapped what (interaction_from_bytes codec b) ≡ ok i
      → held_size i < byte_count b
  decoded-held_size what b i h =
      from_bytes-held_size codec sealing laws b i
        (wrapped-eq-ok what (interaction_from_bytes codec b) h)

  held_below :
      {m n : ℕ} (is : List Interaction)
      → m ≤ n
      → All (λ i. held_size i < m) is
      → All (λ i. held_size i < n) is
  held_below [] le h = tt
  held_below (i ∷ is) le (h, hs) = (omega (arith, le, h), held_below is le hs)

  -- The chained interactions hold less than the bytes of all.
  pub interactions-held_size :
      (bs : List String) (is : List Interaction)
      → interactions codec bs ≡ ok is
      → All (λ i. held_size i < bytes_of_all bs) is
  unfolding interactions
  interactions-held_size [] [] h = tt
  interactions-held_size [] (i ∷ is) h = absurd cc
  interactions-held_size (b ∷ bs) is h =
      let (i, e, h1) =
        then_of-eq-ok (wrapped "error decoding interaction" (interaction_from_bytes codec b)) _ h in
      let (js, e', h2) = then_of-eq-ok (interactions codec bs) _ h1 in
      let same : i ∷ js ≡ is = cc in
      let first = decoded-held_size _ b i e in
      subst (All (λ x. held_size x < byte_count b + bytes_of_all bs)) same
        (omega (arith, first), held_below js (omega arith) (interactions-held_size bs js e'))

  opened-held_size :
      (o : Option String) (failure_bytes : String) (q : Interaction × Bool) (n : ℕ)
      → ((bytes : String) → o ≡ some bytes → byte_count bytes ≤ n)
      → opened codec sealing o failure_bytes ≡ ok q
      → held_size q.0 < n + byte_count failure_bytes
  unfolding opened
  opened-held_size (some bytes) failure_bytes q n below h =
      let (i, e, h1) =
        then_of-eq-ok (wrapped "error decoding interaction" (interaction_from_bytes codec bytes)) _
          h in
      let same : i ≡ q.0 = cc in
      omega (arith, below bytes refl, decoded-held_size _ bytes i e, ap held_size same)
  opened-held_size none failure_bytes q n below h =
      let (i, e, h1) =
        then_of-eq-ok
          (wrapped "error decoding interaction" (interaction_from_bytes codec failure_bytes)) _ h in
      let same : i ≡ q.0 = cc in
      omega (arith, decoded-held_size _ failure_bytes i e, ap held_size same)

  -- An unsealed interaction holds less than the sealed bytes and those of the failure.
  pub unseal-held_size :
      (sealed_bytes failure_bytes secret : String) (q : Interaction × Bool)
      → unseal codec sealing sealed_bytes failure_bytes secret ≡ ok q
      → held_size q.0 < byte_count sealed_bytes + byte_count failure_bytes
  unfolding unseal unsealed
  unseal-held_size sealed_bytes failure_bytes secret q h =
      go (split_bytes cipher_nonce_length sealed_bytes) refl
    where
      go :
          (o : Option (String × String))
          → split_bytes cipher_nonce_length sealed_bytes ≡ o
          → held_size q.0 < byte_count sealed_bytes + byte_count failure_bytes
      go none e = absurd (let h' = rw (e, unseal) at h in cc)
      go (some (nonce, box)) e =
          let (key, e', h1) =
            then_of-eq-ok (cipher_key codec sealing secret nonce) _ (rw (e, unseal) at h) in
          let shorter = split_bytes-byte_count cipher_nonce_length sealed_bytes nonce box e in
          let below =
            opened-held_size (sealing.open_box key nonce box) failure_bytes q (byte_count box)
              (λ bytes e2. laws.open_box-byte_count key nonce box bytes e2) h1 in
          omega (arith, shorter, below)
