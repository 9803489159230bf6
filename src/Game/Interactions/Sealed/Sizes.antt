-- ===== src/Game/Interactions/Sealed/Sizes.antt =====
-- game/interactions.go: the sizes of the interactions that others hold, which are smaller.
use jasons_game.Base.{
  ℕ, ◌+◌, ◌<◌, ◌≤◌, String, ◌≡◌, refl, ap, Bool, true, false, Option, none, some, List, [], ◌∷◌,
  arith, lookup, byte_count, Bool-cases, inl, inr, ◌==◌,
}
use jasons_game.Network.{
  Value, Values, Fields, null, text, bool, number, list, object, link, nil, cons, end, field,
  entries, Res, ok, err, panic, wrapped, wrapped-eq-ok,
}
use jasons_game.Game.Interactions.Types.{
  Interaction, respond, change_location, change_named_location, pick_up_object, drop_object,
  create_object, get_tree_value, set_tree_value, chained, cipher, build_portal_interaction,
  delete_portal_interaction, look_around_interaction,
}
use jasons_game.Game.Interactions.Encoding.{
  Codec, interaction_of_url, interaction_from_stored_map, interaction_from_value,
  interaction_from_bytes,
}
use jasons_game.Game.Interactions.Sealed.{Sealing}

abbrev pub bytes_of_all : List String → ℕ
bytes_of_all [] = 0
bytes_of_all (b ∷ bs) = byte_count b + bytes_of_all bs

-- The length of the bytes that an interaction holds others in.
abbrev pub held_size : Interaction → ℕ
held_size (respond _ _ _) = 0
held_size (change_location _ _ _) = 0
held_size (change_named_location _ _ _) = 0
held_size (pick_up_object _ _ _) = 0
held_size (drop_object _ _ _) = 0
held_size (create_object _ _ _ _ _) = 0
held_size (get_tree_value _ _ _ _) = 0
held_size (set_tree_value _ _ _ _ _) = 0
held_size (chained _ bs _) = bytes_of_all bs
held_size (cipher _ sealed failure _) = byte_count sealed + byte_count failure
held_size build_portal_interaction = 0
held_size delete_portal_interaction = 0
held_size look_around_interaction = 0

-- The length of the texts of a value.
abbrev mutual
  pub text_size : Value → ℕ
  text_size null = 0
  text_size (text s) = byte_count s
  text_size (bool _) = 0
  text_size (number _) = 0
  text_size (list vs) = text_size_of vs
  text_size (object m) = text_size_in m
  text_size (link _) = 0

  pub text_size_of : Values → ℕ
  text_size_of nil = 0
  text_size_of (cons v vs) = text_size v + text_size_of vs

  pub text_size_in : Fields → ℕ
  text_size_in end = 0
  text_size_in (field k v rest) = text_size v + text_size_in rest

-- CBOR stores each text with a head of its own; a box is not shorter than what it seals.
pub record SizeLaws (codec : Codec) (sealing : Sealing) : Type 0 where
  pub of_bytes-text_size :
      (b : String) (v : Value) → codec.of_bytes b ≡ ok v → text_size v < byte_count b
  pub of_value-held_size :
      (url : String) (v : Value) (i : Interaction)
      → codec.of_value url v ≡ ok i
      → held_size i ≤ text_size v
  pub open_box-byte_count :
      (key nonce box bytes : String)
      → sealing.open_box key nonce box ≡ some bytes
      → byte_count bytes ≤ byte_count box

lookup-text_size :
    (k : String) (m : Fields) (v : Value)
    → lookup k (entries m) ≡ some v
    → text_size v ≤ text_size_in m
lookup-text_size k end v h = cc
lookup-text_size k (field j w rest) v h = elim (Bool-cases (j == k)) [
  | inl e ↦ let same : w ≡ v = (let h' = rw e at h in cc) in omega (arith, ap text_size same)
  | inr e ↦ let below = lookup-text_size k rest v (rw e at h) in omega (arith, below)
]

module _ (codec : Codec) (sealing : Sealing) (laws : SizeLaws codec sealing) where
  of_url-held_size :
      (url : String) (m : Fields) (i : Interaction)
      → interaction_of_url codec url (lookup "value" (entries m)) ≡ ok i
      → held_size i ≤ text_size_in m
  unfolding interaction_of_url
  of_url-held_size url m i h = go (url == "") (lookup "value" (entries m)) refl refl
    where
      go :
          (b : Bool) (o : Option Value)
          → (url == "") ≡ b
          → lookup "value" (entries m) ≡ o
          → held_size i ≤ text_size_in m
      go true o e e' = absurd (let h' = rw e at h in cc)
      go false none e e' = absurd (let h' = rw (e, e') at h in cc)
      go false (some v) e e' =
          let h' = rw (e, e') at h in
          cast (codec.empty_any url) h' (lookup-text_size "value" m v e')
        where
          cast :
              (r : Res (Unit {0}))
              → (elim (wrapped "protobuf type not found" r) as (λ _. Res Interaction) [
                | ok _ ↦ wrapped "error casting interaction" (codec.of_value url v)
                | err e ↦ err e
                | panic ↦ panic
              ])
                ≡ ok i
              → text_size v ≤ text_size_in m
              → held_size i ≤ text_size_in m
          cast (ok _) k below = omega (
            arith,
            below,
            laws.of_value-held_size url v i (wrapped-eq-ok _ (codec.of_value url v) k),
          )
          cast (err x) k below = absurd cc
          cast panic k below = absurd cc

  stored-held_size :
      (m : Fields) (i : Interaction)
      → interaction_from_stored_map codec m ≡ ok i
      → held_size i ≤ text_size_in m
  unfolding interaction_from_stored_map
  stored-held_size m i h = go (lookup "typeUrl" (entries m)) refl
    where
      go : (o : Option Value) → lookup "typeUrl" (entries m) ≡ o → held_size i ≤ text_size_in m
      go none e = absurd (let h' = rw (e, interaction_from_stored_map) at h in cc)
      go (some (text url)) e = of_url-held_size url m i (rw (e, interaction_from_stored_map) at h)
      go (some null) e = absurd (let h' = rw (e, interaction_from_stored_map) at h in cc)
      go (some (bool _)) e = absurd (let h' = rw (e, interaction_from_stored_map) at h in cc)
      go (some (number _)) e = absurd (let h' = rw (e, interaction_from_stored_map) at h in cc)
      go (some (list _)) e = absurd (let h' = rw (e, interaction_from_stored_map) at h in cc)
      go (some (object _)) e = absurd (let h' = rw (e, interaction_from_stored_map) at h in cc)
      go (some (link _)) e = absurd (let h' = rw (e, interaction_from_stored_map) at h in cc)

  from_value-held_size :
      (v : Value) (i : Interaction)
      → interaction_from_value codec v ≡ ok i
      → held_size i ≤ text_size v
  unfolding interaction_from_value
  from_value-held_size (object m) i h = stored-held_size m i h
  from_value-held_size null i h = absurd cc
  from_value-held_size (text _) i h = absurd cc
  from_value-held_size (bool _) i h = absurd cc
  from_value-held_size (number _) i h = absurd cc
  from_value-held_size (list _) i h = absurd cc
  from_value-held_size (link _) i h = absurd cc

  -- A decoded interaction holds less than the bytes that it was decoded from.
  pub from_bytes-held_size :
      (b : String) (i : Interaction)
      → interaction_from_bytes codec b ≡ ok i
      → held_size i < byte_count b
  unfolding interaction_from_bytes
  from_bytes-held_size b i h = go (codec.of_bytes b) refl
    where
      go : (r : Res Value) → codec.of_bytes b ≡ r → held_size i < byte_count b
      go (ok v) e =
          let h' = rw (e, interaction_from_bytes) at h in
          omega (arith, laws.of_bytes-text_size b v e, from_value-held_size v i h')
      go (err x) e = absurd (let h' = rw (e, interaction_from_bytes) at h in cc)
      go panic e = absurd (let h' = rw (e, interaction_from_bytes) at h in cc)
