-- ===== src/Samples/Codecs.antt =====
-- Concrete encodings of interactions and portals, with the laws that are assumed of them.
use jasons_game.Base.{
  String, ◌≡◌, refl, sym, ap, subst, Bool, true, false, [], ◌∷◌, ◌<>◌, ◌==◌, if◌then◌else◌, ◌&&◌,
  not, arith, eq_iff, Bool-cases, inl, inr,
}
use jasons_game.Network.{
  Value, null, text, bool, number, list, object, link, field, end, walk, Res, ok, err, message,
}
use jasons_game.Game.Interactions.{
  Interaction, respond, change_location, change_named_location, pick_up_object, drop_object,
  create_object, get_tree_value, set_tree_value, chained, cipher, build_portal_interaction,
  delete_portal_interaction, look_around_interaction, Codec, CodecLaws, BytesLaws,
  interaction_to_node,
}
use jasons_game.Game.Interactions.Sealed.{Sealing}
use jasons_game.Game.Interactions.Sealed.Opened.{SealingLaws}
use jasons_game.Game.Commands.{after_prefix}
use jasons_game.Game.Commands.Found.{after_prefix-append}
use jasons_game.Game.LocationTree.{PortalCodec, PortalCodecLaws}

abbrev text_in : Value → String
text_in (text s) = s
text_in null = ""
text_in (bool _) = ""
text_in (number _) = ""
text_in (list _) = ""
text_in (object _) = ""
text_in (link _) = ""

abbrev bool_in : Value → Bool
bool_in (bool b) = b
bool_in null = false
bool_in (text _) = false
bool_in (number _) = false
bool_in (list _) = false
bool_in (object _) = false
bool_in (link _) = false

abbrev text_at : String → Value → String
text_at k v = text_in (walk (k ∷ []) v)

abbrev bool_at : String → Value → Bool
bool_at k v = bool_in (walk (k ∷ []) v)

abbrev url_of : Interaction → Res String
url_of (respond _ _ _) = ok "respond"
url_of (pick_up_object _ _ _) = ok "pick_up_object"
url_of (drop_object _ _ _) = ok "drop_object"
url_of (get_tree_value _ _ _ _) = ok "get_tree_value"
url_of (change_location _ _ _) = err (message "not registered")
url_of (change_named_location _ _ _) = err (message "not registered")
url_of (create_object _ _ _ _ _) = err (message "not registered")
url_of (set_tree_value _ _ _ _ _) = err (message "not registered")
url_of (chained _ _ _) = err (message "not registered")
url_of (cipher _ _ _ _) = err (message "not registered")
url_of build_portal_interaction = err (message "not registered")
url_of delete_portal_interaction = err (message "not registered")
url_of look_around_interaction = err (message "not registered")

abbrev three : String → String → Bool → Value
three c d h = object (field "command" (text c) (field "did" (text d) (field "hidden" (bool h) end)))

abbrev value_of : Interaction → Value
value_of (respond c d h) = three c d h
value_of (pick_up_object c d h) = three c d h
value_of (drop_object c d h) = three c d h
value_of (get_tree_value c d p h) = object (
    field "command" (text c)
      (field "did" (text d) (field "path" (text p) (field "hidden" (bool h) end))))
value_of (change_location _ _ _) = null
value_of (change_named_location _ _ _) = null
value_of (create_object _ _ _ _ _) = null
value_of (set_tree_value _ _ _ _ _) = null
value_of (chained _ _ _) = null
value_of (cipher _ _ _ _) = null
value_of build_portal_interaction = null
value_of delete_portal_interaction = null
value_of look_around_interaction = null

abbrev of_url : String → Value → Res Interaction
of_url url v =
    if url == "respond"
    then ok (respond (text_at "command" v) (text_at "did" v) (bool_at "hidden" v))
    else if url == "pick_up_object"
    then ok (pick_up_object (text_at "command" v) (text_at "did" v) (bool_at "hidden" v))
    else if url == "drop_object"
    then ok (drop_object (text_at "command" v) (text_at "did" v) (bool_at "hidden" v))
    else if url == "get_tree_value"
    then ok (
        get_tree_value (text_at "command" v) (text_at "did" v) (text_at "path" v)
          (bool_at "hidden" v))
    else err (message "not registered")

-- Four kinds of interactions are registered; nothing has bytes.
abbrev pub stored_codec : Codec
stored_codec = record {
  type_url = url_of;
  to_value = value_of;
  empty_any = λ url. ok tt;
  of_value = of_url;
  to_bytes = λ v. "";
  of_bytes = λ s. err (message "no bytes");
}

ok_injective : {A : Type 0} {a b : A} → Path (Res A) (ok a) (ok b) → a ≡ b
ok_injective h = cc

url_of-filled : (i : Interaction) (url : String) → url_of i ≡ ok url → (url == "") ≡ false
url_of-filled (respond _ _ _) url e = subst (λ u. (u == "") ≡ false) (ok_injective e) refl
url_of-filled (pick_up_object _ _ _) url e = subst (λ u. (u == "") ≡ false) (ok_injective e) refl
url_of-filled (drop_object _ _ _) url e = subst (λ u. (u == "") ≡ false) (ok_injective e) refl
url_of-filled (get_tree_value _ _ _ _) url e = subst (λ u. (u == "") ≡ false) (ok_injective e) refl
url_of-filled (change_location _ _ _) url e = cc
url_of-filled (change_named_location _ _ _) url e = cc
url_of-filled (create_object _ _ _ _ _) url e = cc
url_of-filled (set_tree_value _ _ _ _ _) url e = cc
url_of-filled (chained _ _ _) url e = cc
url_of-filled (cipher _ _ _ _) url e = cc
url_of-filled build_portal_interaction url e = cc
url_of-filled delete_portal_interaction url e = cc
url_of-filled look_around_interaction url e = cc

of_url-value_of :
    (i : Interaction) (url : String) → url_of i ≡ ok url → of_url url (value_of i) ≡ ok i
of_url-value_of (respond c d h) url e =
    ap (λ u. of_url u (value_of (respond c d h))) (sym (ok_injective e))
of_url-value_of (pick_up_object c d h) url e =
    ap (λ u. of_url u (value_of (pick_up_object c d h))) (sym (ok_injective e))
of_url-value_of (drop_object c d h) url e =
    ap (λ u. of_url u (value_of (drop_object c d h))) (sym (ok_injective e))
of_url-value_of (get_tree_value c d p h) url e =
    ap (λ u. of_url u (value_of (get_tree_value c d p h))) (sym (ok_injective e))
of_url-value_of (change_location _ _ _) url e = cc
of_url-value_of (change_named_location _ _ _) url e = cc
of_url-value_of (create_object _ _ _ _ _) url e = cc
of_url-value_of (set_tree_value _ _ _ _ _) url e = cc
of_url-value_of (chained _ _ _) url e = cc
of_url-value_of (cipher _ _ _ _) url e = cc
of_url-value_of build_portal_interaction url e = cc
of_url-value_of delete_portal_interaction url e = cc
of_url-value_of look_around_interaction url e = cc

pub stored_codec_laws : CodecLaws stored_codec
stored_codec_laws = record {
  url_filled = url_of-filled;
  known_url = λ i url e. refl;
  of_value-to_value = of_url-value_of;
}

-- Only visible answers of nothing are registered; their bytes are their commands.
abbrev plain_url : Interaction → Res String
plain_url (respond _ r h) =
    if r == "" && not h then ok "respond" else err (message "not registered")
plain_url (pick_up_object _ _ _) = err (message "not registered")
plain_url (drop_object _ _ _) = err (message "not registered")
plain_url (get_tree_value _ _ _ _) = err (message "not registered")
plain_url (change_location _ _ _) = err (message "not registered")
plain_url (change_named_location _ _ _) = err (message "not registered")
plain_url (create_object _ _ _ _ _) = err (message "not registered")
plain_url (set_tree_value _ _ _ _ _) = err (message "not registered")
plain_url (chained _ _ _) = err (message "not registered")
plain_url (cipher _ _ _ _) = err (message "not registered")
plain_url build_portal_interaction = err (message "not registered")
plain_url delete_portal_interaction = err (message "not registered")
plain_url look_around_interaction = err (message "not registered")

abbrev plain_value : Interaction → Value
plain_value (respond c _ _) = text c
plain_value (pick_up_object _ _ _) = null
plain_value (drop_object _ _ _) = null
plain_value (get_tree_value _ _ _ _) = null
plain_value (change_location _ _ _) = null
plain_value (change_named_location _ _ _) = null
plain_value (create_object _ _ _ _ _) = null
plain_value (set_tree_value _ _ _ _ _) = null
plain_value (chained _ _ _) = null
plain_value (cipher _ _ _ _) = null
plain_value build_portal_interaction = null
plain_value delete_portal_interaction = null
plain_value look_around_interaction = null

abbrev pub plain_codec : Codec
plain_codec = record {
  type_url = plain_url;
  to_value = plain_value;
  empty_any = λ url. ok tt;
  of_value = λ url v. ok (respond (text_in v) "" false);
  to_bytes = text_at "value";
  of_bytes = λ s. ok (object (field "typeUrl" (text "respond") (field "value" (text s) end)));
}

plain_url-filled : (i : Interaction) (url : String) → plain_url i ≡ ok url → (url == "") ≡ false
plain_url-filled (respond c r h) url e = elim (Bool-cases (r == "" && not h)) [
  | inl q ↦ subst (λ u. (u == "") ≡ false) (ok_injective (rw q at e)) refl
  | inr q ↦ absurd (let e' = rw q at e in cc)
]
plain_url-filled (pick_up_object _ _ _) url e = cc
plain_url-filled (drop_object _ _ _) url e = cc
plain_url-filled (get_tree_value _ _ _ _) url e = cc
plain_url-filled (change_location _ _ _) url e = cc
plain_url-filled (change_named_location _ _ _) url e = cc
plain_url-filled (create_object _ _ _ _ _) url e = cc
plain_url-filled (set_tree_value _ _ _ _ _) url e = cc
plain_url-filled (chained _ _ _) url e = cc
plain_url-filled (cipher _ _ _ _) url e = cc
plain_url-filled build_portal_interaction url e = cc
plain_url-filled delete_portal_interaction url e = cc
plain_url-filled look_around_interaction url e = cc

plain-again :
    (i : Interaction) (url : String)
    → plain_url i ≡ ok url
    → Path (Res Interaction) (ok (respond (text_in (plain_value i)) "" false)) (ok i)
plain-again (respond c r h) url e = ground (arith, eq_iff r "")
plain-again (pick_up_object _ _ _) url e = cc
plain-again (drop_object _ _ _) url e = cc
plain-again (get_tree_value _ _ _ _) url e = cc
plain-again (change_location _ _ _) url e = cc
plain-again (change_named_location _ _ _) url e = cc
plain-again (create_object _ _ _ _ _) url e = cc
plain-again (set_tree_value _ _ _ _ _) url e = cc
plain-again (chained _ _ _) url e = cc
plain-again (cipher _ _ _ _) url e = cc
plain-again build_portal_interaction url e = cc
plain-again delete_portal_interaction url e = cc
plain-again look_around_interaction url e = cc

pub plain_codec_laws : CodecLaws plain_codec
plain_codec_laws = record {
  url_filled = plain_url-filled;
  known_url = λ i url e. refl;
  of_value-to_value = plain-again;
}

plain-bytes :
    (i : Interaction) (v : Value)
    → interaction_to_node plain_codec i ≡ ok v
    → plain_codec.of_bytes (plain_codec.to_bytes v) ≡ ok v
unfolding interaction_to_node
plain-bytes (respond c r h) v e = go (r == "" && not h) refl
  where
    go : (b : Bool) → (r == "" && not h) ≡ b → plain_codec.of_bytes (plain_codec.to_bytes v) ≡ ok v
    go true q =
        let e' = rw (q, interaction_to_node) at e in
        subst (λ x. plain_codec.of_bytes (plain_codec.to_bytes x) ≡ ok x) (ok_injective e') refl
    go false q = absurd (let e' = rw (q, interaction_to_node) at e in cc)
plain-bytes (pick_up_object _ _ _) v e = cc
plain-bytes (drop_object _ _ _) v e = cc
plain-bytes (get_tree_value _ _ _ _) v e = cc
plain-bytes (change_location _ _ _) v e = cc
plain-bytes (change_named_location _ _ _) v e = cc
plain-bytes (create_object _ _ _ _ _) v e = cc
plain-bytes (set_tree_value _ _ _ _ _) v e = cc
plain-bytes (chained _ _ _) v e = cc
plain-bytes (cipher _ _ _ _) v e = cc
plain-bytes build_portal_interaction v e = cc
plain-bytes delete_portal_interaction v e = cc
plain-bytes look_around_interaction v e = cc

pub plain-BytesLaws : BytesLaws plain_codec
plain-BytesLaws = record { of_bytes-to_bytes = plain-bytes }

abbrev pub sample_portals : PortalCodec
sample_portals = record {
  portal_value = λ did. object (field "to" (text did) end);
  to_portal = λ v. ok (text_at "to" v);
}

pub sample_portals_laws : PortalCodecLaws sample_portals
sample_portals_laws = record { stored_not_nil = λ did. refl; to_portal-portal_value = λ did. refl }

-- The key is the secret, and a box shows the key with which it opens.
abbrev pub sample_sealing : Sealing
sample_sealing = record {
  scrypt_key = λ secret salt. ok secret;
  seal_box = λ key nonce bytes. key <> bytes;
  open_box = λ key nonce box. after_prefix key box;
}

pub sample_sealing_laws : SealingLaws sample_sealing
sample_sealing_laws = record { open-seal = λ key nonce bytes. after_prefix-append key bytes }
