-- ===== src/Importer/Convert.antt =====
-- importer/importer.go: convertImportInteraction. A conversion whose fuel ends is a panic, as a
-- recursion without an end is.
use jasons_game.Base.{
  ℕ, zero, suc, String, ◌<>◌, ◌==◌, Option, some, none, List, [], ◌∷◌, lookup, is_some,
  if◌then◌else◌,
}
use jasons_game.Network.{
  Value, Fields, null, text, bool, number, list, object, link, nil, cons, field, entries, as_text,
  Res, ok, err, panic, message, wrapped, elements,
}
use jasons_game.Game.Interactions.{Codec, Interaction}
use jasons_game.Game.Interactions.Sealed.{
  Sealing, then_of, new_chained_interaction, new_cipher_interaction,
}

-- `value` is none for a nil map.
pub record ImportInteraction : Type 0 where
  pub type_name : String
  pub value : Option Fields

-- What stands in a map that may be nil.
abbrev pub given : String → Option Fields → Option Value
given k none = none
given k (some m) = lookup k (entries m)

unfoldable pub text_given : String → Option Fields → String → Res String
text_given k m e = elim (given k m) [
  | none ↦ err (message e)
  | some v ↦ elim (as_text v) [ none ↦ err (message e) | some s ↦ ok s ]
]

unfoldable pub value_given : String → Option Fields → String → Res Value
value_given k m e = elim (given k m) [ none ↦ err (message e) | some v ↦ ok v ]

-- A command of its own, or that of the interaction around it. A nil map takes no entry.
unfoldable pub with_command : String → Option ImportInteraction → Res ImportInteraction
with_command command none = panic
with_command command (some i) = if is_some (given "command" i.value) then ok i else elim (i.value) [
  | none ↦ panic
  | some m ↦ ok (record i { value = some (field "command" (text command) m) })
]

-- `interactionsUncast.([]interface{})`, with an entry at least
unfoldable pub slice_of : Value → Res (List Value)
slice_of (list (cons v vs)) = ok (v ∷ elements vs)
slice_of (list nil) = err (message "ChainedInteraction must have one or more valid Interactions")
slice_of null = err (message "ChainedInteraction must have one or more valid Interactions")
slice_of (text _) = err (message "ChainedInteraction must have one or more valid Interactions")
slice_of (bool _) = err (message "ChainedInteraction must have one or more valid Interactions")
slice_of (number _) = err (message "ChainedInteraction must have one or more valid Interactions")
slice_of (object _) = err (message "ChainedInteraction must have one or more valid Interactions")
slice_of (link _) = err (message "ChainedInteraction must have one or more valid Interactions")

-- yamlTypecast into an *ImportInteraction, which is nil for a null; what rand.Reader gives for the
-- cipher of a command.
module _ (codec : Codec) (sealing : Sealing) (to_import : Value → Res (Option ImportInteraction))
    (random : String → Res String) where
  open codec use {empty_any, of_value}

  -- the error of the cast is replaced
  unfoldable pub nested : Value → String → Res (Option ImportInteraction)
  nested v e = elim (to_import v) [ ok i ↦ ok i | err x ↦ err (message e) | panic ↦ panic ]

  unfoldable pub convert_cipher :
      (Option ImportInteraction → Res Interaction) → Option Fields → Res Interaction
  unfolding nested with_command text_given value_given
  convert_cipher convert value =
      then_of (text_given "command" value "CipherInteraction must have command") (λ command.
        then_of (text_given "secret" value "CipherInteraction must have secret") (λ secret.
          then_of
            (value_given "success_interaction" value
              "CipherInteraction must have success_interaction")
            (λ uncast.
              then_of
                (nested uncast "CipherInteraction success_interaction must be ImportInteraction")
                (λ success. then_of (convert success) (λ success_interaction.
                  then_of
                    (value_given "failure_interaction" value
                      "CipherInteraction must have failure_interaction")
                    (λ uncast'.
                      then_of
                        (nested uncast'
                          "CipherInteraction failure_interaction must be ImportInteraction")
                        (λ failure. then_of (with_command command failure) (λ named.
                          then_of (convert (some named)) (λ failure_interaction.
                            wrapped "error creating CipherInteraction" (
                              new_cipher_interaction codec sealing (random command) command secret
                                success_interaction failure_interaction))))))))))

  -- the loop over the interactions of a chain
  unfoldable pub convert_each :
      (Option ImportInteraction → Res Interaction) → String → List Value → Res (List Interaction)
  unfolding nested with_command
  convert_each convert command [] = ok []
  convert_each convert command (v ∷ vs) =
      let rest = convert_each convert command vs in
      then_of (nested v "ChainedInteraction interaction must be ImportInteraction") (λ i.
        then_of (with_command command i) (λ named.
          then_of (convert (some named)) (λ first. then_of rest (λ others. ok (first ∷ others)))))

  unfoldable pub convert_chained :
      (Option ImportInteraction → Res Interaction) → Option Fields → Res Interaction
  unfolding convert_each text_given value_given slice_of
  convert_chained convert value =
      then_of (text_given "command" value "ChainedInteraction must have command") (λ command.
        then_of
          (value_given "interactions" value "ChainedInteraction must have an array of interactions")
          (λ uncast. then_of (slice_of uncast) (λ slice.
            then_of (convert_each convert command slice) (λ interactions.
              wrapped "error creating ChainedInteraction"
                (new_chained_interaction codec command interactions)))))

  unfoldable pub value_or_null : Option Fields → Value
  value_or_null none = null
  value_or_null (some m) = object m

  -- the types of protobuf
  unfoldable pub convert_plain : String → Option Fields → Res Interaction
  unfolding value_or_null
  convert_plain type_name value =
      let type_url = "type.googleapis.com/jasonsgame." <> type_name in
      then_of (wrapped "protobuf type not found" (empty_any type_url))
        (λ _. wrapped "error casting interaction" (of_value type_url (value_or_null value)))

  unfoldable pub convert_with :
      (Option ImportInteraction → Res Interaction) → Option ImportInteraction → Res Interaction
  unfolding convert_cipher convert_chained convert_plain
  convert_with convert none = panic
  convert_with convert (some attrs) =
      if attrs.type_name == ""
      then err (message "Interaction must have type set")
      else if attrs.type_name == "CipherInteraction"
      then convert_cipher convert attrs.value
      else if attrs.type_name == "ChainedInteraction"
      then convert_chained convert attrs.value
      else convert_plain attrs.type_name attrs.value

  unfoldable pub convert_import_interaction : ℕ → Option ImportInteraction → Res Interaction
  unfolding convert_with
  convert_import_interaction zero attrs = panic
  convert_import_interaction (suc fuel) attrs = convert_with (convert_import_interaction fuel) attrs
