-- ===== src/Game/Static.antt =====
-- game/static: values that all players share, kept in one chaintree. `STATIC_DID` is where it stands.
use jasons_game.Base.{String, Option, none, some, List, [], ◌∷◌, insert}
use jasons_game.Network.{
  Value, null, text, bool, number, list, object, link, entries, as_text, Res, ok, panic, M, pure,
  lift, ◌>>=◌, Network, fetch,
}

abbrev pub static_did : String
static_did = "did:tupelo:0xB5F67728cdb4E809aBDc7386245e58b782453863"

-- nil is the empty text; what is no text fails the type assertion
unfoldable pub value_text : Value → Res String
value_text null = ok ""
value_text (text s) = ok s
value_text (bool _) = panic
value_text (number _) = panic
value_text (list _) = panic
value_text (object _) = panic
value_text (link _) = panic

-- `ret[k] = v.(string)` for all fields
unfoldable pub collect_texts :
    List (String × Value) → List (String × String) → Res (List (String × String))
collect_texts [] ret = ok ret
collect_texts ((k, v) ∷ rest) ret = elim (as_text v) [
  | none ↦ panic
  | some s ↦ collect_texts rest (insert k s ret)
]

unfoldable pub texts_in : Value → Res (List (String × String))
unfolding collect_texts
texts_in null = ok []
texts_in (object fields) = collect_texts (entries fields) []
texts_in (text _) = panic
texts_in (bool _) = panic
texts_in (number _) = panic
texts_in (list _) = panic
texts_in (link _) = panic

module _ (net : Network) where
  open net use {World, Tree, resolve}

  unfoldable pub value_under : Option Tree → String → M World String
  unfolding value_text
  value_under none key = pure ""
  value_under (some tree) key = do
    val ← lift (resolve tree ("tree" ∷ "data" ∷ "jasons-game" ∷ "values" ∷ key ∷ []))
    lift (value_text val)

  -- Get; beside an error the text is empty
  unfoldable pub get_static : String → M World String
  unfolding value_under
  get_static key = do tree ← fetch net static_did; value_under tree key

  unfoldable pub all_under : Option Tree → M World (List (String × String))
  unfolding texts_in
  all_under none = pure []
  all_under (some tree) = do
    val ← lift (resolve tree ("tree" ∷ "data" ∷ "jasons-game" ∷ "values" ∷ []))
    lift (texts_in val)

  -- GetAll
  unfoldable pub get_all_static : M World (List (String × String))
  unfolding all_under
  get_all_static = do tree ← fetch net static_did; all_under tree
