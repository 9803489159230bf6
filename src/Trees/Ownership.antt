-- ===== src/Trees/Ownership.antt =====
-- game/trees/ownership.go: who owns a chaintree, now and at a height, and the blocks at which the
-- ownership changed. The loop over the tips takes fuel, as in `Height`.
pub mod Verified
pub mod Changes
use Prim.Native.String.{compare}
use jasons_game.Base.{
  ℕ, zero, suc, String, Bool, true, false, ◌||◌, Option, none, some, List, [], ◌∷◌, ◌++◌, ◌==◌,
  is_le, if◌then◌else◌,
}
use jasons_game.Network.{
  Value, Values, nil, cons, null, text, object, list, bool, number, link, Res, ok, err, panic,
  Error, message, Network,
}
use jasons_game.Trees.Height.{height, must_height, previous_tip, at_height}
use jasons_game.Utils.StringSlice
use jasons_game.Utils.StringSlice.{include}

module _ (net : Network) where
  open net use {Tree, authentications}

  unfoldable pub verify_ownership : Tree → List String → Res Bool
  verify_ownership tree expected = elim (authentications tree) [
    | ok auths ↦ ok (StringSlice.all expected (λ s. include auths s))
    | err e ↦ err e
    | panic ↦ panic
  ]

  verify_found : List String → Res Tree → Res Bool
  verify_found expected (ok tree_at) = verify_ownership tree_at expected
  verify_found expected (err e) = err e
  verify_found expected panic = panic

  unfoldable pub verify_ownership_at : ℕ → Tree → ℕ → List String → Option (Res Bool)
  unfolding verify_found
  verify_ownership_at fuel tree h expected = elim (at_height net fuel tree h) [
    | none ↦ none
    | some r ↦ some (verify_found expected r)
  ]

pub record OwnershipChange : Type 0 where
  pub change_tip : String
  pub change_auths : List String
  pub change_height : ℕ

-- sort.Strings
unfoldable pub insert_sorted : String → List String → List String
insert_sorted s [] = s ∷ []
insert_sorted s (t ∷ ts) = if is_le (compare s t) then s ∷ t ∷ ts else t ∷ insert_sorted s ts

unfoldable pub sort_strings : List String → List String
unfolding insert_sorted
sort_strings [] = []
sort_strings (s ∷ ss) = insert_sorted s (sort_strings ss)

module _ (net : Network) where
  open net use {Tree, tip, resolve, at, authentications, sets_ownership}

  -- the loop over the transactions of a block
  unfoldable pub scan : Values → Bool → Res Bool
  scan nil seen = ok seen
  scan (cons transaction rest) seen = elim (sets_ownership transaction) [
    | ok sets ↦ scan rest (if sets then true else seen)
    | err e ↦ err e
    | panic ↦ panic
  ]

  unfoldable pub scan_value : Value → Res Bool
  unfolding scan
  scan_value (list txs) = scan txs false
  scan_value null = err (message "block transactions is not an array")
  scan_value (text _) = err (message "block transactions is not an array")
  scan_value (bool _) = err (message "block transactions is not an array")
  scan_value (number _) = err (message "block transactions is not an array")
  scan_value (object _) = err (message "block transactions is not an array")
  scan_value (link _) = err (message "block transactions is not an array")

  unfoldable pub has_set_ownership : Tree → Res Bool
  unfolding scan_value
  has_set_ownership tree_at = elim (resolve tree_at ("chain" ∷ "end" ∷ "transactions" ∷ [])) [
    | ok transactions ↦ scan_value transactions
    | err e ↦ err e
    | panic ↦ panic
  ]

  -- the change at a block
  unfoldable pub change_at : String → Tree → Res OwnershipChange
  change_at t tree_at = elim (authentications tree_at) [
    | err e ↦ err e
    | panic ↦ panic
    | ok auths ↦ elim (must_height net tree_at) [
      | err e ↦ err e
      | panic ↦ panic
      | ok h ↦ ok (record { change_tip = t; change_auths = sort_strings auths; change_height = h })
    ]
  ]

  -- The changes at a block: one if it sets the ownership, else none.
  unfoldable pub changes_at : String → Tree → Res (List OwnershipChange)
  changes_at t tree_at = elim (has_set_ownership tree_at) [
    | err e ↦ err e
    | panic ↦ panic
    | ok false ↦ ok []
    | ok true ↦ elim (change_at t tree_at) [ ok c ↦ ok (c ∷ []) | err e ↦ err e | panic ↦ panic ]
  ]

-- What `OwnershipChanges` returns: the slice, also beside an error.
abbrev pub Changes : Type 0
Changes = List OwnershipChange × Res (Unit {0})

module _ (net : Network) where
  open net use {Tree, tip, at}

  next_round : (String → Option Changes) → List OwnershipChange → Tree → Option Changes
  next_round rounds changes tree_at = elim (previous_tip net tree_at) [
    | err e ↦ some (changes, err e)
    | panic ↦ some (changes, panic)
    | ok none ↦ some (changes, ok tt)
    | ok (some prev) ↦ rounds prev
  ]

  ownership_loop : ℕ → Tree → String → List OwnershipChange → Option Changes
  unfolding next_round
  ownership_loop zero tree t changes = none
  ownership_loop (suc fuel) tree t changes =
      let looked : Option Changes = elim (at tree t) [
        | err e ↦ some (changes, err e)
        | panic ↦ some (changes, panic)
        | ok tree_at ↦ elim (changes_at net t tree_at) [
          | err e ↦ some (changes, err e)
          | panic ↦ some (changes, panic)
          | ok new ↦
              next_round (λ prev. ownership_loop fuel tree prev (changes ++ new)) (changes ++ new)
                tree_at
        ]
      ] in
      if t == "" then some (changes, ok tt) else looked

  unfoldable pub ownership_changes : ℕ → Tree → Option Changes
  unfolding ownership_loop
  ownership_changes fuel tree = ownership_loop fuel tree (tip tree) []
