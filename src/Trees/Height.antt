-- ===== src/Trees/Height.antt =====
-- game/trees/height.go: the height of a chaintree, and the chaintree as it was at a height. The
-- loop over the tips takes fuel; `none` means that the fuel ran out.
pub mod History
pub mod Search
use jasons_game.Base.{
  ℕ, zero, suc, String, Bool, true, false, Option, none, some, List, [], ◌∷◌, ltb, eqb, ◌==◌,
  if◌then◌else◌,
}
use jasons_game.Network.{
  Value, null, text, object, list, bool, number, link, field_or_null, Res, ok, err, panic, Error,
  message, wrapped, Network,
}

module _ (net : Network) where
  open net use {Tree, tip, resolve, at, root_height}

  unfoldable pub height : Tree → Res ℕ
  height tree = wrapped "error resolving tree height" (root_height tree)

  -- panics on an error
  unfoldable pub must_height : Tree → Res ℕ
  unfolding height
  must_height tree = elim (height tree) [ ok h ↦ ok h | _ ↦ panic ]

-- `previousTip.(cid.Cid)`; nil ends the loop
unfoldable pub tip_of_value : Value → Res (Option String)
tip_of_value null = ok none
tip_of_value (link prev) = ok (some prev)
tip_of_value (text _) = err (message "chain.end could not be cast")
tip_of_value (bool _) = err (message "chain.end could not be cast")
tip_of_value (number _) = err (message "chain.end could not be cast")
tip_of_value (list _) = err (message "chain.end could not be cast")
tip_of_value (object _) = err (message "chain.end could not be cast")

-- the block at `chain/end`: nil ends the loop, and anything but a map is an error
unfoldable pub tip_of_block : Value → Res (Option String)
unfolding tip_of_value
tip_of_block null = ok none
tip_of_block (object block) = tip_of_value (field_or_null "previousTip" block)
tip_of_block (text _) = err (message "chain previous block could not be cast")
tip_of_block (bool _) = err (message "chain previous block could not be cast")
tip_of_block (number _) = err (message "chain previous block could not be cast")
tip_of_block (list _) = err (message "chain previous block could not be cast")
tip_of_block (link _) = err (message "chain previous block could not be cast")

module _ (net : Network) where
  open net use {Tree, tip, resolve, at}

  -- The tip before the last block; `none` leaves the loop.
  unfoldable pub previous_tip : Tree → Res (Option String)
  unfolding tip_of_block
  previous_tip tree = elim (resolve tree ("chain" ∷ "end" ∷ [])) [
    | ok block ↦ tip_of_block block
    | err e ↦ err e
    | panic ↦ panic
  ]

  abbrev not_found : Res Tree
  not_found = err (message "height not found")

  -- one round at a tree, and the rounds after it
  unfoldable pub visit : (String → Option (Res Tree)) → ℕ → Tree → Option (Res Tree)
  visit rounds h tree_at = elim (height net tree_at) [
    | err e ↦ some (err e)
    | panic ↦ some panic
    | ok tree_height ↦
        if eqb h tree_height
        then some (ok tree_at)
        else if ltb tree_height h
        then some (err (message "height is out of range"))
        else elim (previous_tip tree_at) [
          | err e ↦ some (err e)
          | panic ↦ some panic
          | ok none ↦ some not_found
          | ok (some prev) ↦ rounds prev
        ]
  ]

  unfoldable pub at_height_loop : ℕ → Tree → String → ℕ → Option (Res Tree)
  unfolding visit
  at_height_loop zero tree t h = none
  at_height_loop (suc fuel) tree t h =
      let found : Option (Res Tree) = elim (at tree t) [
        | err e ↦ some (err e)
        | panic ↦ some panic
        | ok tree_at ↦ visit (λ prev. at_height_loop fuel tree prev h) h tree_at
      ] in
      if t == "" then some not_found else found

  unfoldable pub at_height : ℕ → Tree → ℕ → Option (Res Tree)
  unfolding at_height_loop
  at_height fuel tree h = at_height_loop fuel tree (tip tree) h
