-- ===== src/Trees/Ownership/Verified.antt =====
-- `VerifyOwnership` and `VerifyOwnershipAt` compare sets of keys.
use jasons_game.Base.{
  ℕ, ◌≤◌, ◌<◌, String, ◌≡◌, sym, ap, ◌∙◌, ◌↔◌, Bool, true, some, List, arith, Subset,
}
use mathlib.Core.List.{Memᴰ}
use jasons_game.Network.{ok, Network}
use jasons_game.Utils.StringSlice.{include}
use jasons_game.Utils.StringSlice.Membership.{include-has, all_iff}
use jasons_game.Trees.Height.History.{History}
use jasons_game.Trees.Height.Search.{at_height_finds}
use jasons_game.Trees.Ownership.{verify_ownership, verify_ownership_at}

module _ (net : Network) where
  open net use {Tree, tip, authentications, root_height}

  -- A tree with readable owners is verified exactly when every expected key is among them.
  pub verify_ownership_iff :
      (tree : Tree) (auths expected : List String)
      → authentications tree ≡ ok auths
      → (verify_ownership net tree expected ≡ ok true) ↔ Subset expected auths
  unfolding verify_ownership
  verify_ownership_iff tree auths expected e = (
    λ h s m.
        sym (include-has auths s)
        ∙ (all_iff expected (λ s. include auths s)).0 (ground (arith, e)) s m,
    λ h.
        rw (e, verify_ownership)
          (ap (λ (b : Bool). ok b)
            ((all_iff expected (λ s. include auths s)).1 (λ s m. include-has auths s ∙ h s m))),
  )

  -- For every height up to that of a tree with a linked history, and with more fuel than the height
  -- of the tree, the verdict on the owners at that height is the verdict on a tree of the history
  -- that stands at that height.
  pub verify_ownership_at_height :
      (fuel : ℕ) (tree : Tree) (h n : ℕ) (bs : List (String × Tree)) (expected : List String)
      → History net tree (tip tree) n bs
      → h ≤ n
      → n < fuel
      → (b : Tree) × ((t : String) × Memᴰ (t, b) bs)
        × (root_height b ≡ ok h)
        × (verify_ownership_at net fuel tree h expected ≡ some (verify_ownership net b expected))
  unfolding verify_ownership_at
  verify_ownership_at_height fuel tree h n bs expected hist le lt =
      let f = at_height_finds net fuel tree h n bs hist le lt in
      (f.tree_at, f.recorded, f.exact, rw (f.returned, verify_ownership_at))
