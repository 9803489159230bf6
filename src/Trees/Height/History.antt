-- ===== src/Trees/Height/History.antt =====
-- The history of a chaintree as its blocks link it: each has the tip of the one before, at a height
-- one less, down to the first at height 0.
use jasons_game.Base.{ℕ, suc, String, ◌≡◌, false, none, some, List, [], ◌∷◌, ◌==◌}
use jasons_game.Network.{ok, Network}
use jasons_game.Trees.Height.{previous_tip}

module _ (net : Network) where
  open net use {Tree, at, root_height}

  -- The tree that stands at a tip, and its height.
  pub record IsAt (tree : Tree) (t : String) (b : Tree) (n : ℕ) : Type 0 where
    pub defined : (t == "") ≡ false
    pub found : at tree t ≡ ok b
    pub root : root_height b ≡ ok n

  -- The trees from the newest to the oldest, each with its tip.
  pub data History (tree : Tree) : String → ℕ → List (String × Tree) → Type 0 where
    first :
        {t : String} {b : Tree} {n : ℕ} {bs : List (String × Tree)}
        → IsAt tree t b n
        → previous_tip net b ≡ ok none
        → n ≡ 0
        → bs ≡ (t, b) ∷ []
        → History tree t n bs
    later :
        {t prev : String} {b : Tree} {n m : ℕ} {bs cs : List (String × Tree)}
        → IsAt tree t b n
        → n ≡ suc m
        → previous_tip net b ≡ ok (some prev)
        → History tree prev m bs
        → cs ≡ (t, b) ∷ bs
        → History tree t n cs
