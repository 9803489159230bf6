-- ===== src/Trees/Height/Search.antt =====
-- `AtHeight` finds every height of a chaintree's history, and no other.
use jasons_game.Base.{
  ℕ, zero, suc, ◌<◌, ◌≤◌, String, ◌≡◌, refl, ap, ◌∙◌, Option, some, List, arith, eqb, Bool-cases,
  inl, inr,
}
use mathlib.Core.List.{Memᴰ}
use jasons_game.Network.{Res, ok, err, message, Network}
use jasons_game.Trees.Height.{height, at_height_loop, at_height}
use jasons_game.Trees.Height.History.{History, first, later}

module _ (net : Network) where
  open net use {Tree, tip, at, root_height}

  -- What a successful search returns: a tree of the history, at the height asked for.
  pub record Found (bs : List (String × Tree)) (h : ℕ) (r : Option (Res Tree)) : Type 0 where
    pub tree_at : Tree
    pub returned : r ≡ some (ok tree_at)
    pub recorded : (t : String) × Memᴰ (t, tree_at) bs
    pub exact : root_height tree_at ≡ ok h

  loop-finds :
      (fuel : ℕ) (tree : Tree) (h : ℕ) {t : String} {n : ℕ} {bs : List (String × Tree)}
      → History net tree t n bs
      → h ≤ n
      → n < fuel
      → Found bs h (at_height_loop net fuel tree t h)
  unfolding at_height_loop height
  loop-finds zero tree h hist le lt = elim lt [ ]
  loop-finds (suc fuel) tree h {t} {n} {bs} (first {b = b} here stop z all) le lt = record {
    tree_at = b;
    returned = ground (arith, here.defined, here.found, here.root);
    recorded = (t, rw all (Memᴰ.head refl));
    exact = here.root ∙ ap ok (omega arith);
  }
  loop-finds (suc fuel) tree h {t} {n} {bs}
        (later {prev = prev} {b = b} {m = m} here s back hist all) le lt =
      elim (Bool-cases (eqb h n)) [
        | inl e ↦ record {
          tree_at = b;
          returned = ground (arith, here.defined, here.found, here.root);
          recorded = (t, rw all (Memᴰ.head refl));
          exact = here.root ∙ ap ok (ground arith);
        }
        | inr ne ↦
            let rest = loop-finds fuel tree h hist (ground arith) (omega arith) in
            record {
              tree_at = rest.tree_at;
              returned = ground (arith, here.defined, here.found, here.root, back, rest.returned);
              recorded = (rest.recorded.0, rw all (Memᴰ.tail rest.recorded.1));
              exact = rest.exact;
            }
      ]

  -- For every height up to that of a tree with a linked history, and with more fuel than the height
  -- of the tree, the search ends with a tree of the history that stands at exactly that height.
  pub at_height_finds :
      (fuel : ℕ) (tree : Tree) (h n : ℕ) (bs : List (String × Tree))
      → History net tree (tip tree) n bs
      → h ≤ n
      → n < fuel
      → Found bs h (at_height net fuel tree h)
  unfolding at_height
  at_height_finds fuel tree h n bs hist le lt = loop-finds fuel tree h hist le lt

  -- For a tree with a linked history, a height above that of the tree is an error, found in the
  -- first round.
  pub at_height_above :
      (fuel : ℕ) (tree : Tree) (h n : ℕ) (bs : List (String × Tree))
      → History net tree (tip tree) n bs
      → n < h
      → at_height net (suc fuel) tree h ≡ some (err (message "height is out of range"))
  unfolding at_height height
  at_height_above fuel tree h n bs (first here stop z all) lt =
      ground (arith, here.defined, here.found, here.root)
  at_height_above fuel tree h n bs (later here s back hist all) lt =
      ground (arith, here.defined, here.found, here.root)
