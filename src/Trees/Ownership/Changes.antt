-- ===== src/Trees/Ownership/Changes.antt =====
-- `OwnershipChanges` reports the blocks that set the ownership, from the newest to the oldest.
use jasons_game.Base.{
  ap, ◌∙◌, ◌⊎◌, inl, inr, ℕ, zero, suc, ◌≤◌, ◌<◌, String, ◌≡◌, refl, sym, Bool, true, false, some,
  List, [], ◌∷◌, ◌++◌, append-nil, append_assoc, arith, subst,
}
use jasons_game.Network.{Res, ok, err, panic, Network}
use jasons_game.Trees.Height.{must_height}
use jasons_game.Trees.Height.History.{History, first, later}
use jasons_game.Trees.Ownership.{
  OwnershipChange, change_at, changes_at, has_set_ownership, ownership_loop, ownership_changes,
}

module _ (net : Network) where
  open net use {Tree, tip, at, root_height}

  -- Every block of the history is readable, and these are its changes, in the order of the blocks.
  abbrev pub Reported : List (String × Tree) → List OwnershipChange → Type 0
  Reported [] cs = cs ≡ []
  Reported ((t, b) ∷ bs) cs =
      (new : List OwnershipChange) × (rest : List OwnershipChange) × (changes_at net t b ≡ ok new)
      × (cs ≡ new ++ rest)
      × Reported bs rest

  loop-reports :
      (fuel : ℕ) (tree : Tree) (changes : List OwnershipChange) {t : String} {n : ℕ}
      {bs : List (String × Tree)} (cs : List OwnershipChange)
      → History net tree t n bs
      → Reported bs cs
      → n < fuel
      → ownership_loop net fuel tree t changes ≡ some (changes ++ cs, ok tt)
  unfolding ownership_loop
  loop-reports zero tree changes cs hist rep lt = elim lt [ ]
  loop-reports (suc fuel) tree changes cs (first here stop z all) rep lt =
      let (new, rest, e, split, done) = subst (λ l. Reported l cs) all rep in
      let whole : cs ≡ new = split ∙ ap (λ l. new ++ l) done ∙ append-nil new in
      rw whole (ground (arith, here.defined, here.found, e, stop))
  loop-reports (suc fuel) tree changes cs (later {prev = prev} here s back hist all) rep lt =
      let (new, rest, e, split, more) = subst (λ l. Reported l cs) all rep in
      let whole : changes ++ cs ≡ (changes ++ new) ++ rest =
        ap (λ l. changes ++ l) split ∙ sym (append_assoc changes new rest) in
      rw whole (
        ground (
          arith,
          here.defined,
          here.found,
          e,
          back,
          loop-reports fuel tree (changes ++ new) rest hist more (omega arith),
        ))

  -- With more fuel than the height of a tree with a linked history whose blocks are readable, the
  -- whole history is visited without an error, and the changes of its blocks are returned from the
  -- newest block to the oldest.
  pub ownership_changes-Reported :
      (fuel : ℕ) (tree : Tree) (n : ℕ) (bs : List (String × Tree)) (cs : List OwnershipChange)
      → History net tree (tip tree) n bs
      → Reported bs cs
      → n < fuel
      → ownership_changes net fuel tree ≡ some (cs, ok tt)
  unfolding ownership_changes
  ownership_changes-Reported fuel tree n bs cs hist rep lt =
      loop-reports fuel tree [] cs hist rep lt

  -- All heights lie at most at the bound, and fall from one change to the next.
  abbrev pub Falling : ℕ → List OwnershipChange → Type 0
  Falling n [] = Unit
  Falling n (c ∷ cs) = (h : ℕ) × (c.change_height ≡ h) × (h < n) × Falling h cs

  Falling-weaken : (n m : ℕ) (cs : List OwnershipChange) → n ≤ m → Falling n cs → Falling m cs
  Falling-weaken n m [] le f = f
  Falling-weaken n m (c ∷ cs) le (h, e, lt, f) = (h, e, omega arith, f)

  -- A block reports nothing, or one change at its own height.
  changes_at-cases :
      (t : String) (b : Tree) (n : ℕ) (new : List OwnershipChange)
      → root_height b ≡ ok n
      → changes_at net t b ≡ ok new
      → (new ≡ []) ⊎ ((c : OwnershipChange) × (new ≡ c ∷ []) × (c.change_height ≡ n))
  unfolding changes_at change_at must_height
  changes_at-cases t b n new e h = go (has_set_ownership net b) (change_at net t b) refl refl
    where
      go :
          (r : Res Bool) (c : Res OwnershipChange)
          → has_set_ownership net b ≡ r
          → change_at net t b ≡ c
          → (new ≡ []) ⊎ ((c : OwnershipChange) × (new ≡ c ∷ []) × (c.change_height ≡ n))
      go (ok false) c e1 e2 = inl (ground (arith, h, e1))
      go (ok true) (ok c) e1 e2 = inr (c, ground (arith, h, e1, e2), ground (arith, e, e2))
      go (ok true) (err x) e1 e2 = ground (arith, h, e1, e2)
      go (ok true) panic e1 e2 = ground (arith, h, e1, e2)
      go (err x) c e1 e2 = ground (arith, h, e1)
      go panic c e1 e2 = ground (arith, h, e1)

  changes_at-Falling :
      (t : String) (b : Tree) (n : ℕ) (new rest : List OwnershipChange)
      → root_height b ≡ ok n
      → changes_at net t b ≡ ok new
      → Falling n rest
      → Falling (suc n) (new ++ rest)
  changes_at-Falling t b n new rest e h f = elim (changes_at-cases t b n new e h) [
    | inl z ↦ rw z (Falling-weaken n (suc n) rest (omega arith) f)
    | inr (c, z, at_n) ↦ rw z (n, at_n, omega arith, f)
  ]

  Reported-Falling :
      (tree : Tree) {t : String} {n : ℕ} {bs : List (String × Tree)} (cs : List OwnershipChange)
      → History net tree t n bs
      → Reported bs cs
      → Falling (suc n) cs
  Reported-Falling tree cs (first {t = t} {b = b} {n = n} here stop z all) rep =
      let (new, rest, e, split, done) = subst (λ l. Reported l cs) all rep in
      rw split (changes_at-Falling t b n new rest here.root e (rw done tt))
  Reported-Falling tree cs (later {t = t} {b = b} {n = n} {m = m} here s back hist all) rep =
      let (new, rest, e, split, more) = subst (λ l. Reported l cs) all rep in
      rw split (
        changes_at-Falling t b n new rest here.root e
          (subst (λ k. Falling k rest) (sym s) (Reported-Falling tree rest hist more)))

  -- With more fuel than the height of a tree with a linked history whose blocks are readable, the
  -- changes are returned without an error, their heights are at most that of the tree, and each is
  -- less than the one before.
  pub ownership_changes_fall :
      (fuel : ℕ) (tree : Tree) (n : ℕ) (bs : List (String × Tree)) (cs : List OwnershipChange)
      → History net tree (tip tree) n bs
      → Reported bs cs
      → n < fuel
      → (cs' : List OwnershipChange) × (ownership_changes net fuel tree ≡ some (cs', ok tt))
        × Falling (suc n) cs'
  ownership_changes_fall fuel tree n bs cs hist rep lt = (
    cs,
    ownership_changes-Reported fuel tree n bs cs hist rep lt,
    Reported-Falling tree cs hist rep,
  )
