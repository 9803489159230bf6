-- ===== src/Utils/StringSlice/Membership.antt =====
-- `Index`, `Include`, `All` and `Equal` against membership.
use jasons_game.Base.{
  ℕ, zero, suc, ◌+◌, ◌<◌, ◌≤◌, String, ◌≡◌, ◌≢◌, refl, sym, ◌∙◌, ap, ◌↔◌, Bool, true, false, none,
  some, List, [], ◌∷◌, has, length, arith, ◌==◌, eq_iff, eq_refl, Bool-cases, inl, inr, get_elem?,
  Subset,
}
use jasons_game.Utils.StringSlice.{index_from, index, include, all, equal}

include-has_from :
    (i : ℕ) (vs : List String) (t : String)
    → (elim (index_from i vs t) [ none ↦ false | some _ ↦ true ]) ≡ has t vs
unfolding index_from
include-has_from i [] t = refl
include-has_from i (v ∷ vs) t = ground (arith, include-has_from (suc i) vs t)

pub include-has : (vs : List String) (t : String) → include vs t ≡ has t vs
unfolding include
include-has vs t = include-has_from 0 vs t

index_from-le : (i : ℕ) (vs : List String) (t : String) {j : ℕ} → index_from i vs t ≡ some j → i ≤ j
unfolding index_from
index_from-le i [] t h = cc
index_from-le i (v ∷ vs) t {j} h = ground (arith, index_from-le (suc i) vs t {j = j})

index_from-get :
    (k : ℕ) (i : ℕ) (vs : List String) (t : String)
    → index_from i vs t ≡ some (i + k)
    → get_elem? vs k ≡ some t
unfolding index_from
index_from-get k i [] t h = cc
index_from-get zero i (v ∷ vs) t h =
    ground (arith, eq_iff v t, index_from-le (suc i) vs t {j = i + zero})
index_from-get (suc k) i (v ∷ vs) t h = ground (arith, index_from-get k (suc i) vs t)

index_from-first :
    (k j : ℕ) (i : ℕ) (vs : List String) (t : String)
    → index_from i vs t ≡ some (i + k)
    → j < k
    → get_elem? vs j ≢ some t
unfolding index_from
index_from-first k j i [] t h lt = λ e. cc
index_from-first zero j i (v ∷ vs) t h lt = elim lt [ ]
index_from-first (suc k) zero i (v ∷ vs) t h lt = λ e. ground (arith, eq_iff v t)
index_from-first (suc k) (suc j) i (v ∷ vs) t h lt =
    index_from-first k j (suc i) vs t (ground (arith, eq_iff v t)) (omega arith)

-- An index that Index returns is in range, holds the target, and is the first that does.
pub index_first :
    (vs : List String) (t : String) (k : ℕ)
    → index vs t ≡ some k
    → (get_elem? vs k ≡ some t) × ((j : ℕ) → j < k → get_elem? vs j ≢ some t)
unfolding index
index_first vs t k h =
    let h' : index_from 0 vs t ≡ some (0 + k) = h ∙ ap some (omega arith) in
    (index_from-get k 0 vs t h', λ j lt. index_from-first k j 0 vs t h' lt)

all_sound :
    (vs : List String) (f : String → Bool)
    → all vs f ≡ true
    → (s : String) → has s vs ≡ true
    → f s ≡ true
unfolding all
all_sound [] f h s m = cc
all_sound (v ∷ vs) f h s m = elim (Bool-cases (v == s)) [
  | inl e ↦ ground (arith, ap f ((eq_iff v s).0 e))
  | inr ne ↦ all_sound vs f (ground arith) s (ground arith)
]

all_complete :
    (vs : List String) (f : String → Bool)
    → ((s : String) → has s vs ≡ true → f s ≡ true)
    → all vs f ≡ true
unfolding all
all_complete [] f h = refl
all_complete (v ∷ vs) f h =
    ground (arith, h v, eq_refl v, all_complete vs f (λ s m. h s (ground arith)))

-- All is true exactly when every string of the slice satisfies the predicate.
pub all_iff :
    (vs : List String) (f : String → Bool)
    → (all vs f ≡ true) ↔ ((s : String) → has s vs ≡ true → f s ≡ true)
all_iff vs f = (all_sound vs f, all_complete vs f)

-- Two slices are equal for Equal exactly when they have the same length and every string of the
-- first is in the second.
pub equal_iff :
    (vs vs2 : List String) → (equal vs vs2 ≡ true) ↔ ((length vs ≡ length vs2) × Subset vs vs2)
unfolding equal
equal_iff vs vs2 = (
  λ h. (
    ground arith,
    λ s m. sym (include-has vs2 s) ∙ all_sound vs (λ s. include vs2 s) (ground arith) s m,
  ),
  λ h.
      ground
        (arith, h.0, all_complete vs (λ s. include vs2 s) (λ s m. include-has vs2 s ∙ h.1 s m)),
)
