-- ===== src/Importer/Trees/Planned.antt =====
-- importer/importer.go: which values of the data are written, and under which keys.

use Prim.Native.Char.{code}
use mathlib.Core.List.{Memᴰ}
use jasons_game.Base.{
  String, ◌≡◌, ◌⊎◌, ◌↔◌, refl, sym, ap, subst, ◌∙◌, Bool, true, false, ◌||◌, Bool-cases, inl, inr,
  some, List, [], ◌∷◌, lookup, has, eqb, ◌==◌, eq_iff, arith, if◌then◌else◌,
}
use Prim.Native.String.{compare}
use text.Mathlib.Text.{is_le}
use jasons_game.Trees.Ownership.{insert_sorted, sort_strings}
use jasons_game.Importer.Flatmap.{FlatMap, before_dot, keys_loop, keys}
use jasons_game.Importer.Trees.{value_at, plan_from, plan}

-- Does a dot stand in the text?
abbrev pub has_dot : String → Bool
has_dot String.[] = false
has_dot (String.◌∷◌ c s) = eqb (code c) b'.' || has_dot s

has_dot-before_dot : (k : String) → has_dot (before_dot k) ≡ false
unfolding before_dot
has_dot-before_dot String.[] = refl
has_dot-before_dot (String.◌∷◌ c s) = elim (Bool-cases (eqb (code c) b'.')) [
  | inl e ↦ rw e refl
  | inr e ↦ rw e (ground (arith, has_dot-before_dot s))
]

before_dot-undotted : (k : String) → has_dot k ≡ false → before_dot k ≡ k
unfolding before_dot
before_dot-undotted String.[] h = refl
before_dot-undotted (String.◌∷◌ c s) h = elim (Bool-cases (eqb (code c) b'.')) [
  | inl e ↦ absurd (ground arith)
  | inr e ↦ rw e (ap (String.◌∷◌ c) (before_dot-undotted s (ground arith)))
]

has-insert_sorted :
    (k s : String) (ss : List String) → has k (insert_sorted s ss) ≡ ((s == k) || has k ss)
unfolding insert_sorted
has-insert_sorted k s [] = refl
has-insert_sorted k s (t ∷ ts) = elim (Bool-cases (is_le (compare s t))) [
  | inl e ↦ rw e refl
  | inr e ↦ rw e (ground (arith, has-insert_sorted k s ts))
]

has-sort_strings : (k : String) (ss : List String) → has k (sort_strings ss) ≡ has k ss
unfolding sort_strings
has-sort_strings k [] = refl
has-sort_strings k (s ∷ ss) =
    has-insert_sorted k s (sort_strings ss) ∙ ap (λ b. (s == k) || b) (has-sort_strings k ss)

-- A key that was found is not dotted.
keys_loop-undotted :
    (k : String) (m : FlatMap) (ks : List String)
    → has k (keys_loop m ks) ≡ true
    → (has k ks ≡ true) ⊎ (has_dot k ≡ false)
unfolding keys_loop
keys_loop-undotted k [] ks h = inl h
keys_loop-undotted k ((j, v) ∷ m) ks h = elim (Bool-cases (has (before_dot j) ks)) [
  | inl e ↦ keys_loop-undotted k m ks (rw e at h)
  | inr e ↦ elim (keys_loop-undotted k m (before_dot j ∷ ks) (rw e at h)) [
    | inr d ↦ inr d
    | inl g ↦ elim (Bool-cases (before_dot j == k)) [
      | inl q ↦ inr (ap has_dot (sym ((eq_iff (before_dot j) k).0 q)) ∙ has_dot-before_dot j)
      | inr q ↦ inl (rw q at g)
    ]
  ]
]

keys_loop-keeps :
    (k : String) (m : FlatMap) (ks : List String) → has k ks ≡ true → has k (keys_loop m ks) ≡ true
unfolding keys_loop
keys_loop-keeps k [] ks h = h
keys_loop-keeps k ((j, v) ∷ m) ks h = elim (Bool-cases (has (before_dot j) ks)) [
  | inl e ↦ rw e (keys_loop-keeps k m ks h)
  | inr e ↦ rw e (keys_loop-keeps k m (before_dot j ∷ ks) (ground (arith, h)))
]

keys_loop-finds :
    (k v : String) (m : FlatMap) (ks : List String)
    → has_dot k ≡ false
    → lookup k m ≡ some v
    → has k (keys_loop m ks) ≡ true
unfolding keys_loop
keys_loop-finds k v [] ks d h = absurd cc
keys_loop-finds k v ((j, u) ∷ m) ks d h = elim (Bool-cases (j == k)) [
  | inr e ↦
      keys_loop-finds k v m (if has (before_dot j) ks then ks else before_dot j ∷ ks) d (rw e at h)
  | inl e ↦
      let same : before_dot j ≡ k = ap before_dot ((eq_iff j k).0 e) ∙ before_dot-undotted k d in
      keys_loop-keeps k m (if has (before_dot j) ks then ks else before_dot j ∷ ks)
        (elim (Bool-cases (has (before_dot j) ks)) [
          | inl f ↦ rw f (ap (λ x. has x ks) (sym same) ∙ f)
          | inr f ↦ rw f (ground (arith, (eq_iff (before_dot j) k).1 same))
        ])
]

planned :
    (k : String) (m : FlatMap) (ks : List String)
    → has k ks ≡ true
    → Memᴰ (k, value_at m k) (plan_from m ks)
unfolding plan_from
planned k m [] h = absurd cc
planned k m (s ∷ ss) h = elim (Bool-cases (s == k)) [
  | inl e ↦ Memᴰ.head (ap (λ x. (x, value_at m x)) (sym ((eq_iff s k).0 e)))
  | inr e ↦ Memᴰ.tail (planned k m ss (rw e at h))
]

plan_from-has :
    (k v : String) (m : FlatMap) (ks : List String) → Memᴰ (k, v) (plan_from m ks) → has k ks ≡ true
unfolding plan_from
plan_from-has k v m [] h = absurd (elim h [ ])
plan_from-has k v m (s ∷ ss) (Memᴰ.head e) = ground (arith, (eq_iff s k).1 (sym (ap (λ q. q.0) e)))
plan_from-has k v m (s ∷ ss) (Memᴰ.tail h) = ground (arith, plan_from-has k v m ss h)

-- A value that stands under a key of the flat data is written under that key if and only if the key
-- has no dot in it.
pub plan-exactly :
    (k v : String) (m : FlatMap) → lookup k m ≡ some v → Memᴰ (k, v) (plan m) ↔ (has_dot k ≡ false)
unfolding plan keys
plan-exactly k v m h = (
  λ p.
      elim (keys_loop-undotted k m []
        (sym (has-sort_strings k (keys m)) ∙ plan_from-has k v m (sort_strings (keys m)) p)) [
          | inl none_yet ↦ absurd cc
          | inr d ↦ d
        ],
  λ d.
      subst (λ x. Memᴰ (k, x) (plan_from m (sort_strings (keys m)))) (rw (h, value_at) refl)
        (planned k m (sort_strings (keys m))
          (has-sort_strings k (keys m) ∙ keys_loop-finds k v m [] d h)),
)
