-- ===== src/Courts/Autumn/Combinations/Found.antt =====
-- The order of the elements is of no matter, and the last combination for them counts.
use jasons_game.Base.{
  false, All, ◌≡◌, refl, ◌∙◌, ap, true, ◌||◌, ◌++◌, some, if◌then◌else◌, List, [], ◌∷◌, arith,
}
use mathlib.Core.List.{Permᴰ}
use jasons_game.Courts.Autumn.Combinations.{
  put_value, value_at, find, fill, ElementCombination, CombinationMap, same_ids, same_id, ℤ, pos,
  negsuc, le, insert_id, key_from_slice,
}

le_total : (a b : ℤ) → (le a b || le b a) ≡ true
le_total (pos a) (pos b) = ground arith
le_total (pos a) (negsuc b) = refl
le_total (negsuc a) (pos b) = refl
le_total (negsuc a) (negsuc b) = ground arith

le_antisym : (a b : ℤ) → le a b ≡ true → le b a ≡ true → a ≡ b
le_antisym (pos a) (pos b) h h' = ground arith
le_antisym (pos a) (negsuc b) h h' = cc
le_antisym (negsuc a) (pos b) h h' = cc
le_antisym (negsuc a) (negsuc b) h h' = ground arith

le_trans : (a b c : ℤ) → le a b ≡ true → le b c ≡ true → le a c ≡ true
le_trans (pos a) (pos b) (pos c) h h' = ground arith
le_trans (pos a) (pos b) (negsuc c) h h' = cc
le_trans (pos a) (negsuc b) c h h' = cc
le_trans (negsuc a) (pos b) (pos c) h h' = refl
le_trans (negsuc a) (pos b) (negsuc c) h h' = cc
le_trans (negsuc a) (negsuc b) (pos c) h h' = refl
le_trans (negsuc a) (negsuc b) (negsuc c) h h' = ground arith

insert_id_comm : (a b : ℤ) (l : List ℤ) → insert_id a (insert_id b l) ≡ insert_id b (insert_id a l)
insert_id_comm a b [] = ground (arith, le_total a b, le_antisym a b)
insert_id_comm a b (x ∷ l) = ground (
  arith,
  le_total a b,
  le_antisym a b,
  le_trans a b x,
  le_trans b a x,
  le_total a x,
  le_total b x,
  insert_id_comm a b l,
)

-- The key does not depend on the order of the ids.
key_from_slice_perm : {xs ys : List ℤ} → Permᴰ xs ys → key_from_slice xs ≡ key_from_slice ys
unfolding key_from_slice
key_from_slice_perm Permᴰ.nil = refl
key_from_slice_perm (Permᴰ.cons {l₁ = xs} {l₂ = ys} e r) = cc (e, key_from_slice_perm r)
key_from_slice_perm (Permᴰ.swap {a = a} {b = b} {l = l} e e') =
    cc (e, e', insert_id_comm a b (key_from_slice l))
key_from_slice_perm (Permᴰ.trans r r') = key_from_slice_perm r ∙ key_from_slice_perm r'

pub same_id_sound : (a b : ℤ) → same_id a b ≡ true → a ≡ b
same_id_sound (pos a) (pos b) h = ap pos (ground arith)
same_id_sound (pos a) (negsuc b) h = cc
same_id_sound (negsuc a) (pos b) h = cc
same_id_sound (negsuc a) (negsuc b) h = ap negsuc (ground arith)

pub same_id_refl : (a : ℤ) → same_id a a ≡ true
same_id_refl (pos a) = ground arith
same_id_refl (negsuc a) = ground arith

same_ids_sound : (xs ys : List ℤ) → same_ids xs ys ≡ true → xs ≡ ys
same_ids_sound [] [] h = refl
same_ids_sound [] (y ∷ ys) h = cc
same_ids_sound (x ∷ xs) [] h = cc
same_ids_sound (x ∷ xs) (y ∷ ys) h = ground (arith, same_id_sound x y, same_ids_sound xs ys)

same_ids_refl : (xs : List ℤ) → same_ids xs xs ≡ true
same_ids_refl [] = refl
same_ids_refl (x ∷ xs) = ground (arith, same_id_refl x, same_ids_refl xs)

value_at-put_value :
    (m : CombinationMap) (k j : List ℤ) (v : ℤ)
    → value_at (put_value m k v) j ≡ (if same_ids k j then some v else value_at m j)
value_at-put_value [] k j v = refl
value_at-put_value ((i, u) ∷ m) k j v = ground (
  arith,
  value_at-put_value m k j v,
  same_ids_sound i k,
  same_ids_sound i j,
  same_ids_sound k j,
  same_ids_refl k,
)

-- None of the combinations is for these ids.
abbrev pub Others : List ℤ → List ElementCombination → Type 0
Others ids = All (λ c. same_ids (key_from_slice c.from) (key_from_slice ids) ≡ false)

fill-Others :
    (ids : List ℤ) (later : List ElementCombination) (m : CombinationMap)
    → Others ids later
    → value_at (fill later m) (key_from_slice ids) ≡ value_at m (key_from_slice ids)
unfolding fill
fill-Others ids [] m h = refl
fill-Others ids (c ∷ later) m h =
    fill-Others ids later (put_value m (key_from_slice c.from) c.to) h.1
    ∙ value_at-put_value m (key_from_slice c.from) (key_from_slice ids) c.to
    ∙ (rw (h.0) refl)

fill-append :
    (before later : List ElementCombination) (m : CombinationMap)
    → fill (before ++ later) m ≡ fill later (fill before m)
unfolding fill
fill-append [] later m = refl
fill-append (c ∷ before) later m =
    fill-append before later (put_value m (key_from_slice c.from) c.to)

-- After a map is filled with combinations, the ids of one of them, in any order, find its result,
-- if no later combination has the same ids up to order.
pub find-fill :
    (before later : List ElementCombination) (c : ElementCombination) (ids : List ℤ)
    → Permᴰ ids c.from
    → Others ids later
    → find (fill (before ++ c ∷ later) []) ids ≡ some c.to
unfolding find fill
find-fill before later c ids p h =
    ap (λ m. value_at m (key_from_slice ids)) (fill-append before (c ∷ later) [])
    ∙ fill-Others ids later (put_value (fill before []) (key_from_slice c.from) c.to) h
    ∙ value_at-put_value (fill before []) (key_from_slice c.from) (key_from_slice ids) c.to
    ∙ (rw (key_from_slice_perm p, same_ids_refl (key_from_slice c.from)) refl)
