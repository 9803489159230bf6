-- ===== src/Network/Paths.antt =====
-- Reading a value after a write below it: the same path gives what was written, a path that
-- diverges gives what it gave before.
use jasons_game.Base.{
  String, ◌≡◌, refl, sym, ap, ◌∙◌, Bool, true, false, List, [], ◌∷◌, ◌++◌, arith, ◌==◌, eq_iff,
  eq_refl, if◌then◌else◌, String-cases, inl, inr,
}
use jasons_game.Network.Data.{
  Value, null, text, bool, number, list, object, link, Fields, end, field, field_or_null, walk,
}
use jasons_game.Network.Laws.{put_field, put_at}

-- Neither path is a prefix of the other.
abbrev pub diverges : List String → List String → Bool
diverges [] q = false
diverges (a ∷ p) [] = false
diverges (a ∷ p) (b ∷ q) = if a == b then diverges p q else true

field_or_null-put_field :
    (k j : String) (v : Value) (fields : Fields)
    → field_or_null j (put_field k v fields) ≡ (if k == j then v else field_or_null j fields)
field_or_null-put_field k j v end = refl
field_or_null-put_field k j v (field i u rest) =
    ground (arith, eq_iff k j, eq_iff i k, eq_iff i j, field_or_null-put_field k j v rest)

walk_null : (path : List String) → walk path null ≡ null
walk_null [] = refl
walk_null (k ∷ path) = refl

abbrev fields_of : Value → Fields
fields_of (object fields) = fields
fields_of null = end
fields_of (text _) = end
fields_of (bool _) = end
fields_of (number _) = end
fields_of (list _) = end
fields_of (link _) = end

put_at-cons :
    (k : String) (path : List String) (v u : Value)
    → put_at (k ∷ path) v u
      ≡ object (put_field k (put_at path v (field_or_null k (fields_of u))) (fields_of u))
put_at-cons k path v (object fields) = refl
put_at-cons k path v null = refl
put_at-cons k path v (text _) = refl
put_at-cons k path v (bool _) = refl
put_at-cons k path v (number _) = refl
put_at-cons k path v (list _) = refl
put_at-cons k path v (link _) = refl

walk-cons :
    (k : String) (path : List String) (u : Value)
    → walk (k ∷ path) u ≡ walk path (field_or_null k (fields_of u))
walk-cons k path (object fields) = refl
walk-cons k path null = sym (walk_null path)
walk-cons k path (text _) = sym (walk_null path)
walk-cons k path (bool _) = sym (walk_null path)
walk-cons k path (number _) = sym (walk_null path)
walk-cons k path (list _) = sym (walk_null path)
walk-cons k path (link _) = sym (walk_null path)

pub walk-put_at : (path : List String) (v u : Value) → walk path (put_at path v u) ≡ v
walk-put_at [] v u = refl
walk-put_at (k ∷ path) v u =
    ap (walk (k ∷ path)) (put_at-cons k path v u)
    ∙ ap (walk path) (
        field_or_null-put_field k k (put_at path v (field_or_null k (fields_of u))) (fields_of u)
        ∙ ap
            (λ (b : Bool).
              if b
              then put_at path v (field_or_null k (fields_of u))
              else field_or_null k (fields_of u))
            (eq_refl k))
    ∙ walk-put_at path v (field_or_null k (fields_of u))

pub walk-append : (p q : List String) (u : Value) → walk (p ++ q) u ≡ walk q (walk p u)
walk-append [] q u = refl
walk-append (k ∷ p) q u =
    walk-cons k (p ++ q) u
    ∙ walk-append p q (field_or_null k (fields_of u))
    ∙ sym (ap (walk q) (walk-cons k p u))

pub walk-put_at-diverges :
    (p q : List String) (v u : Value) → diverges p q ≡ true → walk q (put_at p v u) ≡ walk q u
walk-put_at-diverges [] q v u h = cc
walk-put_at-diverges (a ∷ p) [] v u h = cc
walk-put_at-diverges (a ∷ p) (b ∷ q) v u h =
    let below = put_at p v (field_or_null a (fields_of u)) in
    ap (walk (b ∷ q)) (put_at-cons a p v u)
    ∙ ap (walk q) (field_or_null-put_field a b below (fields_of u))
    ∙ elim (String-cases a b) [
      | inl e ↦ rw ((eq_iff a b).1 e) (
          walk-put_at-diverges p q v (field_or_null a (fields_of u)) (ground (arith, eq_iff a b))
          ∙ ap (λ k. walk q (field_or_null k (fields_of u))) e
          ∙ sym (walk-cons b q u))
      | inr ne ↦ rw ne (sym (walk-cons b q u))
    ]

-- A write below a field is a write in the field's value.
pub walk-put_at-below :
    (k : String) (p : List String) (v u : Value)
    → walk (k ∷ []) (put_at (k ∷ p) v u) ≡ put_at p v (walk (k ∷ []) u)
walk-put_at-below k p v u =
    ap (walk (k ∷ [])) (put_at-cons k p v u)
    ∙ field_or_null-put_field k k (put_at p v (field_or_null k (fields_of u))) (fields_of u)
    ∙ ap
        (λ (b : Bool).
          if b then put_at p v (field_or_null k (fields_of u)) else field_or_null k (fields_of u))
        (eq_refl k)
    ∙ ap (put_at p v) (sym (walk-cons k [] u))
