-- ===== src/Utils/StringSlice/Reversal.antt =====
-- `Reverse`, a loop of swaps in place, mirrors every position, and undoes itself.
use jasons_game.Base.{
  ℕ, zero, suc, ◌+◌, ◌-◌, ◌/◌, ◌≤◌, ◌<◌, String, ◌≡◌, refl, ◌∙◌, ap, ◌||◌, List, [], ◌∷◌, length,
  arith, eqb, ltb, if◌then◌else◌,
}
use jasons_game.Utils.StringSlice.{get_or, set, swap, reverse_loop, reverse}

length-set : (vs : List String) (i : ℕ) (s : String) → length (set vs i s) ≡ length vs
length-set [] i s = refl
length-set (v ∷ vs) zero s = refl
length-set (v ∷ vs) (suc i) s = ap suc (length-set vs i s)

get_or-set :
    (vs : List String) (i j : ℕ) (s d : String)
    → i < length vs
    → get_or (set vs i s) j d ≡ (if eqb i j then s else get_or vs j d)
get_or-set [] i j s d h = elim h [ ]
get_or-set (v ∷ vs) zero zero s d h = refl
get_or-set (v ∷ vs) zero (suc j) s d h = ground arith
get_or-set (v ∷ vs) (suc i) zero s d h = ground arith
get_or-set (v ∷ vs) (suc i) (suc j) s d h = ground (arith, get_or-set vs i j s d)

get_or_default :
    (vs : List String) (i : ℕ) (c d : String) → i < length vs → get_or vs i c ≡ get_or vs i d
get_or_default [] i c d h = elim h [ ]
get_or_default (v ∷ vs) zero c d h = refl
get_or_default (v ∷ vs) (suc i) c d h = get_or_default vs i c d (omega arith)

length-swap : (vs : List String) (i o : ℕ) → length (swap vs i o) ≡ length vs
unfolding swap
length-swap vs i o =
    length-set (set vs i (get_or vs o "")) o (get_or vs i "") ∙ length-set vs i (get_or vs o "")

get_or-swap :
    (vs : List String) (i o j : ℕ) (d : String)
    → i < length vs
    → o < length vs
    → get_or (swap vs i o) j d
      ≡ (if eqb o j then get_or vs i d else if eqb i j then get_or vs o d else get_or vs j d)
unfolding swap
get_or-swap vs i o j d hi ho = ground (
  arith,
  length-set vs i (get_or vs o ""),
  get_or-set (set vs i (get_or vs o "")) o j (get_or vs i "") d,
  get_or-set vs i j (get_or vs o "") d,
  get_or_default vs i "" d,
  get_or_default vs o "" d,
)

length-reverse_loop : (i : ℕ) (vs : List String) → length (reverse_loop i vs) ≡ length vs
unfolding reverse_loop
length-reverse_loop zero vs = refl
length-reverse_loop (suc i) vs =
    length-reverse_loop i (swap vs i (length vs - 1 - i)) ∙ length-swap vs i (length vs - 1 - i)

-- The loop mirrors the positions that it has still to visit, and leaves the middle alone.
get_or-reverse_loop :
    (i : ℕ) (vs : List String) (j : ℕ) (d : String)
    → i + i ≤ length vs
    → j < length vs
    → get_or (reverse_loop i vs) j d ≡ (
        if ltb j i || ltb (length vs - 1 - j) i
        then get_or vs (length vs - 1 - j) d
        else get_or vs j d)
unfolding reverse_loop
get_or-reverse_loop zero vs j d h hj = ground arith
get_or-reverse_loop (suc i) vs j d h hj =
    let ws = swap vs i (length vs - 1 - i) in
    ground (
      arith,
      length-swap vs i (length vs - 1 - i),
      get_or-reverse_loop i ws j d,
      get_or-swap vs i (length vs - 1 - i) j d,
      get_or-swap vs i (length vs - 1 - i) (length vs - 1 - j) d,
    )

pub length-reverse : (vs : List String) → length (reverse vs) ≡ length vs
unfolding reverse
length-reverse vs = length-reverse_loop (length vs / 2) vs

get_or-reverse :
    (vs : List String) (j : ℕ) (d : String)
    → j < length vs
    → get_or (reverse vs) j d ≡ get_or vs (length vs - 1 - j) d
unfolding reverse
get_or-reverse vs j d h = ground (
  arith,
  get_or-reverse_loop (length vs / 2) vs j d,
  ap (λ k. get_or vs k d) {x = j} {y = length vs - 1 - j},
)

list_ext :
    (vs ws : List String)
    → length vs ≡ length ws
    → ((j : ℕ) → j < length vs → get_or vs j "" ≡ get_or ws j "")
    → vs ≡ ws
list_ext [] [] h e = refl
list_ext [] (w ∷ ws) h e = absurd (omega arith)
list_ext (v ∷ vs) [] h e = absurd (omega arith)
list_ext (v ∷ vs) (w ∷ ws) h e =
    cc (e 0 (omega arith), list_ext vs ws (omega arith) (λ j lt. e (suc j) (omega arith)))

-- Reverse keeps the length of the slice, and moves every element to the mirrored position.
pub reverse_mirrors :
    (vs : List String)
    → (length (reverse vs) ≡ length vs)
      × ((j : ℕ) (d : String)
          → j < length vs
          → get_or (reverse vs) j d ≡ get_or vs (length vs - 1 - j) d)
reverse_mirrors vs = (length-reverse vs, λ j d h. get_or-reverse vs j d h)

-- Reversing a slice twice gives the slice back.
pub reverse-reverse : (vs : List String) → reverse (reverse vs) ≡ vs
reverse-reverse vs =
    list_ext (reverse (reverse vs)) vs (length-reverse (reverse vs) ∙ length-reverse vs) λ j lt.
      let n = length-reverse vs in
      let m = length-reverse (reverse vs) in
      get_or-reverse (reverse vs) j "" (omega arith)
      ∙ get_or-reverse vs (length (reverse vs) - 1 - j) "" (omega arith)
      ∙ ap (λ k. get_or vs k "") (omega arith)
