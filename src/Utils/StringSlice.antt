-- ===== src/Utils/StringSlice.antt =====
-- utils/stringslice/stringslice.go: searching, comparing and reversing slices of strings.
pub mod Membership
pub mod Reversal
use jasons_game.Base.{
  ℕ, zero, suc, ◌-◌, ◌/◌, String, Bool, true, false, not, ◌&&◌, Option, none, some, List, [], ◌∷◌,
  length, eqb, ◌==◌, if◌then◌else◌,
}

-- The loop of `Index`; -1 is `none`.
index_from : ℕ → List String → String → Option ℕ
index_from i [] t = none
index_from i (v ∷ vs) t = if v == t then some i else index_from (suc i) vs t

unfoldable pub index : List String → String → Option ℕ
unfolding index_from
index vs t = index_from 0 vs t

-- `Index(vs, t) >= 0`
unfoldable pub include : List String → String → Bool
unfolding index
include vs t = elim (index vs t) [ none ↦ false | some i ↦ true ]

unfoldable pub any : List String → (String → Bool) → Bool
any [] f = false
any (v ∷ vs) f = if f v then true else any vs f

unfoldable pub all : List String → (String → Bool) → Bool
all [] f = true
all (v ∷ vs) f = if not (f v) then false else all vs f

unfoldable pub equal : List String → List String → Bool
equal vs vs2 = if not (eqb (length vs) (length vs2)) then false else all vs (λ s. include vs2 s)

-- `vs[i]`, and the write to it; the loop of `Reverse` stays in range.
abbrev pub get_or : List String → ℕ → String → String
get_or [] i d = d
get_or (v ∷ vs) zero d = v
get_or (v ∷ vs) (suc i) d = get_or vs i d

abbrev pub set : List String → ℕ → String → List String
set [] i s = []
set (v ∷ vs) zero s = s ∷ vs
set (v ∷ vs) (suc i) s = v ∷ set vs i s

-- vs[i], vs[opp] = vs[opp], vs[i]
swap : List String → ℕ → ℕ → List String
swap vs i opp = set (set vs i (get_or vs opp "")) opp (get_or vs i "")

-- `for i := len(vs)/2 - 1; i >= 0; i--`: the count is i + 1.
reverse_loop : ℕ → List String → List String
unfolding swap
reverse_loop zero vs = vs
reverse_loop (suc i) vs = reverse_loop i (swap vs i (length vs - 1 - i))

unfoldable pub reverse : List String → List String
unfolding reverse_loop
reverse vs = reverse_loop (length vs / 2) vs
