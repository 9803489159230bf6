-- ===== src/Base/Texts.antt =====
-- Concatenation of texts and `strings.Join` with a slash; `◌<>◌` is Go's `+` on strings.
use Prim.Native.Nat.{ℕ, suc}
use Prim.Native.String
use Prim.Native.String.{String}
use Prim.Native.Char.{Char, code}
use mathlib.Core.Bool.{Bool, false, ◌||◌}
use mathlib.Core.Path.{◌≡◌, ap, ◌∙◌, sym}
use native.Mathlib.Omega.{arith}
use package.text.Mathlib.TextLemmas.{nil-append, cons-append, head-eq_of_cons-eq, cons≢nil}
use mathlib.Core.List.{List, [], ◌∷◌}
use jasons_game.Base.Tests.{eqb, beq_of_ne}
use text.Mathlib.Text.{◌==◌}

infixr 66 ◌<>◌
abbrev pub ◌<>◌ : String → String → String
s <> t = String.◌++◌ s t

-- strings.Join(parts, "/")
abbrev pub join : List String → String
join [] = ""
join (s ∷ []) = s
join (s ∷ t ∷ rest) = s <> "/" <> join (t ∷ rest)

-- Does a slash stand in the text?
abbrev pub has_slash : String → Bool
has_slash String.[] = false
has_slash (String.◌∷◌ c s) = eqb (code c) b'/' || has_slash s

pub has_slash-append : (s t : String) → has_slash (s <> t) ≡ (has_slash s || has_slash t)
has_slash-append String.[] t = ap has_slash (nil-append t)
has_slash-append (String.◌∷◌ c s) t =
    ap has_slash (cons-append c s t) ∙ ground (arith, has_slash-append s t)

-- Texts with different first characters.
pub ne_of_first :
    (c d : Char) (r s t u : String)
    → eqb (code c) (code d) ≡ false
    → ((String.◌∷◌ c r <> t) == (String.◌∷◌ d s <> u)) ≡ false
ne_of_first c d r s t u h =
    beq_of_ne _ _ (λ (e : Path String (String.◌∷◌ c r <> t) (String.◌∷◌ d s <> u)).
      ground
        (arith, ap code (head-eq_of_cons-eq (sym (cons-append c r t) ∙ e ∙ cons-append d s u))))

pub nonempty_of_first : (c : Char) (r t : String) → ((String.◌∷◌ c r <> t) == "") ≡ false
nonempty_of_first c r t =
    beq_of_ne _ _
      (λ (e : Path String (String.◌∷◌ c r <> t) ""). cons≢nil (sym (cons-append c r t) ∙ e))

-- len of bytes, of which each is a character
abbrev pub byte_count : String → ℕ
byte_count String.[] = 0
byte_count (String.◌∷◌ c s) = suc (byte_count s)
