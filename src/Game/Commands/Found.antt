-- ===== src/Game/Commands/Found.antt =====
-- The command that is found is the first one whose text begins the request.

use package.text.Mathlib.TextLemmas.{nil-append, cons-append}
use jasons_game.Base.{
  String, ◌≡◌, refl, sym, ◌∙◌, ap, Option-cases, inl, inr, Option, none, some, List, [], ◌∷◌, ◌++◌,
  ◌<>◌, arith, All,
}
use jasons_game.Game.Commands.{Command, parse, after_prefix, trim_space, find_command}

pub after_prefix-append : (p s : String) → after_prefix p (p <> s) ≡ some s
after_prefix-append String.[] s = ap some (nil-append s)
after_prefix-append (String.◌∷◌ c p) s =
    ap (after_prefix (String.◌∷◌ c p)) (cons-append c p s) ∙ ground (arith, after_prefix-append p s)

-- The request starts with none of the commands' texts.
abbrev pub NoPrefix : String → List Command → Type 0
NoPrefix req = All (λ c. after_prefix (parse c) req ≡ none)

-- The command, what stands before it in the list and what follows its text in the request.
pub record FoundCommand (cl : List Command) (req : String) (c : Command) (rest : String)
    : Type 0 where
  pub before : List Command
  pub later : List Command
  pub tail : String
  pub stands : cl ≡ before ++ c ∷ later
  pub first : NoPrefix req before
  pub begins : after_prefix (parse c) req ≡ some tail
  pub trimmed : rest ≡ trim_space tail

pair_injective :
    {a b : Command} {x y : String}
    → Path (Option Command × String) (some a, x) (some b, y)
    → (a ≡ b) × (x ≡ y)
pair_injective h = (cc, cc)

-- A command that is found stands in the list, its text begins the request, the text of no command
-- before it does, and what is returned beside it is what follows the text, without the spaces at
-- both ends.
pub find_command-found :
    (cl : List Command) (req rest : String) (c : Command)
    → find_command cl req ≡ (some c, rest)
    → FoundCommand cl req c rest
unfolding find_command
find_command-found [] req rest c h = cc
find_command-found (d ∷ cl) req rest c h = elim (Option-cases (after_prefix (parse d) req)) [
  | inl e ↦
      let f = find_command-found cl req rest c (rw (e, find_command) at h) in
      record {
        before = d ∷ f.before;
        later = f.later;
        tail = f.tail;
        stands = ap (λ l. d ∷ l) f.stands;
        first = (e, f.first);
        begins = f.begins;
        trimmed = f.trimmed;
      }
  | inr (tail, e) ↦
      let (same, trimmed) = pair_injective (rw (e, find_command) at h) in
      record {
        before = [];
        later = cl;
        tail = tail;
        stands = ap (λ x. x ∷ cl) same;
        first = tt;
        begins = ap (λ x. after_prefix (parse x) req) (sym same) ∙ e;
        trimmed = sym trimmed;
      }
]

-- A command whose text begins the request, where the texts of the commands before it do not, is
-- found, with what follows its text without the spaces at both ends.
pub find_command-first :
    (before later : List Command) (c : Command) (req tail : String)
    → NoPrefix req before
    → after_prefix (parse c) req ≡ some tail
    → find_command (before ++ c ∷ later) req ≡ (some c, trim_space tail)
unfolding find_command
find_command-first [] later c req tail n e = rw (e, find_command) refl
find_command-first (d ∷ before) later c req tail n e =
    rw (n.0, find_command) (find_command-first before later c req tail n.1 e)

pub find_command-none :
    (cl : List Command) (req : String) → NoPrefix req cl → find_command cl req ≡ (none, "")
unfolding find_command
find_command-none [] req h = refl
find_command-none (d ∷ cl) req h = rw (h.0, find_command) (find_command-none cl req h.1)
