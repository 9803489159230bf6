-- ===== src/Courts/Autumn/PickUp/Quiet.antt =====
-- Steps whose errors have another text.
use jasons_game.Base.{String, ◌≡◌, ◌∙◌, ap}
use jasons_game.Network.{Res, ok, err, panic, M, ◌>>=◌}
use jasons_game.Courts.Autumn.PickUp.{saying, replaced}
use jasons_game.Handlers.Quiet.{IsQuiet, quiet-bind}

replaced-eq-ok : {A : Type 0} (s : String) (r : Res A) {a : A} → replaced s r ≡ ok a → r ≡ ok a
unfolding replaced
replaced-eq-ok s (ok a) h = h
replaced-eq-ok s (err e) h = cc
replaced-eq-ok s panic h = cc

module _ {W A : Type 0} where
  -- What succeeds under another text of its error succeeds without.
  pub saying-eq-ok :
      (s : String) (m : M W A) (w : W) {a : A} {w2 : W}
      → saying s m w ≡ (ok a, w2)
      → m w ≡ (ok a, w2)
  saying-eq-ok s m w {a} {w2} e =
      ap (λ (x : Res A). (x, (m w).1)) (replaced-eq-ok s (m w).0 (ap (λ (p : Res A × W). p.0) e))
      ∙ ap (λ (v : W). (ok a, v)) (ap (λ (p : Res A × W). p.1) e)

module _ {W A B : Type 0} where
  -- A chain that succeeded after a quiet step whose error has another text.
  pub saying-bind :
      (s : String) (m : M W A) (f : A → M W B) (w : W) {b : B} {w2 : W}
      → IsQuiet m
      → (saying s m >>= f) w ≡ (ok b, w2)
      → (a : A) × (m w ≡ (ok a, w)) × (f a w ≡ (ok b, w2))
  saying-bind s m f w q h =
      let (a, e, rest) = quiet-bind (saying s m) f w q h in
      let r : (m w).0 ≡ ok a = replaced-eq-ok s (m w).0 (ap (λ (p : Res A × W). p.0) e) in
      (a, ap (λ (x : Res A). (x, (m w).1)) r ∙ ap (λ v. (ok a, v)) (q w), rest)
