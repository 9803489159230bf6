-- ===== src/Network/Effects.antt =====
-- Go's results and effects. A function that reads or changes the world outside is an action: it
-- returns a result and the world after it, also when it fails or panics.
use Prim.Native.String
use mathlib.Core.Path.{ap, ap₂}
use jasons_game.Base.{String, ◌≡◌, refl, Option, none, some}

-- `wrap m e` is errors.Wrap(e, m), or fmt.Errorf("m: %v", e).
pub data Error : Type 0 where
  message : String → Error
  wrap : String → Error → Error
  unsupported_message_type : Error  -- handlers.ErrUnsupportedMessageType
  already_exists : Error  -- game.ErrExists
  external : String → Error  -- an error of code outside the repository

-- err.Error()
unfoldable pub error_string : Error → String
error_string (message s) = s
error_string (wrap s e) = String.◌++◌ s (String.◌++◌ ": " (error_string e))
error_string unsupported_message_type = "message type is not supported"
error_string already_exists = "inventory: object already exists"
error_string (external s) = s

pub data Res {ℓ} (A : Type ℓ) : Type ℓ where
  ok : A → Res A
  err : Error → Res A
  panic : Res A

abbrev pub M {ℓ} : Type ℓ → Type ℓ → Type ℓ
M W A = W → Res A × W

abbrev pub wrapped {ℓ} : {A : Type ℓ} → String → Res A → Res A
wrapped s (ok a) = ok a
wrapped s (err e) = err (wrap s e)
wrapped s panic = panic

module _ {ℓ} {W A : Type ℓ} where
  abbrev pub pure : A → M W A
  pure a w = (ok a, w)

  abbrev pub fail : Error → M W A
  fail e w = (err e, w)

  abbrev pub panics : M W A
  panics w = (panic, w)

  -- a read of the world
  abbrev pub reads : (W → Res A) → M W A
  reads f w = (f w, w)

  abbrev pub lift : Res A → M W A
  lift r w = (r, w)

  -- if err != nil { return errors.Wrap(err, s) }
  abbrev pub wrapping : String → M W A → M W A
  wrapping s m w = let (r, w') = m w in (wrapped s r, w')

  -- a pointer that is dereferenced
  abbrev pub deref : Option A → M W A
  deref none = panics
  deref (some a) = pure a

module _ {ℓ} {W A B : Type ℓ} where
  abbrev pub proceed : Res A → (A → M W B) → M W B
  proceed (ok a) f w = f a w
  proceed (err e) f w = (err e, w)
  proceed panic f w = (panic, w)

  infixl 10 ◌>>=◌ ◌>>◌
  abbrev pub ◌>>=◌ : M W A → (A → M W B) → M W B
  ◌>>=◌ m f w = let (r, w') = m w in proceed r f w'

  abbrev pub ◌>>◌ : M W A → M W B → M W B
  m >> n = m >>= λ _. n

  proceed-eq-ok :
      (r : Res A) (f : A → M W B) (w : W) {b : B} {w2 : W}
      → proceed r f w ≡ (ok b, w2)
      → (a : A) × (r ≡ ok a) × (f a w ≡ (ok b, w2))
  proceed-eq-ok (ok a) f w h = (a, refl, h)
  proceed-eq-ok (err e) f w h = cc
  proceed-eq-ok panic f w h = cc

  -- A chain that succeeded: its first step did, and so did the rest.
  pub bind-eq-ok :
      (m : M W A) (f : A → M W B) (w : W) {b : B} {w2 : W}
      → (m >>= f) w ≡ (ok b, w2)
      → (a : A) × (w1 : W) × (m w ≡ (ok a, w1)) × (f a w1 ≡ (ok b, w2))
  bind-eq-ok m f w h =
      let (a, e, h') = proceed-eq-ok (m w).0 f (m w).1 h in
      (a, (m w).1, ap (λ (r : Res A). (r, (m w).1)) e, h')

pub wrapped-eq-ok {ℓ} :
    {A : Type ℓ} (s : String) (r : Res A) {a : A} → wrapped s r ≡ ok a → r ≡ ok a
wrapped-eq-ok s (ok b) h = h
wrapped-eq-ok s (err e) h = cc
wrapped-eq-ok s panic h = cc

module _ {ℓ} {W A : Type ℓ} where
  -- What succeeds under a wrapped error succeeds without.
  pub wrapping-eq-ok :
      (s : String) (m : M W A) (w : W) {a : A} {w2 : W}
      → wrapping s m w ≡ (ok a, w2)
      → m w ≡ (ok a, w2)
  wrapping-eq-ok s m w {a} {w2} h =
      ap₂ (λ (r : Res A) (v : W). (r, v)) (wrapped-eq-ok s (m w).0 (ap (λ p. p.0) h))
        (ap (λ p. p.1) h)

  pub deref-eq-ok :
      (o : Option A) (w : W) {a : A} {w2 : W} → deref o w ≡ (ok a, w2) → (o ≡ some a) × (w ≡ w2)
  deref-eq-ok none w h = cc
  deref-eq-ok (some b) w h = (cc, cc)

  pub ok-eq-ok : {a b : A} {w w2 : W} → Path (Res A × W) (ok a, w) (ok b, w2) → (a ≡ b) × (w ≡ w2)
  ok-eq-ok h = (cc, cc)
