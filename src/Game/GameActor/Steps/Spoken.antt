-- ===== src/Game/GameActor/Steps/Spoken.antt =====
-- game/game.go: the actions that tell the user something whenever they succeed, and their rules.
use jasons_game.Base.{
  ℕ, suc, ◌<◌, ◌≤◌, String, ◌≡◌, refl, Bool, true, false, Option, some, none, List, [], ◌∷◌, arith,
  if◌then◌else◌,
}
use jasons_game.Network.{Res, ok, err, panic, Error, M, proceed, panics, fail, ◌>>=◌, Network}
use jasons_game.Game.LocationActor.Requests.{Location}
use jasons_game.Game.GameActor.{
  Session, Sent, command_received, message_to_user, command_update, Surroundings,
}
use jasons_game.Game.GameActor.Messages.{
  UserMessage, place, an_error, format_user_message, post, send_user_message, get_current_location,
  send_location, send_ui_location,
}
use jasons_game.Game.GameActor.Steps.{
  send_user_message-Runs, Step, told, acknowledged, offered, unseen, Reach, here, next, Runs,
  get_current_location-Runs,
}

-- how many messages the user has got
unfoldable pub heard : List Sent → ℕ
heard [] = 0
heard (message_to_user text l k ∷ before) = suc (heard before)
heard (command_received k ∷ before) = heard before
heard (command_update cs ∷ before) = heard before

module _ (net : Network) (O : Type 0) where
  abbrev S : Type 0
  S = Session net O

  Step-heard : {s t : S} → Step net O s t → heard s.sent ≤ heard t.sent
  unfolding heard
  Step-heard (told text l sent sequence cs) = rw sent (omega arith)
  Step-heard (acknowledged sent sequence cs) = rw sent (omega arith)
  Step-heard (offered cs sent sequence same) = rw sent (omega arith)
  Step-heard (unseen sent sequence cs) = rw sent (omega arith)

  pub Reach-heard : {s t : S} → Reach net O s t → heard s.sent ≤ heard t.sent
  Reach-heard here = omega arith
  Reach-heard (next r st) = omega (arith, Reach-heard r, Step-heard st)

  -- Whenever the action succeeds, the user has got a message by it.
  pub record Speaks {A : Type 0} (m : M S A) : Type 0 where
    pub speaks : (s : S) (a : A) → (m s).0 ≡ ok a → heard s.sent < heard (m s).1.sent

  -- The first of two actions speaks.
  pub first-Speaks :
      {A B : Type 0} (m : M S A) (f : A → M S B)
      → Speaks m
      → ((a : A) → Runs net O (f a))
      → Speaks (m >>= f)
  first-Speaks m f h h' = record { speaks = λ s b e. go s b (m s) (h.speaks s) e }
    where
      go :
          (s : S) (b : _) (q : Res _ × S)
          → ((a : _) → q.0 ≡ ok a → heard s.sent < heard q.1.sent)
          → (proceed q.0 f q.1).0 ≡ ok b
          → heard s.sent < heard (proceed q.0 f q.1).1.sent
      go s b (ok a, t) first e = omega (arith, first a refl, Reach-heard ((h' a).reach t))
      go s b (err x, t) first e = absurd cc
      go s b (panic, t) first e = absurd cc

  -- The second speaks.
  pub then-Speaks :
      {A B : Type 0} (m : M S A) (f : A → M S B)
      → Runs net O m
      → ((a : A) → Speaks (f a))
      → Speaks (m >>= f)
  then-Speaks m f h h' = record { speaks = λ s b e. go s b (m s) (Reach-heard (h.reach s)) e }
    where
      go :
          (s : S) (b : _) (q : Res _ × S)
          → heard s.sent ≤ heard q.1.sent
          → (proceed q.0 f q.1).0 ≡ ok b
          → heard s.sent < heard (proceed q.0 f q.1).1.sent
      go s b (ok a, t) before e = omega (arith, before, (h' a).speaks t b e)
      go s b (err x, t) before e = absurd cc
      go s b (panic, t) before e = absurd cc

  pub fail-Speaks : {A : Type 0} (e : Error) → Speaks (fail {A = A} e)
  fail-Speaks e = record { speaks = λ s a h. absurd cc }

  pub panics-Speaks : {A : Type 0} → Speaks (panics {A = A})
  panics-Speaks = record { speaks = λ s a h. absurd cc }

  pub if-Speaks :
      {A : Type 0} (b : Bool) (m n : M S A) → Speaks m → Speaks n → Speaks (if b then m else n)
  if-Speaks true m n h h' = h
  if-Speaks false m n h h' = h'

  pub send_user_message-Speaks : (m : UserMessage) → Speaks (send_user_message net O m)
  unfolding send_user_message post heard
  send_user_message-Speaks m = record { speaks = λ s a e. go s a (format_user_message m) e }
    where
      go :
          (s : S) (a : Unit {0}) (r : Res (String × Option Location))
          → (proceed r (post net O) s).0 ≡ ok a
          → heard s.sent < heard (proceed r (post net O) s).1.sent
      go s a (ok p) e = omega arith
      go s a (err x) e = absurd cc
      go s a panic e = absurd cc

  module _ (around : Surroundings (net.World × O)) where
    send_location-Speaks : (r : Res Location) → Speaks (send_location net O around r)
    unfolding send_location
    send_location-Speaks (ok l) = send_user_message-Speaks (place (some l))
    send_location-Speaks (err e) =
        then-Speaks (send_user_message net O (an_error e)) _
          (send_user_message-Runs net O (an_error e)) (λ _. send_user_message-Speaks (place none))
    send_location-Speaks panic = panics-Speaks

    -- What speaks after another action that is within reach.
    pub after-Speaks :
        {A B : Type 0} (m : M S A) (k : Res A → M S B)
        → Runs net O m
        → ((r : Res A) → Speaks (k r))
        → Speaks (λ s. k (m s).0 (m s).1)
    after-Speaks m k h h' = record {
      speaks = λ s b e.
          let before = Reach-heard (h.reach s) in
          omega (arith, before, (h' (m s).0).speaks (m s).1 b e);
    }

    pub send_ui_location-Speaks : Speaks (send_ui_location net O around)
    unfolding send_ui_location
    send_ui_location-Speaks =
        after-Speaks (get_current_location net O around) (send_location net O around)
          (get_current_location-Runs net O around) send_location-Speaks

-- The rules by which chains of actions speak.
pub ruleset speaks = (
  then-Speaks, first-Speaks, fail-Speaks, panics-Speaks, if-Speaks, send_user_message-Speaks,
  send_ui_location-Speaks,
)
