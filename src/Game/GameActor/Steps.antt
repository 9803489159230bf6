-- ===== src/Game/GameActor/Steps.antt =====
-- What the handlers of game/game.go do to a session, as a relation: a step sends a numbered message,
-- offers commands, or changes neither what was sent nor the commands.
pub mod Refreshing
pub mod Objects
pub mod Locations
pub mod Whole
pub mod Numbered
pub mod Started
pub mod Spoken
pub mod Heard
pub mod Waited
use jasons_game.Base.{
  if◌then◌else◌, ℕ, ◌+◌, ◌%◌, String, ◌≡◌, refl, sym, ap, subst, ◌∙◌, Bool, true, false, Option,
  some, none, List, [], ◌∷◌, map,
}
use jasons_game.Network.{
  Res, ok, err, panic, Error, message, M, proceed, panics, pure, fail, lift, wrapping, wrapped,
  deref, ◌>>=◌, Network,
}
use jasons_game.Game.Commands.{Command, parse}
use jasons_game.Game.LocationActor.Requests.{Location}
use jasons_game.Game.GameActor.{
  Session, Sent, command_received, message_to_user, command_update, Surroundings, on_net, asking,
  doing, this, location_pid, uint64,
}
use jasons_game.Game.GameActor.Messages.{
  UserMessage, plain, format_user_message, post, send_user_message, acknowledge_receipt,
  send_command_update, set_commands, get_current_location, location_of, send_location,
  send_ui_location, get_inventory_list, objects_in, send_artifact_hint, has_artifact, place,
  an_error,
}

module _ (net : Network) (O : Type 0) where
  abbrev S : Type 0
  S = Session net O

  pub data Step (s s' : S) : Type 0 where
    told :
        (text : String) (l : Option Location)
        → s'.sent ≡ message_to_user text l s.message_sequence ∷ s.sent
        → s'.message_sequence ≡ (s.message_sequence + 1) % uint64
        → s'.commands ≡ s.commands
        → Step s s'
    acknowledged :
        s'.sent ≡ command_received s.message_sequence ∷ s.sent
        → s'.message_sequence ≡ (s.message_sequence + 1) % uint64
        → s'.commands ≡ s.commands
        → Step s s'
    offered :
        (cs : List Command)
        → s'.sent ≡ command_update (map parse cs) ∷ s.sent
        → s'.message_sequence ≡ s.message_sequence
        → s'.commands ≡ cs
        → Step s s'
    unseen :
        s'.sent ≡ s.sent
        → s'.message_sequence ≡ s.message_sequence
        → s'.commands ≡ s.commands
        → Step s s'

  pub data Reach (s : S) : S → Type 0 where
    here : Reach s s
    next : {t u : S} → Reach s t → Step t u → Reach s u

  pub Reach-append : {s t u : S} → Reach s t → Reach t u → Reach s u
  Reach-append r here = r
  Reach-append r (next q st) = next (Reach-append r q) st

  -- An action that takes a session to one that is within reach.
  pub record Runs {A : Type 0} (m : M S A) : Type 0 where
    pub reach : (s : S) → Reach s (m s).1

  -- A session that stays what it is.
  pub at_rest : {A : Type 0} {m : M S A} → ((s : S) → (m s).1 ≡ s) → Runs m
  at_rest h = record { reach = λ s. subst (λ t. Reach s t) (sym (h s)) here }

  pub by_steps : {A : Type 0} {m : M S A} → ((s : S) → Reach s (m s).1) → Runs m
  by_steps h = record { reach = h }

  -- One action, and another that depends on its result.
  pub then-Runs :
      {A B : Type 0} (m : M S A) (k : Res A → M S B)
      → Runs m
      → ((r : Res A) → Runs (k r))
      → Runs (λ s. k (m s).0 (m s).1)
  then-Runs m k h h' = by_steps (λ s. Reach-append (h.reach s) ((h' (m s).0).reach (m s).1))

  proceed-Runs :
      {A B : Type 0} (f : A → M S B) (r : Res A) → ((a : A) → Runs (f a)) → Runs (proceed r f)
  proceed-Runs f (ok a) h = h a
  proceed-Runs f (err e) h = at_rest (λ s. refl)
  proceed-Runs f panic h = at_rest (λ s. refl)

  pub bind-Runs :
      {A B : Type 0} (m : M S A) (f : A → M S B) → Runs m → ((a : A) → Runs (f a)) → Runs (m >>= f)
  bind-Runs m f h h' = then-Runs m (λ r. proceed r f) h (λ r. proceed-Runs f r h')

  pub wrapping-Runs : {A : Type 0} (e : String) (m : M S A) → Runs m → Runs (wrapping e m)
  wrapping-Runs e m h = by_steps h.reach

  pub lift-Runs : {A : Type 0} (r : Res A) → Runs (lift r)
  lift-Runs r = at_rest (λ s. refl)

  pub pure-Runs : {A : Type 0} (a : A) → Runs (pure a)
  pure-Runs a = at_rest (λ s. refl)

  pub fail-Runs : {A : Type 0} (e : Error) → Runs (fail {A = A} e)
  fail-Runs e = at_rest (λ s. refl)

  pub panics-Runs : {A : Type 0} → Runs (panics {A = A})
  panics-Runs = at_rest (λ s. refl)

  pub this-Runs : Runs (this net O)
  unfolding this
  this-Runs = at_rest (λ s. refl)

  pub location_pid-Runs : Runs (location_pid net O)
  unfolding location_pid
  location_pid-Runs = at_rest (λ s. refl)

  pub deref-Runs : {A : Type 0} (o : Option A) → Runs (deref o)
  deref-Runs none = at_rest (λ s. refl)
  deref-Runs (some a) = at_rest (λ s. refl)

  pub on_net-Runs : {A : Type 0} (m : M net.World A) → Runs (on_net net O m)
  unfolding on_net
  on_net-Runs m = by_steps (λ s. next here (unseen refl refl refl))

  pub asking-Runs : {A : Type 0} (m : M (net.World × O) A) → Runs (asking net O m)
  unfolding asking
  asking-Runs m = by_steps (λ s. next here (unseen refl refl refl))

  pub doing-Runs : (f : net.World × O → net.World × O) → Runs (doing net O f)
  unfolding doing
  doing-Runs f = by_steps (λ s. next here (unseen refl refl refl))

  -- A choice between two actions.
  pub if-Runs : {A : Type 0} (b : Bool) (m n : M S A) → Runs m → Runs n → Runs (if b then m else n)
  if-Runs true m n h h' = h
  if-Runs false m n h h' = h'

  pub send_user_message-Runs : (m : UserMessage) → Runs (send_user_message net O m)
  unfolding send_user_message
  send_user_message-Runs m =
      bind-Runs (lift (format_user_message m)) (post net O) (at_rest (λ s. refl))
        (λ p. by_steps (λ s. next here (told p.0 p.1 refl refl refl)))

  pub acknowledge_receipt-Runs : (b : Bool) → Runs (acknowledge_receipt net O b)
  unfolding acknowledge_receipt
  acknowledge_receipt-Runs false = at_rest (λ s. refl)
  acknowledge_receipt-Runs true = by_steps (λ s. next here (acknowledged refl refl refl))

  pub set_commands-Runs : (cs : List Command) → Runs (set_commands net O cs)
  unfolding set_commands
  set_commands-Runs cs = by_steps (λ s. next here (offered cs refl refl refl))

  pub send_artifact_hint-Runs :
      (objects : List (String × String)) → Runs (send_artifact_hint net O objects)
  unfolding send_artifact_hint
  send_artifact_hint-Runs objects = hint (has_artifact net O objects)
    where
      hint : (b : Bool) → Runs (if b then send_user_message net O (plain "-") else pure tt)
      hint true = send_user_message-Runs (plain "-")
      hint false = at_rest (λ s. refl)

  module _ (around : Surroundings (net.World × O)) where
    pub get_current_location-Runs : Runs (get_current_location net O around)
    unfolding get_current_location location_pid
    get_current_location-Runs = bind-Runs (location_pid net O) _ (at_rest (λ s. refl)) (λ pid.
        bind-Runs (asking net O (around.get_location pid)) _ (asking-Runs (around.get_location pid))
          (λ r. at_rest (λ s. refl)))

    pub get_inventory_list-Runs : (pid : ℕ) → Runs (get_inventory_list net O around pid)
    unfolding get_inventory_list
    get_inventory_list-Runs pid =
        bind-Runs (asking net O (around.inventory_list pid)) _
          (asking-Runs (around.inventory_list pid)) (λ r. at_rest (λ s. refl))

    send_location-Runs : (r : Res Location) → Runs (send_location net O around r)
    unfolding send_location
    send_location-Runs (ok l) = send_user_message-Runs (place (some l))
    send_location-Runs (err e) =
        bind-Runs (send_user_message net O (an_error e)) _ (send_user_message-Runs (an_error e))
          (λ _. send_user_message-Runs (place none))
    send_location-Runs panic = at_rest (λ s. refl)

    pub send_ui_location-Runs : Runs (send_ui_location net O around)
    unfolding send_ui_location
    send_ui_location-Runs =
        then-Runs (get_current_location net O around) (send_location net O around)
          get_current_location-Runs send_location-Runs

-- The rules by which chains of actions stay within reach.
pub ruleset runs = (
  bind-Runs, wrapping-Runs, lift-Runs, pure-Runs, fail-Runs, panics-Runs, this-Runs,
  location_pid-Runs, deref-Runs, on_net-Runs, asking-Runs, doing-Runs, send_user_message-Runs,
  get_inventory_list-Runs, get_current_location-Runs, send_ui_location-Runs,
  send_artifact_hint-Runs,
)
