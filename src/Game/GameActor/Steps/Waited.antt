-- ===== src/Game/GameActor/Steps/Waited.antt =====
-- game/game.go: the commands that wait stay within reach if they end, tell the user something if they
-- succeed, and end if the event comes.
use jasons_game.Base.{◌<◌, String, ◌≡◌, refl, ap, subst, Option, some, none, arith}
use jasons_game.Network.{Error, Res, ok, err, panic, message, wrap, already_exists, Network}
use jasons_game.Game.ObjectTree.{get_name}
use jasons_game.Game.InventoryActor.{Response, respond_ok, respond_error, no_response}
use jasons_game.Game.GameActor.{Surroundings, Reply, failed, odd, reply, on_net}
use jasons_game.Game.GameActor.Steps.{if-Runs, then-Runs, on_net-Runs, runs}
use jasons_game.Game.GameActor.Steps.Spoken.{Speaks, then-Speaks, send_user_message-Speaks, speaks}
use jasons_game.Network.{M, Res, fail, pure}
use jasons_game.Game.GameActor.{Session}
use jasons_game.Game.GameActor.Messages.{say}
use jasons_game.Game.GameActor.Waiting.{
  Waits, without_waiting, go_on, and_wait, when_told, wait_for, event_error, receive_asked,
  received, handle_receive_object_cmd, name_or_object, already_held, told_of_object, picked_up,
  pick_up_asked, handle_pick_up_object,
}
use jasons_game.Game.PlayerInventoryHandler.{InventoryChangeEvent}
use jasons_game.Network.{error_string}
use jasons_game.Game.GameActor.Steps.{
  Reach, here, Reach-append, Runs, bind-Runs, next, unseen, send_user_message-Runs,
}
use jasons_game.Game.GameActor.Steps.Spoken.{heard, Reach-heard}

module _ (net : Network) (O : Type 0) where
  -- What an action ends in, if it does, is within reach of the session.
  abbrev pub EndsWithin : Session net O → Option (Res (Unit {0}) × Session net O) → Type 0
  EndsWithin s none = Unit
  EndsWithin s (some (r, s')) = Reach net O s s'

  -- What is within reach of a session in reach is in reach itself.
  pub further :
      {s t : Session net O}
      → Reach net O s t
      → (o : Option (Res (Unit {0}) × Session net O)) → EndsWithin t o
      → EndsWithin s o
  further p none h = tt
  further p (some (r, u)) h = Reach-append net O p h

  -- Whether what an action ends in comes with a message to the user.
  abbrev pub Answered : Session net O → Option (Res (Unit {0}) × Session net O) → Type 0
  Answered s o = (s' : Session net O) → o ≡ some (ok tt, s') → heard s.sent < heard s'.sent

  pub Speaks-Answered :
      (m : M (Session net O) (Unit {0}))
      → Speaks net O m
      → (s : Session net O) → Answered s (some (m s))
  Speaks-Answered m h s s' e =
      let same : m s ≡ (ok tt, s') = cc in
      subst (λ q. heard s.sent < heard q.1.sent) same (h.speaks s tt (ap (λ q. q.0) same))

  -- What is answered after steps that are within reach is answered.
  further-Answered :
      {s t : Session net O}
      → Reach net O s t
      → (o : Option (Res (Unit {0}) × Session net O)) → Answered t o
      → Answered s o
  further-Answered p o h s' e =
      let before = Reach-heard net O p in let after = h s' e in omega (arith, before, after)

  -- An action that ends.
  abbrev pub Ends : Option (Res (Unit {0}) × Session net O) → Type 0
  Ends o = (q : Res (Unit {0}) × Session net O) × (o ≡ some q)

module _ (net : Network) (O : Type 0) (around : Surroundings (net.World × O)) where
  -- Every event that is waited for comes.
  abbrev pub EventsCome : Type 0
  EventsCome =
      (did : String) (w : net.World × O)
      → (q : InventoryChangeEvent × (net.World × O)) × (around.next_event did w ≡ some q)

  -- An action that stays within reach and is answered if it ends, and ends if the events come.
  pub record Waited (m : Waits net O around) : Type 0 where
    pub ends_within : (s : Session net O) → EndsWithin net O s (m s)
    pub answered : (s : Session net O) → Answered net O s (m s)
    pub ends : EventsCome → (s : Session net O) → Ends net O (m s)

  at_once :
      (m : M (Session net O) (Unit {0}))
      → Runs net O m
      → Speaks net O m
      → Waited (without_waiting net O around m)
  at_once m h h' = record {
    ends_within = h.reach;
    answered = Speaks-Answered net O m h';
    ends = λ come s. (m s, refl);
  }

  go_on-Waited :
      {A : Type 0} (k : A → Waits net O around)
      → ((a : A) → Waited (k a))
      → (s : Session net O) (q : Res A × Session net O) → Reach net O s q.1
      → EndsWithin net O s (go_on net O around k q)
        × Answered net O s (go_on net O around k q)
        × (EventsCome → Ends net O (go_on net O around k q))
  go_on-Waited k h s (ok a, t) r = (
    further net O r (k a t) ((h a).ends_within t),
    further-Answered net O r (k a t) ((h a).answered t),
    λ come. (h a).ends come t,
  )
  go_on-Waited k h s (err e, t) r = (r, λ s' same. absurd cc, λ come. (_, refl))
  go_on-Waited k h s (panic, t) r = (r, λ s' same. absurd cc, λ come. (_, refl))

  and_wait-Waited :
      {A : Type 0} (m : M (Session net O) A) (k : A → Waits net O around)
      → Runs net O m
      → ((a : A) → Waited (k a))
      → Waited (and_wait net O around m k)
  unfolding and_wait
  and_wait-Waited m k h h' = record {
    ends_within = λ s. (go_on-Waited k h' s (m s) (h.reach s)).0;
    answered = λ s. (go_on-Waited k h' s (m s) (h.reach s)).1;
    ends = λ come s. (go_on-Waited k h' s (m s) (h.reach s)).2 come;
  }

  when_told-EndsWithin :
      (k : InventoryChangeEvent → M (Session net O) (Unit {0}))
      → ((e : InventoryChangeEvent) → Runs net O (k e))
      → (o : Option (InventoryChangeEvent × (net.World × O))) (s : Session net O)
      → EndsWithin net O s (when_told net O around k o s)
  unfolding when_told
  when_told-EndsWithin k h none s = tt
  when_told-EndsWithin k h (some (e, (w, o))) s =
      Reach-append net O (next here (unseen refl refl refl)) ((h e).reach _)

  when_told-Answered :
      (k : InventoryChangeEvent → M (Session net O) (Unit {0}))
      → ((e : InventoryChangeEvent) → Speaks net O (k e))
      → (o : Option (InventoryChangeEvent × (net.World × O))) (s : Session net O)
      → Answered net O s (when_told net O around k o s)
  unfolding when_told
  when_told-Answered k h none s = λ s' e. absurd cc
  when_told-Answered k h (some (e, (w, o))) s =
      Speaks-Answered net O (k e) (h e) (record s { world = w; others = o })

  wait_for-Waited :
      (did : String) (k : InventoryChangeEvent → M (Session net O) (Unit {0}))
      → ((e : InventoryChangeEvent) → Runs net O (k e))
      → ((e : InventoryChangeEvent) → Speaks net O (k e))
      → Waited (wait_for net O around did k)
  unfolding wait_for when_told
  wait_for-Waited did k h h' = record {
    ends_within = λ s. when_told-EndsWithin k h (around.next_event did (s.world, s.others)) s;
    answered = λ s. when_told-Answered k h' (around.next_event did (s.world, s.others)) s;
    ends = λ come s.
        let (q, e) = come did (s.world, s.others) in
        (
          (k q.0 (record s { world = q.1.0; others = q.1.1 })),
          ap (λ o. when_told net O around k o s) e,
        );
  }

  event_error-Runs : (e : InventoryChangeEvent) → Runs net O (event_error net O around e)
  unfolding event_error
  event_error-Runs e = by_error (e.error)
    where
      by_error :
          (o : Option Error)
          → Runs net O (elim o [ none ↦ pure tt | some x ↦ fail (message (error_string x)) ])
      by_error none = search runs
      by_error (some x) = search runs

  received-Runs :
      (did name : String) (e : InventoryChangeEvent) → Runs net O (received net O around did name e)
  unfolding received
  received-Runs did name e = search (runs, event_error-Runs)

  received-Speaks :
      (did name : String) (e : InventoryChangeEvent)
      → Speaks net O (received net O around did name e)
  unfolding received
  received-Speaks did name e = search (speaks, runs, event_error-Runs)

  receive_asked-Runs : (did : String) → Runs net O (receive_asked net O around did)
  unfolding receive_asked
  receive_asked-Runs did = search (if-Runs, runs) depth 20

  pub handle_receive_object_cmd-Waited :
      (did : String) → Waited (handle_receive_object_cmd net O around did)
  unfolding handle_receive_object_cmd
  handle_receive_object_cmd-Waited did =
      and_wait-Waited (receive_asked net O around did) _ (receive_asked-Runs did) (λ name.
        wait_for-Waited did (received net O around did name) (received-Runs did name)
          (received-Speaks did name))

  name_or_object-Runs : (r : Res String) → Runs net O (name_or_object net O around r)
  unfolding name_or_object
  name_or_object-Runs (ok name) = search runs
  name_or_object-Runs (err e) = search runs
  name_or_object-Runs panic = search runs

  already_held-Runs : (did : String) → Runs net O (already_held net O around did)
  unfolding already_held
  already_held-Runs did = bind-Runs net O _ _ (on_net-Runs net O _) (λ t.
      bind-Runs net O _ _
        (then-Runs net O (on_net net O (get_name net t)) (name_or_object net O around)
          (on_net-Runs net O _) name_or_object-Runs)
        (λ name. send_user_message-Runs net O _))

  already_held-Speaks : (did : String) → Speaks net O (already_held net O around did)
  unfolding already_held
  already_held-Speaks did = then-Speaks net O _ _ (on_net-Runs net O _) (λ t.
      then-Speaks net O _ _
        (then-Runs net O (on_net net O (get_name net t)) (name_or_object net O around)
          (on_net-Runs net O _) name_or_object-Runs)
        (λ name. send_user_message-Speaks net O _))

  told_of_object-Runs : (e : InventoryChangeEvent) → Runs net O (told_of_object net O around e)
  unfolding told_of_object
  told_of_object-Runs e = search (runs, event_error-Runs)

  told_of_object-Speaks : (e : InventoryChangeEvent) → Speaks net O (told_of_object net O around e)
  unfolding told_of_object
  told_of_object-Speaks e = search (speaks, runs, event_error-Runs)

  said : (t : String) → Waited (without_waiting net O around (say net O t))
  said t = at_once _ (send_user_message-Runs net O _) (send_user_message-Speaks net O _)

  failed_with : (e : Error) → Waited (without_waiting net O around (fail e))
  failed_with e = at_once _ (search runs) (search speaks)

  picked_up-Waited :
      (did : String) (r : Reply (Response (Unit {0}))) → Waited (picked_up net O around did r)
  unfolding picked_up
  picked_up-Waited did (failed e) = failed_with e
  picked_up-Waited did odd = failed_with _
  picked_up-Waited did (reply no_response) = failed_with _
  picked_up-Waited did (reply (respond_error already_exists)) =
      at_once _ (already_held-Runs did) (already_held-Speaks did)
  picked_up-Waited did (reply (respond_error (message e))) = said _
  picked_up-Waited did (reply (respond_error (wrap e f))) = said _
  picked_up-Waited did (reply (respond_error (Error.external e))) = said _
  picked_up-Waited did (reply (respond_error Error.unsupported_message_type)) = said _
  picked_up-Waited did (reply (respond_ok _)) =
      wait_for-Waited did (told_of_object net O around) told_of_object-Runs told_of_object-Speaks

  pick_up_asked-Runs : (did : String) → Runs net O (pick_up_asked net O around did)
  unfolding pick_up_asked
  pick_up_asked-Runs did = search runs

  pub handle_pick_up_object-Waited :
      (did : String) → Waited (handle_pick_up_object net O around did)
  unfolding handle_pick_up_object
  handle_pick_up_object-Waited did =
      and_wait-Waited (pick_up_asked net O around did) (picked_up net O around did)
        (pick_up_asked-Runs did) (picked_up-Waited did)
