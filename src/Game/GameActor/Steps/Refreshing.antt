-- ===== src/Game/GameActor/Steps/Refreshing.antt =====
-- The gathering of commands and the change of the location stay within reach.
use jasons_game.Base.{
  ℕ, String, refl, Bool, true, false, Option, some, none, List, [], ◌∷◌, eqb, ◌==◌, Bool-cases, inl,
  inr, if◌then◌else◌,
}
use jasons_game.Network.{Res, ok, err, panic, M, lift, pure, deref, Network}
use jasons_game.Game.Commands.{Command}
use jasons_game.Game.GameActor.{Session, Surroundings, asking, this}
use jasons_game.Game.GameActor.Refresh.{
  responses_of, commands_for, home_did, with_home, unless_home, interaction_commands_for, cache,
  offer, cached, refresh_interactions_for, refresh_each, refresh_all_interactions, forget_commands,
  replace_interactions_for, stop_old, spawn_at, or_dies, store_location, set_location,
  handle_state_change, knows,
}
use jasons_game.Game.GameActor.Steps.{
  if-Runs, runs, unseen, fail-Runs, at_rest, by_steps, here, next, Runs, then-Runs, bind-Runs,
  deref-Runs, asking-Runs, doing-Runs, set_commands-Runs,
}

module _ (net : Network) (O : Type 0) (around : Surroundings (net.World × O)) where
  pub home_did-Runs : Runs net O (home_did net O around)
  unfolding home_did this
  home_did-Runs = bind-Runs net O (this net O) _ (at_rest net O (λ s. refl)) (λ s.
      bind-Runs net O (deref s.player_tree.home_location) _
        (deref-Runs net O s.player_tree.home_location) (λ t. at_rest net O (λ s1. refl)))

  with_home-Runs : (pid : ℕ) (cs : List Command) → Runs net O (with_home net O around pid cs)
  unfolding with_home unless_home
  with_home-Runs pid cs = search (if-Runs, runs, home_did-Runs)

  interaction_commands_for-Runs : (pid : ℕ) → Runs net O (interaction_commands_for net O around pid)
  unfolding interaction_commands_for this
  interaction_commands_for-Runs pid =
      bind-Runs net O (asking net O (around.list_interactions pid)) _
        (asking-Runs net O (around.list_interactions pid))
        (λ r.
          bind-Runs net O (lift (responses_of net O around r)) _ (at_rest net O (λ s. refl))
            (λ responses. bind-Runs net O (this net O) _ (at_rest net O (λ s. refl)) (λ s.
              bind-Runs net O (lift (commands_for (eqb s.inventory_actor pid) responses)) _
                (at_rest net O (λ s1. refl)) (λ cs. with_home-Runs pid cs))))

  cache-Runs : (pid : ℕ) (cs : List Command) → Runs net O (cache net O around pid cs)
  unfolding cache
  cache-Runs pid cs = by_steps net O (λ s. next here (unseen refl refl refl))

  offer-Runs : Runs net O (offer net O around)
  unfolding offer
  offer-Runs = by_steps net O (λ s. (set_commands-Runs net O _).reach s)

  cached-Runs : (pid : ℕ) (r : Res (List Command)) → Runs net O (cached net O around pid r)
  unfolding cached
  cached-Runs pid (ok cs) =
      bind-Runs net O (cache net O around pid cs) _ (cache-Runs pid cs) (λ _. offer-Runs)
  cached-Runs pid (err e) =
      bind-Runs net O (cache net O around pid []) _ (cache-Runs pid []) (λ _. fail-Runs net O e)
  cached-Runs pid panic = at_rest net O (λ s. refl)

  pub refresh_interactions_for-Runs :
      (pid : ℕ) → Runs net O (refresh_interactions_for net O around pid)
  unfolding refresh_interactions_for
  refresh_interactions_for-Runs pid =
      then-Runs net O (interaction_commands_for net O around pid) (cached net O around pid)
        (interaction_commands_for-Runs pid) (cached-Runs pid)

  refresh_each-Runs : (m : List (ℕ × List Command)) → Runs net O (refresh_each net O around m)
  unfolding refresh_each
  refresh_each-Runs [] = at_rest net O (λ s. refl)
  refresh_each-Runs ((pid, cs) ∷ m) =
      bind-Runs net O (refresh_interactions_for net O around pid) _
        (refresh_interactions_for-Runs pid) (λ _. refresh_each-Runs m)

  pub refresh_all_interactions-Runs : Runs net O (refresh_all_interactions net O around)
  unfolding refresh_all_interactions
  refresh_all_interactions-Runs =
      by_steps net O (λ s. (refresh_each-Runs (around.map_order s.commands_by_actor)).reach s)

  stop_old-Runs : (o : Option ℕ) → Runs net O (stop_old net O around o)
  unfolding stop_old
  stop_old-Runs none = at_rest net O (λ s. refl)
  stop_old-Runs (some pid) = doing-Runs net O (around.stop pid)

  spawn_at-Runs : (did : String) → Runs net O (spawn_at net O around did)
  unfolding spawn_at
  spawn_at-Runs did = by_steps net O (λ s. next here (unseen refl refl refl))

  pub or_dies-Runs :
      {A : Type 0} (m : M (Session net O) A) → Runs net O m → Runs net O (or_dies net O around m)
  unfolding or_dies
  or_dies-Runs m h = by_steps net O h.reach

  store_location-Runs : (did : String) → Runs net O (store_location net O around did)
  unfolding store_location
  store_location-Runs did =
      bind-Runs net O (home_did net O around) _ home_did-Runs (λ home. stored (did == home))
    where
      stored :
          (b : Bool)
          → Runs net O (
              if b
              then pure tt
              else or_dies net O around (asking net O (around.store_last_location did)))
      stored true = at_rest net O (λ s. refl)
      stored false =
          or_dies-Runs (asking net O (around.store_last_location did))
            (asking-Runs net O (around.store_last_location did))

  replace_interactions_for-Runs :
      (pid : ℕ) (old : Option ℕ) → Runs net O (replace_interactions_for net O around pid old)
  unfolding replace_interactions_for forget_commands
  replace_interactions_for-Runs pid old =
      bind-Runs net O (forget_commands net O around old) _
        (by_steps net O (λ s. next here (unseen refl refl refl)))
        (λ _. refresh_interactions_for-Runs pid)

  pub set_location-Runs : (did : String) → Runs net O (set_location net O around did)
  unfolding set_location this
  set_location-Runs did = bind-Runs net O (this net O) _ (at_rest net O (λ s. refl)) (λ s.
      bind-Runs net O (stop_old net O around s.location_actor) _ (stop_old-Runs s.location_actor)
        (λ _. bind-Runs net O (spawn_at net O around did) _ (spawn_at-Runs did) (λ pid.
          bind-Runs net O (store_location net O around did) _ (store_location-Runs did) (λ _.
            or_dies-Runs (replace_interactions_for net O around pid s.location_actor)
              (replace_interactions_for-Runs pid s.location_actor)))))

  pub handle_state_change-Runs : (pid : ℕ) → Runs net O (handle_state_change net O around pid)
  unfolding handle_state_change
  handle_state_change-Runs pid = by_steps net O (λ s.
      elim (Bool-cases (knows pid s.commands_by_actor)) [
        | inl e ↦ rw e ((refresh_interactions_for-Runs pid).reach s)
        | inr e ↦ rw e here
      ])
