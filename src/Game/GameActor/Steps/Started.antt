-- ===== src/Game/GameActor/Steps/Started.antt =====
-- game/game.go: a game that has started is in step with its user.
use jasons_game.Base.{ℕ, String, ◌≡◌, refl, Option, some, none, List, map}
use jasons_game.Network.{Res, ok, err, panic, M, proceed, pure, ◌>>=◌, Network}
use jasons_game.Game.Commands.{Command, parse}
use jasons_game.Game.GameActor.{Session, Surroundings, this}
use jasons_game.Game.GameActor.Messages.{set_commands, send_command_update}
use jasons_game.Game.GameActor.Refresh.{
  or_dies, refresh_interactions_for, interaction_commands_for, cached, cache, offer,
}
use jasons_game.Game.GameActor.Start.{
  start_or_home, get_default_location, tell_flash, initialize_game,
}
use jasons_game.Game.GameActor.Steps.{if-Runs, here, Reach, Runs, by_steps, runs}
use jasons_game.Game.GameActor.Steps.Refreshing.{
  set_location-Runs, home_did-Runs, refresh_interactions_for-Runs, or_dies-Runs,
}
use jasons_game.Game.GameActor.Steps.Locations.{static_or_empty-Runs}
use jasons_game.Game.GameActor.Steps.Numbered.{
  IsNumbered, last_update, IsInStep, Reach-IsNumbered, Reach-updated,
}

module _ (net : Network) (O : Type 0) where
  -- The user was told the commands that the session knows.
  abbrev IsUpdated : Session net O → Type 0
  IsUpdated s = last_update s.sent ≡ some (map parse s.commands)

  -- Whenever the action succeeds, the user knows the commands.
  record Updates {A : Type 0} (m : M (Session net O) A) : Type 0 where
    updates : (s : Session net O) (a : A) → (m s).0 ≡ ok a → IsUpdated (m s).1

  first-Updates :
      {A B : Type 0} (m : M (Session net O) A) (f : A → M (Session net O) B)
      → Updates m
      → ((a : A) → Runs net O (f a))
      → Updates (m >>= f)
  first-Updates m f h h' = record { updates = λ s b e. go b (m s) (h.updates s) e }
    where
      go :
          (b : _) (q : Res _ × Session net O)
          → ((a : _) → q.0 ≡ ok a → IsUpdated q.1)
          → (proceed q.0 f q.1).0 ≡ ok b
          → IsUpdated (proceed q.0 f q.1).1
      go b (ok a, t) first e = Reach-updated net O ((h' a).reach t) (first a refl)
      go b (err x, t) first e = absurd cc
      go b (panic, t) first e = absurd cc

  then-Updates :
      {A B : Type 0} (m : M (Session net O) A) (f : A → M (Session net O) B)
      → ((a : A) → Updates (f a))
      → Updates (m >>= f)
  then-Updates {A} {B} m f h' = record { updates = λ s b e. go b (m s) e }
    where
      go :
          (b : B) (q : Res A × Session net O)
          → (proceed q.0 f q.1).0 ≡ ok b
          → IsUpdated (proceed q.0 f q.1).1
      go b (ok a, t) e = (h' a).updates t b e
      go b (err x, t) e = absurd cc
      go b (panic, t) e = absurd cc

  module _ (around : Surroundings (net.World × O)) where
    cached-Updates : (pid : ℕ) (r : Res (List Command)) → Updates (cached net O around pid r)
    unfolding cached cache offer set_commands send_command_update last_update
    cached-Updates pid (ok cs) = record { updates = λ s a e. refl }
    cached-Updates pid (err x) = record { updates = λ s a e. absurd cc }
    cached-Updates pid panic = record { updates = λ s a e. absurd cc }

    refresh_interactions_for-Updates :
        (pid : ℕ) → Updates (refresh_interactions_for net O around pid)
    unfolding refresh_interactions_for
    refresh_interactions_for-Updates pid = record {
      updates = λ s a e.
          let (r, t) = interaction_commands_for net O around pid s in
          (cached-Updates pid r).updates t a e;
    }

    or_dies-Updates :
        {A : Type 0} (m : M (Session net O) A) → Updates m → Updates (or_dies net O around m)
    unfolding or_dies
    or_dies-Updates {A} m h = record { updates = λ s a e. go a (m s) (h.updates s) e }
      where
        go :
            (a : A) (q : Res A × Session net O)
            → ((a : A) → q.0 ≡ ok a → IsUpdated q.1)
            → (elim (q.0) as (λ _. Res A) [ ok a ↦ ok a | err e ↦ panic | panic ↦ panic ]) ≡ ok a
            → IsUpdated q.1
        go a (ok b, t) first e = first b refl
        go a (err x, t) first e = absurd cc
        go a (panic, t) first e = absurd cc

    start_or_home-Runs : Runs net O (start_or_home net O around)
    unfolding start_or_home
    start_or_home-Runs = search (if-Runs, runs, home_did-Runs, static_or_empty-Runs)

    default_or-Runs :
        (s : Session net O) (o : Option String)
        → Reach net O s
            (elim o as (λ _. Res String × Session net O) [
              | some did ↦ pure did s
              | none ↦ start_or_home net O around s
            ]).1
    default_or-Runs s none = start_or_home-Runs.reach s
    default_or-Runs s (some did) = here

    get_default_location-Runs : Runs net O (get_default_location net O around)
    unfolding get_default_location
    get_default_location-Runs =
        by_steps net O (λ s. default_or-Runs s (around.last_location (s.world, s.others)))

    tell_flash-Runs : (flash : String) → Runs net O (tell_flash net O around flash)
    unfolding tell_flash
    tell_flash-Runs flash = search (if-Runs, runs)

    initialize_game-Runs : Runs net O (initialize_game net O around)
    unfolding initialize_game
    initialize_game-Runs =
        search
          (
            runs, or_dies-Runs, refresh_interactions_for-Runs, get_default_location-Runs,
            set_location-Runs, static_or_empty-Runs, tell_flash-Runs,
          )
          depth 40

    initialize_game-Updates : Updates (initialize_game net O around)
    unfolding initialize_game
    initialize_game-Updates = then-Updates (this net O) _ (λ s.
        first-Updates
          (or_dies net O around (refresh_interactions_for net O around s.inventory_actor)) _
          (or_dies-Updates _ (refresh_interactions_for-Updates s.inventory_actor))
          (λ _.
            search
              (
                runs, or_dies-Runs, get_default_location-Runs, set_location-Runs,
                static_or_empty-Runs, tell_flash-Runs,
              )
              depth 40))

    -- When the start of a game succeeds, from a session whose messages and receipts are numbered
    -- one by one, they are numbered one by one after it, and the user was told last exactly the
    -- commands that the session knows.
    pub initialize_game-IsInStep :
        (s : Session net O)
        → IsNumbered s.sent s.message_sequence
        → (initialize_game net O around s).0 ≡ ok tt
        → IsInStep net O (initialize_game net O around s).1
    initialize_game-IsInStep s h e = record {
      numbered = Reach-IsNumbered net O (initialize_game-Runs.reach s) h;
      updated = initialize_game-Updates.updates s tt e;
    }
