-- ===== src/Game/GameActor/Refresh/Offered.antt =====
-- game/game.go: the commands that are offered once the interactions of an actor were gathered.
use mathlib.Core.List.{Memᴰ}
use mathlib.Core.List.Memᴰ
use jasons_game.Base.{
  ℕ, String, ◌≡◌, ◌≢◌, ◌⊎◌, ◌↔◌, refl, true, false, Option, none, some, List, [], ◌∷◌, ◌++◌, ◌==◌,
  eq_iff, eqb, arith, inl, inr, Bool-cases, All, append-nil, if◌then◌else◌,
}
use jasons_game.Network.{Res, ok, Network}
use jasons_game.Game.Interactions.{change_named_location}
use jasons_game.Game.Commands.{Command, interaction_command, default_command_list}
use jasons_game.Game.InventoryActor.{respond_ok}
use jasons_game.Game.InventoryActor.Listing.{InteractionResponse}
use jasons_game.Game.GameActor.{this, asking, Session, Surroundings, reply}
use jasons_game.Game.GameActor.Messages.{set_commands, send_command_update}
use jasons_game.Game.GameActor.Refresh.Gathered.{HasInteraction, Gathered, commands_for-Gathered}
use jasons_game.Game.GameActor.Refresh.{
  set_commands, commands_for, portal_home, put_commands, all_commands, is_pid, responses_of,
  home_did, with_home, unless_home, interaction_commands_for, cache, offer, cached,
  refresh_interactions_for,
}

-- m[pid], which is nil where there is no entry
abbrev pub commands_of : ℕ → List (ℕ × List Command) → List Command
commands_of pid [] = []
commands_of pid ((p, cs) ∷ m) = let rest = commands_of pid m in if eqb p pid then cs else rest

commands_of-put_same :
    (pid : ℕ) (cs : List Command) (m : List (ℕ × List Command))
    → commands_of pid (put_commands pid cs m) ≡ cs
commands_of-put_same pid cs [] = ground arith
commands_of-put_same pid cs ((p, old) ∷ m) = ground (arith, commands_of-put_same pid cs m)

commands_of-put_other :
    (pid p : ℕ) (cs : List Command) (m : List (ℕ × List Command))
    → p ≢ pid
    → commands_of p (put_commands pid cs m) ≡ commands_of p m
commands_of-put_other pid p cs [] h = ground (arith, h)
commands_of-put_other pid p cs ((q, old) ∷ m) h =
    ground (arith, h, commands_of-put_other pid p cs m h)

is_pid-some : (pid : ℕ) (o : Option ℕ) → is_pid pid o ≡ true → o ≡ some pid
is_pid-some pid none h = cc
is_pid-some pid (some p) h = ground arith

is_pid-ne : (pid : ℕ) (o : Option ℕ) → is_pid pid o ≡ false → o ≢ some pid
is_pid-ne pid none h k = cc
is_pid-ne pid (some p) h k = ground arith

-- The way home is offered by the actor of a location that is not the player's home.
pub data GoesHome (pid : ℕ) (location_actor : Option ℕ) (location_did home_did : String)
    : List Command → Type 0 where
  away :
      {cs : List Command}
      → location_actor ≡ some pid
      → location_did ≢ home_did
      → cs
        ≡ interaction_command "portal home" (change_named_location "portal home" "home" false) "" ""
          ∷ []
      → GoesHome pid location_actor location_did home_did cs
  at_home :
      {cs : List Command}
      → location_did ≡ home_did
      → cs ≡ []
      → GoesHome pid location_actor location_did home_did cs
  of_another :
      {cs : List Command}
      → location_actor ≢ some pid
      → cs ≡ []
      → GoesHome pid location_actor location_did home_did cs

-- What all the actors offer.
all_commands-Mem :
    (c : Command) (m : List (ℕ × List Command))
    → Memᴰ c (all_commands m) ↔ ((e : ℕ × List Command) × Memᴰ e m × Memᴰ c e.1)
all_commands-Mem c [] = (λ k. absurd (elim k [ ]), λ q. absurd (elim (q.1) [ ]))
all_commands-Mem c ((p, cs) ∷ m) =
    let rest = all_commands-Mem c m in
    (
      λ k. elim (Memᴰ.append_cases cs k) [
        | inl k' ↦ ((p, cs), Memᴰ.head refl, k')
        | inr k' ↦ let (e, listed, of) = rest.0 k' in (e, Memᴰ.tail listed, of)
      ],
      λ q. in_all p cs m c rest.1 q.0 q.1 q.2,
    )
  where
    in_all :
        (p : ℕ) (cs : List Command) (m : List (ℕ × List Command)) (c : Command)
        → ((e : ℕ × List Command) × Memᴰ e m × Memᴰ c e.1 → Memᴰ c (all_commands m))
        → (e : ℕ × List Command) → Memᴰ e ((p, cs) ∷ m)
        → Memᴰ c e.1
        → Memᴰ c (cs ++ all_commands m)
    in_all p cs m c rest e (Memᴰ.head same) k = Memᴰ.append_left _ (rw (same) at k)
    in_all p cs m c rest e (Memᴰ.tail listed) k = Memᴰ.append_right cs (rest (e, listed, k))

module _ (net : Network) (O : Type 0) (around : Surroundings (net.World × O)) where
  open net use {must_id}

  known-Mem :
      (c : Command) (m : List (ℕ × List Command))
      → ((e : ℕ × List Command) → Memᴰ e (around.map_order m) ↔ Memᴰ e m)
      → Memᴰ c (default_command_list ++ all_commands (around.map_order m))
        ↔ (Memᴰ c default_command_list ⊎ ((e : ℕ × List Command) × Memᴰ e m × Memᴰ c e.1))
  known-Mem c m order =
      let of_all = all_commands-Mem c (around.map_order m) in
      (
        λ k. elim (Memᴰ.append_cases default_command_list k) [
          | inl k' ↦ inl k'
          | inr k' ↦ let (e, listed, of) = of_all.0 k' in inr (e, (order e).0 listed, of)
        ],
        λ k. elim k [
          | inl k' ↦ Memᴰ.append_left _ k'
          | inr q ↦ Memᴰ.append_right default_command_list (of_all.1 (q.0, (order q.0).1 q.1, q.2))
        ],
      )

  -- What the session offers once it has refreshed the interactions of an actor.
  pub record Refreshed (pid : ℕ) (rs : List InteractionResponse) (home : net.Tree)
      (s : Session net O) (q : Res (Unit {0}) × Session net O) : Type 0 where
    pub succeeds : q.0 ≡ ok tt
    pub gathered : List Command
    pub way_home : List Command
    pub is_gathered : Gathered (eqb s.inventory_actor pid) rs gathered
    pub is_home : GoesHome pid s.location_actor s.location_did (must_id home) way_home
    pub of_actor : commands_of pid q.1.commands_by_actor ≡ gathered ++ way_home
    pub others :
        (p : ℕ) → p ≢ pid → commands_of p q.1.commands_by_actor ≡ commands_of p s.commands_by_actor
    pub all :
        (c : Command)
        → Memᴰ c q.1.commands ↔ (
            Memᴰ c default_command_list
            ⊎ ((e : ℕ × List Command) × Memᴰ e q.1.commands_by_actor × Memᴰ c e.1))

  -- The commands for an actor that answers.
  interaction_commands_for-eq :
      (pid : ℕ) (s : Session net O) (rs : List InteractionResponse) (cs : List Command)
      (home : net.Tree) (w : net.World) (o : O)
      → around.list_interactions pid (s.world, s.others) ≡ (ok (reply (respond_ok rs)), (w, o))
      → commands_for (eqb s.inventory_actor pid) rs ≡ ok cs
      → s.player_tree.home_location ≡ some home
      → (way_home : List Command) × GoesHome pid s.location_actor s.location_did
          (must_id home)
          way_home
        × (interaction_commands_for net O around pid s
            ≡ (ok (cs ++ way_home), record s { world = w; others = o }))
  unfolding interaction_commands_for responses_of with_home unless_home home_did asking this
  interaction_commands_for-eq pid s rs cs home w o answer gathered housed =
      elim (Bool-cases (is_pid pid s.location_actor)) [
        | inl e ↦ elim (Bool-cases (s.location_did == must_id home)) [
          | inl h ↦ (
            [],
            at_home ((eq_iff s.location_did (must_id home)).0 h) refl,
            rw (answer, gathered, housed, e, h, append-nil cs) refl,
          )
          | inr h ↦ (
            portal_home ∷ [],
            away (is_pid-some pid s.location_actor e)
                (λ k. cc ((eq_iff s.location_did (must_id home)).1 k)) refl,
            rw (answer, gathered, housed, e, h) refl,
          )
        ]
        | inr e ↦ (
          [],
          of_another (is_pid-ne pid s.location_actor e) refl,
          rw (answer, gathered, housed, e, append-nil cs) refl,
        )
      ]

  -- When an actor answers with interactions of which none is nil, the player has a home, and going
  -- over a map visits its entries and no others, the refresh of the actor's interactions succeeds;
  -- the commands of this actor are then, in the order of its answer, one for each interaction that
  -- is not withheld, as picking up is for the player's own inventory and dropping for another
  -- actor, and behind them the way home, for the location's actor away from home; those of the
  -- other actors stay, and the session knows the default commands and those of all its actors, and
  -- no others.
  pub refresh_interactions_for-Refreshed :
      (pid : ℕ) (s : Session net O) (rs : List InteractionResponse) (home : net.Tree)
      (w : net.World) (o : O)
      → ((e : ℕ × List Command) (m : List (ℕ × List Command))
          → Memᴰ e (around.map_order m) ↔ Memᴰ e m)
      → around.list_interactions pid (s.world, s.others) ≡ (ok (reply (respond_ok rs)), (w, o))
      → s.player_tree.home_location ≡ some home
      → All HasInteraction rs
      → Refreshed pid rs home s (refresh_interactions_for net O around pid s)
  unfolding refresh_interactions_for cached cache offer set_commands send_command_update
  refresh_interactions_for-Refreshed pid s rs home w o order answer housed hs =
      let (cs, gathered, is_gathered) = commands_for-Gathered (eqb s.inventory_actor pid) rs hs in
      let (way_home, is_home, done) =
        interaction_commands_for-eq pid s rs cs home w o answer gathered housed in
      rw done (record {
        succeeds = refl;
        gathered = cs;
        way_home = way_home;
        is_gathered = is_gathered;
        is_home = is_home;
        of_actor = commands_of-put_same pid (cs ++ way_home) s.commands_by_actor;
        others = λ p ne. commands_of-put_other pid p (cs ++ way_home) s.commands_by_actor ne;
        all = λ c.
            known-Mem c (put_commands pid (cs ++ way_home) s.commands_by_actor)
              (λ e. order e (put_commands pid (cs ++ way_home) s.commands_by_actor));
      })
