-- ===== src/Game/GameActor/Refresh/Gathered.antt =====
-- game/game.go: the commands that are made of the interactions of an actor.

use jasons_game.Base.{
  String, ◌≡◌, ◌≢◌, ◌⊎◌, refl, Bool, true, false, some, List, [], ◌∷◌, inl, inr, All,
}
use jasons_game.Network.{ok}
use jasons_game.Game.Interactions.{
  get_command, Interaction, respond, change_location, change_named_location, pick_up_object,
  drop_object, create_object, get_tree_value, set_tree_value, chained, cipher,
  build_portal_interaction, delete_portal_interaction, look_around_interaction,
}
use jasons_game.Game.Commands.{Command, interaction_command}
use jasons_game.Game.InventoryActor.Listing.{InteractionResponse}
use jasons_game.Game.GameActor.Refresh.{left_out, command_for, commands_for}

-- Interactions for which no command is made: picking up what is in the player's own inventory, and
-- dropping what is elsewhere.
pub data Withheld (in_inventory : Bool) (i : Interaction) : Type 0 where
  at_hand :
      {command did : String} {hidden : Bool}
      → in_inventory ≡ true
      → i ≡ pick_up_object command did hidden
      → Withheld in_inventory i
  elsewhere :
      {command did : String} {hidden : Bool}
      → in_inventory ≡ false
      → i ≡ drop_object command did hidden
      → Withheld in_inventory i

-- The commands that are made of responses: one for each interaction that is not withheld, in their
-- order, with the interaction's text, the name and the did of what it is attached to.
pub data Gathered (in_inventory : Bool) : List InteractionResponse → List Command → Type 0 where
  no_more : Gathered in_inventory [] []
  made :
      {r : InteractionResponse} {rs : List InteractionResponse} {cs : List Command}
      (i : Interaction)
      → r.interaction ≡ some i
      → ¬ Withheld in_inventory i
      → Gathered in_inventory rs cs
      → Gathered in_inventory
          (r ∷ rs)
          (interaction_command (get_command i) i r.attached_to r.attached_to_did ∷ cs)
  passed_over :
      {r : InteractionResponse} {rs : List InteractionResponse} {cs : List Command}
      (i : Interaction)
      → r.interaction ≡ some i
      → Withheld in_inventory i
      → Gathered in_inventory rs cs
      → Gathered in_inventory (r ∷ rs) cs

-- The response is not that of a nil interaction.
abbrev pub HasInteraction : InteractionResponse → Type 0
HasInteraction r = (i : Interaction) × (r.interaction ≡ some i)

not-Withheld :
    (b : Bool) (i : Interaction)
    → ((c d : String) (h : Bool) → i ≢ pick_up_object c d h)
    → ((c d : String) (h : Bool) → i ≢ drop_object c d h)
    → ¬ Withheld b i
not-Withheld b i p q (at_hand {command} {did} {hidden} e k) = p command did hidden k
not-Withheld b i p q (elsewhere {command} {did} {hidden} e k) = q command did hidden k

left_out-Withheld :
    (b : Bool) (i : Interaction)
    → ((left_out b i ≡ true) × Withheld b i) ⊎ ((left_out b i ≡ false) × ¬ Withheld b i)
unfolding left_out
left_out-Withheld true (pick_up_object _ _ _) = inl (refl, at_hand refl refl)
left_out-Withheld false (pick_up_object _ _ _) =
    inr (refl, λ h. elim h [ at_hand e k ↦ cc | elsewhere e k ↦ cc ])
left_out-Withheld false (drop_object _ _ _) = inl (refl, elsewhere refl refl)
left_out-Withheld true (drop_object _ _ _) =
    inr (refl, λ h. elim h [ at_hand e k ↦ cc | elsewhere e k ↦ cc ])
left_out-Withheld b (respond _ _ _) = inr (refl, not-Withheld b _ (λ c d h k. cc) (λ c d h k. cc))
left_out-Withheld b (change_location _ _ _) =
    inr (refl, not-Withheld b _ (λ c d h k. cc) (λ c d h k. cc))
left_out-Withheld b (change_named_location _ _ _) =
    inr (refl, not-Withheld b _ (λ c d h k. cc) (λ c d h k. cc))
left_out-Withheld b (create_object _ _ _ _ _) =
    inr (refl, not-Withheld b _ (λ c d h k. cc) (λ c d h k. cc))
left_out-Withheld b (get_tree_value _ _ _ _) =
    inr (refl, not-Withheld b _ (λ c d h k. cc) (λ c d h k. cc))
left_out-Withheld b (set_tree_value _ _ _ _ _) =
    inr (refl, not-Withheld b _ (λ c d h k. cc) (λ c d h k. cc))
left_out-Withheld b (chained _ _ _) = inr (refl, not-Withheld b _ (λ c d h k. cc) (λ c d h k. cc))
left_out-Withheld b (cipher _ _ _ _) = inr (refl, not-Withheld b _ (λ c d h k. cc) (λ c d h k. cc))
left_out-Withheld b build_portal_interaction =
    inr (refl, not-Withheld b _ (λ c d h k. cc) (λ c d h k. cc))
left_out-Withheld b delete_portal_interaction =
    inr (refl, not-Withheld b _ (λ c d h k. cc) (λ c d h k. cc))
left_out-Withheld b look_around_interaction =
    inr (refl, not-Withheld b _ (λ c d h k. cc) (λ c d h k. cc))

pub commands_for-Gathered :
    (b : Bool) (rs : List InteractionResponse)
    → All HasInteraction rs
    → (cs : List Command) × (commands_for b rs ≡ ok cs) × Gathered b rs cs
unfolding commands_for command_for
commands_for-Gathered b [] hs = ([], refl, no_more)
commands_for-Gathered b (r ∷ rs) ((i, e), hs) =
    let (cs, gathered, rest) = commands_for-Gathered b rs hs in
    elim (left_out-Withheld b i) [
      | inl (out, withheld) ↦ (cs, rw (e, out) gathered, passed_over i e withheld rest)
      | inr (kept, free) ↦ (
        interaction_command (get_command i) i r.attached_to r.attached_to_did ∷ cs,
        rw (e, kept, gathered) refl,
        made i e free rest,
      )
    ]
