-- ===== src/Samples/Witnesses/Histories.antt =====
-- Histories of chaintrees, composite handlers and slices of strings.
use jasons_game.Trees.Ownership.{sort_strings}
use jasons_game.Trees.Height.{must_height}
use jasons_game.Trees.Ownership.{change_at}
use jasons_game.Trees.Ownership.{has_set_ownership}
use jasons_game.Base.{
  ◌+◌, ℕ, String, ◌≡◌, refl, Bool, true, false, none, some, List, [], ◌∷◌, arith,
}
use mathlib.Core.List.{Memᴰ}
use jasons_game.Network.{ok, err, null, Message, transferred_object, unsupported_message_type}
use jasons_game.Trees.Height.{at_height, previous_tip}
use jasons_game.Trees.Height.History.{History, first, later}
use jasons_game.Trees.Height.Search.{Found, at_height_finds}
use jasons_game.Trees.Ownership.{
  verify_ownership, verify_ownership_at, ownership_changes, OwnershipChange, changes_at,
}
use jasons_game.Trees.Ownership.Verified.{verify_ownership_at_height}
use jasons_game.Trees.Ownership.Changes.{
  Reported, Falling, ownership_changes-Reported, ownership_changes_fall,
}
use jasons_game.Handlers.{Handler}
use jasons_game.Handlers.Composite.{new_composite_handler}
use jasons_game.Handlers.Composite.Dispatch.{composite_dispatches, PassesThrough}
use jasons_game.Samples.Chain.{Version, SampleTree, sample}

abbrev version : String → ℕ → String → Bool → Version
version t h owner sets = record {
  version_tip = t;
  version_height = h;
  owners = owner ∷ [];
  content = null;
  sets_owner = sets;
}

abbrev oldest : SampleTree
oldest = record { id = "did:old"; latest = version "t0" 0 "me" false; older = [] }

abbrev middle : SampleTree
middle = record { id = "did:old"; latest = version "t1" 1 "you" true; older = oldest.latest ∷ [] }

abbrev newest : SampleTree
newest = record {
  id = "did:old";
  latest = version "t2" 2 "you" false;
  older = middle.latest ∷ oldest.latest ∷ [];
}

abbrev versions : List (String × SampleTree)
versions = ("t2", newest) ∷ ("t1", middle) ∷ ("t0", oldest) ∷ []

ends : previous_tip sample oldest ≡ ok none
unfolding previous_tip
ends = refl

back_to_0 : previous_tip sample middle ≡ ok (some "t0")
unfolding previous_tip
back_to_0 = refl

back_to_1 : previous_tip sample newest ≡ ok (some "t1")
unfolding previous_tip
back_to_1 = refl

history : History sample newest "t2" 2 versions
history =
    later {m = 1} (record { defined = refl; found = refl; root = refl }) refl back_to_1
      (later {m = 0} (record { defined = refl; found = refl; root = refl }) refl back_to_0
        (first (record { defined = refl; found = refl; root = refl }) ends refl refl) refl)
      refl

at_height_finds_example : Found sample versions 1 (at_height sample 3 newest 1)
at_height_finds_example =
    at_height_finds sample 3 newest 1 2 versions history (omega arith) (omega arith)

verify_ownership_at_height_example :
    (b : SampleTree) × ((t : String) × Memᴰ (t, b) versions)
    × (sample.root_height b ≡ ok 0)
    × (verify_ownership_at sample 3 newest 0 ("me" ∷ [])
        ≡ some (verify_ownership sample b ("me" ∷ [])))
verify_ownership_at_height_example =
    verify_ownership_at_height sample 3 newest 0 2 versions ("me" ∷ []) history (omega arith)
      (omega arith)

abbrev the_change : OwnershipChange
the_change = record { change_tip = "t1"; change_auths = "you" ∷ []; change_height = 1 }

nothing_at_2 : changes_at sample "t2" newest ≡ ok []
unfolding changes_at has_set_ownership
nothing_at_2 = refl

change_at_1 : changes_at sample "t1" middle ≡ ok (the_change ∷ [])
unfolding changes_at has_set_ownership change_at must_height sort_strings
change_at_1 = refl

nothing_at_0 : changes_at sample "t0" oldest ≡ ok []
unfolding changes_at has_set_ownership
nothing_at_0 = refl

reported : Reported sample versions (the_change ∷ [])
reported = (
  [],
  (the_change ∷ []),
  nothing_at_2,
  refl,
  ((the_change ∷ []), [], change_at_1, refl, ([], [], nothing_at_0, refl, refl)),
)

ownership_changes-Reported_example :
    ownership_changes sample 3 newest ≡ some (the_change ∷ [], ok tt)
ownership_changes-Reported_example =
    ownership_changes-Reported sample 3 newest 2 versions (the_change ∷ []) history reported
      (omega arith)

ownership_changes_fall_example :
    (cs : List OwnershipChange) × (ownership_changes sample 3 newest ≡ some (cs, ok tt))
    × Falling sample 3 cs
ownership_changes_fall_example =
    ownership_changes_fall sample 3 newest 2 versions (the_change ∷ []) history reported
      (omega arith)

-- A handler that counts the messages it gets.
abbrev counting : Handler ℕ
counting = record {
  handle = λ m n. (ok tt, n + 1);
  supports = λ m. true;
  supported_messages = "jasonsgame.TransferredObjectMessage" ∷ [];
}

abbrev arrived : Message
arrived =
    transferred_object
      (record { from = ""; to = ""; object_did = ""; message_text = ""; error_text = "" })

abbrev ab : List String
ab = "a" ∷ "b" ∷ []

abbrev aa : List String
aa = "a" ∷ "a" ∷ []

abbrev refusing : Handler ℕ
refusing = record counting { handle = λ m n. (err unsupported_message_type, n + 10) }

composite_dispatches_example :
    PassesThrough arrived 0
      (counting ∷ refusing ∷ counting ∷ [])
      ((new_composite_handler (counting ∷ refusing ∷ counting ∷ [])).handle arrived 0)
composite_dispatches_example =
    composite_dispatches (counting ∷ refusing ∷ counting ∷ []) arrived 0
      ((refl, tt), ((refl, tt), ((refl, tt), tt)))
