-- ===== src/Samples/Chain.antt =====
-- Chaintrees as lists of versions, a store of them, and the interface of network/network.go on it.

use Prim.Native.Char.{Char, code}
use package.text.Mathlib.TextLemmas.{nil-append, cons-append}
use jasons_game.Base.{
  eq_iff, none, some, Option, ℕ, suc, String, ◌≡◌, refl, sym, ◌∙◌, ap, subst, Bool, true, false,
  List, [], ◌∷◌, ◌<>◌, ◌==◌, eq_refl, beq_of_ne, lookup, insert, lookup-insert, has_slash, join,
  eqb, if◌then◌else◌, arith, Bool-cases, inl, inr,
}
use jasons_game.Network.{
  Value, null, text, list, object, link, nil, cons, end, field, walk, put_at, Res, ok, err, message,
  Message, Network, Saved, NetworkLaws, are_segments, ok-eq-ok, bool, number,
}

pub record Version : Type 0 where
  pub version_tip : String
  pub version_height : ℕ
  pub owners : List String
  pub content : Value
  pub sets_owner : Bool

pub record SampleTree : Type 0 where
  pub id : String
  pub latest : Version
  pub older : List Version

pub record Store : Type 0 where
  pub trees : List (String × SampleTree)
  pub sent : List (String × Message)
  pub created : ℕ

-- The segments of a path.
abbrev pub prepend : Char → List String → List String
prepend c [] = String.◌∷◌ c "" ∷ []
prepend c (s ∷ rest) = String.◌∷◌ c s ∷ rest

abbrev pub split : String → List String
split String.[] = "" ∷ []
split (String.◌∷◌ c s) =
    let rest = split s in if eqb (code c) b'/' then "" ∷ rest else prepend c rest

abbrev pub find_version : String → String → List Version → Res SampleTree
find_version id t [] = err (message "no such tip")
find_version id t (v ∷ vs) =
    let rest = find_version id t vs in
    if v.version_tip == t then ok (record { id = id; latest = v; older = vs }) else rest

abbrev pub block_of : SampleTree → Value
block_of t = object (
    field "transactions"
      (list (if t.latest.sets_owner then cons (text "set ownership") nil else nil))
      (elim t.older [ [] ↦ end | v ∷ _ ↦ field "previousTip" (link v.version_tip) end ]))

abbrev pub resolve_in : SampleTree → List String → Res Value
resolve_in t [] = ok null
resolve_in t (s ∷ path) =
    if s == "chain"
    then ok (walk path (object (field "end" (block_of t) end)))
    else ok (walk path (object (field "data" t.latest.content end)))

abbrev pub is_set_ownership : Value → Bool
is_set_ownership (text s) = s == "set ownership"
is_set_ownership null = false
is_set_ownership (bool _) = false
is_set_ownership (number _) = false
is_set_ownership (list _) = false
is_set_ownership (object _) = false
is_set_ownership (link _) = false

abbrev pub grown : SampleTree → List String → Value → Bool → SampleTree
grown t keys v sets = record {
  id = t.id;
  latest = record {
    version_tip = t.latest.version_tip <> "+";
    version_height = suc t.latest.version_height;
    owners = keys;
    content = v;
    sets_owner = sets;
  };
  older = t.latest ∷ t.older;
}

abbrev pub saved_in : SampleTree → Store → Store
saved_in t w = record { trees = insert t.id t w.trees; sent = w.sent; created = w.created }

abbrev pub new_tree : ℕ → SampleTree
new_tree n = record {
  id = if eqb n 0 then "did:new" else "did:newer";
  latest = record {
    version_tip = "tip";
    version_height = 0;
    owners = "me" ∷ [];
    content = null;
    sets_owner = false;
  };
  older = [];
}

-- a tree that was made for a name or a passphrase
abbrev pub named_tree : String → SampleTree
named_tree name = record {
  id = name;
  latest = record {
    version_tip = "tip";
    version_height = 0;
    owners = "me" ∷ [];
    content = null;
    sets_owner = false;
  };
  older = [];
}

abbrev pub find_tip : String → List (String × SampleTree) → Option SampleTree
find_tip t [] = none
find_tip t ((did, tree) ∷ rest) =
    let others = find_tip t rest in if tree.latest.version_tip == t then some tree else others

-- a tree under its own did
abbrev pub own_tree : String → Option SampleTree → Option SampleTree
own_tree did none = none
own_tree did (some t) = if t.id == did then some t else none

abbrev pub put_all : List (String × Value) → Value → Value
put_all [] v = v
put_all ((p, u) ∷ rest) v = put_all rest (put_at (split p) u v)

abbrev pub sample : Network
sample = record {
  World = Store;
  Tree = SampleTree;
  must_id = λ t. t.id;
  tip = λ t. t.latest.version_tip;
  resolve = resolve_in;
  authentications = λ t. ok t.latest.owners;
  at = λ t tip. find_version t.id tip (t.latest ∷ t.older);
  root_height = λ t. ok t.latest.version_height;
  sets_ownership = λ v. ok (is_set_ownership v);
  decode_path = λ p. ok (split p);
  authentications_path = "tree" ∷ "owners" ∷ [];
  public_addr = "me";
  range = λ m. m;
  get_tree = λ did w. ok (own_tree did (lookup did w.trees));
  get_tree_by_tip = λ t w. ok (find_tip t w.trees);
  get_chain_tree_by_name = λ name w. ok (lookup name w.trees);
  find_or_create_passphrase_tree = λ passphrase w. elim (lookup passphrase w.trees) [
    | some t ↦ (ok t, w)
    | none ↦ (ok (named_tree passphrase), saved_in (named_tree passphrase) w)
  ];
  create_local_chain_tree = λ name w. (ok (named_tree name), saved_in (named_tree name) w);
  update_tree_metadata = λ t w. (ok tt, saved_in t w);
  create_chain_tree = λ w.
      let t = new_tree w.created in
      (ok t, record { trees = insert t.id t w.trees; sent = w.sent; created = suc w.created });
  update_chain_tree = λ t p v w.
      let t' = grown t t.latest.owners (put_at (split p) v t.latest.content) false in
      (ok t', saved_in t' w);
  play_set_data = λ t changes w.
      let t' = grown t t.latest.owners (put_all changes t.latest.content) false in
      (ok t', saved_in t' w);
  change_chain_tree_owner =
      λ t keys w. let t' = grown t keys t.latest.content true in (ok t', saved_in t' w);
  send = λ topic m w.
      (ok tt, record { trees = w.trees; sent = (topic, m) ∷ w.sent; created = w.created });
  subscribed = λ did w. (ok tt, w);
  confirmed = λ did w. (ok tt, w);
}

split-segment : (a : String) → has_slash a ≡ false → split a ≡ a ∷ []
split-segment String.[] h = refl
split-segment (String.◌∷◌ c a) h = elim (Bool-cases (eqb (code c) b'/')) [
  | inl e ↦ absurd (ground arith)
  | inr e ↦ rw e (rw (split-segment a (ground arith)) refl)
]

split-append : (a rest : String) → has_slash a ≡ false → split (a <> "/" <> rest) ≡ a ∷ split rest
split-append String.[] rest h =
    ap split
      (nil-append ("/" <> rest) ∙ cons-append "/" "" rest ∙ ap (String.◌∷◌ "/") (nil-append rest))
split-append (String.◌∷◌ c a) rest h = elim (Bool-cases (eqb (code c) b'/')) [
  | inl e ↦ absurd (ground arith)
  | inr e ↦
      ap split (cons-append c a ("/" <> rest))
      ∙ (rw e (rw (split-append a rest (ground arith)) refl))
]

pub split-join :
    (a : String) (segments : List String)
    → are_segments (a ∷ segments) ≡ true
    → split (join (a ∷ segments)) ≡ a ∷ segments
split-join a [] h = split-segment a (ground arith)
split-join a (b ∷ segments) h =
    split-append a (join (b ∷ segments)) (ground arith)
    ∙ ap (λ l. a ∷ l) (split-join b segments (ground arith))

pub saved_in-Saved :
    (t t' : SampleTree) (w : Store) → t'.id ≡ t.id → Saved sample t w t' (saved_in t' w)
saved_in-Saved t t' w e = record {
  same_id = e;
  stored = ap ok (ground (arith, lookup-insert t'.id t.id t' w.trees, e, eq_refl t.id));
  others = λ did ne.
      ap ok (
        ground
          (arith, lookup-insert t'.id did t' w.trees, e, beq_of_ne t.id did (λ q. ne (sym q))));
}

pub fetched_own :
    (did : String) (o : Option SampleTree) (t : SampleTree)
    → Path (Res (Option SampleTree)) (ok (own_tree did o)) (ok (some t))
    → t.id ≡ did
fetched_own did none t h = absurd cc
fetched_own did (some u) t h = elim (Bool-cases (u.id == did)) [
  | inl e ↦
      let h' = rw e at h in
      let same : u ≡ t = cc in ap (λ (x : SampleTree). x.id) (sym same) ∙ (eq_iff u.id did).0 e
  | inr e ↦ absurd (let h' = rw e at h in cc)
]

unfoldable pub sample_laws : NetworkLaws sample
sample_laws = record {
  available = λ t. true;
  data_of = λ t. t.latest.content;
  fetched_id = λ did w t h. fetched_own did (lookup did w.trees) t h;
  decode-join = λ a segments h. ap ok (split-join a segments h);
  range_lookup = λ m k h. refl;
  range-IsMap = λ m h. h;
  resolve_data = λ t path h. refl;
  update_data = λ t p v w w' t' path h d.
      ap (λ (x : SampleTree). x.latest.content) (sym (ok-eq-ok h).0)
      ∙ ap (λ q. put_at q v t.latest.content) (cc d);
  update_saved = λ t p v w w' t' h.
      let t1 = grown t t.latest.owners (put_at (split p) v t.latest.content) false in
      let (e, e') = ok-eq-ok h in
      (
        refl,
        ap (λ (x : SampleTree). ok x.latest.owners) (sym e),
        subst (λ x. Saved sample t w t' x) e'
            (subst (λ x. Saved sample t w x (saved_in t1 w)) e (saved_in-Saved t t1 w refl)),
      );
  owner_data = λ t keys w w' t' h. ap (λ (x : SampleTree). x.latest.content) (sym (ok-eq-ok h).0);
  owner_saved = λ t keys w w' t' h.
      let t1 = grown t keys t.latest.content true in
      let (e, e') = ok-eq-ok h in
      (
        refl,
        ap (λ (x : SampleTree). ok x.latest.owners) (sym e),
        subst (λ x. Saved sample t w t' x) e'
            (subst (λ x. Saved sample t w x (saved_in t1 w)) e (saved_in-Saved t t1 w refl)),
      );
  subscribed_trees = λ did d w. refl;
  send_trees = λ topic did m w. refl;
}
