-- ===== src/Game/Interactions/Values/Written.antt =====
-- What stands in a tree after a value was set.
use jasons_game.Base.{
  String, ◌≡◌, refl, sym, ◌∙◌, ap, Bool, true, false, Option, none, some, List, [], ◌∷◌, ◌++◌, ◌≢◌,
  join,
}
use jasons_game.Network.{
  Value, Values, nil, cons, null, bool, number, list, object, link, elements, text, ok, Network,
  NetworkLaws, walk, walk-put_at, are_segments, wrapping-eq-ok, ok-eq-ok,
}
use jasons_game.Game.Interactions.Values.{
  append_values, appended, value_to_set, write_value, set_value,
}

-- What is made of the value that stands there, if anything: a text alone where many are not kept, or
-- where nothing stood; the texts of a list followed by the text; nothing of another value.
data Wants (multiple : Bool) (current : Value) (value : String) : Option Value → Type 0 where
  single :
      {o : Option Value} → multiple ≡ false → o ≡ some (text value) → Wants multiple current value o
  alone :
      {o : Option Value}
      → multiple ≡ true
      → current ≡ null
      → o ≡ some (list (cons (text value) nil))
      → Wants multiple current value o
  last :
      {o : Option Value} (us vs : Values)
      → multiple ≡ true
      → current ≡ list us
      → elements vs ≡ elements us ++ text value ∷ []
      → o ≡ some (list vs)
      → Wants multiple current value o
  nothing :
      {o : Option Value}
      → multiple ≡ true
      → current ≢ null
      → ((us : Values) → current ≢ list us)
      → o ≡ none
      → Wants multiple current value o

elements-append_values :
    (us : Values) (v : Value) → elements (append_values us v) ≡ elements us ++ v ∷ []
elements-append_values nil v = refl
elements-append_values (cons u us) v = ap (λ l. u ∷ l) (elements-append_values us v)

appended-Wants : (v : Value) (value : String) → Wants true v value (appended v value)
unfolding appended
appended-Wants null value = alone refl refl refl
appended-Wants (list us) value =
    last us (append_values us (text value)) refl refl (elements-append_values us (text value)) refl
appended-Wants (text _) value = nothing refl (λ h. cc) (λ us h. cc) refl
appended-Wants (bool _) value = nothing refl (λ h. cc) (λ us h. cc) refl
appended-Wants (number _) value = nothing refl (λ h. cc) (λ us h. cc) refl
appended-Wants (object _) value = nothing refl (λ h. cc) (λ us h. cc) refl
appended-Wants (link _) value = nothing refl (λ h. cc) (λ us h. cc) refl

module _ (net : Network) (laws : NetworkLaws net) where
  open net use {World, Tree, update_chain_tree}
  open laws use {available, data_of}

  -- What stands at the path after a write, for what stood there before.
  pub data Wrote (multiple : Bool) (path : List String) (value : String) (t t' : Tree)
      (w w' : World) : Type 0 where
    wrote_single :
        multiple ≡ false
        → walk ("jasons-game" ∷ path) (data_of t') ≡ text value
        → Wrote multiple path value t t' w w'
    wrote_alone :
        multiple ≡ true
        → walk ("jasons-game" ∷ path) (data_of t) ≡ null
        → walk ("jasons-game" ∷ path) (data_of t') ≡ list (cons (text value) nil)
        → Wrote multiple path value t t' w w'
    wrote_last :
        (us vs : Values)
        → multiple ≡ true
        → walk ("jasons-game" ∷ path) (data_of t) ≡ list us
        → walk ("jasons-game" ∷ path) (data_of t') ≡ list vs
        → elements vs ≡ elements us ++ text value ∷ []
        → Wrote multiple path value t t' w w'
    untouched :
        multiple ≡ true
        → walk ("jasons-game" ∷ path) (data_of t) ≢ null
        → ((us : Values) → walk ("jasons-game" ∷ path) (data_of t) ≢ list us)
        → t' ≡ t
        → w' ≡ w
        → Wrote multiple path value t t' w w'

  stands :
      (t t' : Tree) (path : List String) (v : Value) (w w' : World)
      → are_segments path ≡ true
      → write_value net t path (some v) w ≡ (ok t', w')
      → walk ("jasons-game" ∷ path) (data_of t') ≡ v
  unfolding write_value
  stands t t' path v w w' s h =
      ap (walk ("jasons-game" ∷ path)) (
        laws.update_data t _ v w w' t' ("jasons-game" ∷ path)
          (wrapping-eq-ok _ (update_chain_tree t (join ("jasons-game" ∷ path)) v) w h)
          (laws.decode-join "jasons-game" path s))
      ∙ walk-put_at ("jasons-game" ∷ path) v (data_of t)

  write_value-Wrote :
      (multiple : Bool) (t t' : Tree) (path : List String) (value : String) (o : Option Value)
      (w w' : World)
      → are_segments path ≡ true
      → Wants multiple (walk ("jasons-game" ∷ path) (data_of t)) value o
      → write_value net t path o w ≡ (ok t', w')
      → Wrote multiple path value t t' w w'
  unfolding write_value
  write_value-Wrote multiple t t' path value o w w' s (single m e) h =
      wrote_single m (stands t t' path _ w w' s (rw e at h))
  write_value-Wrote multiple t t' path value o w w' s (alone m was e) h =
      wrote_alone m was (stands t t' path _ w w' s (rw e at h))
  write_value-Wrote multiple t t' path value o w w' s (last us vs m was more e) h =
      wrote_last us vs m was (stands t t' path _ w w' s (rw e at h)) more
  write_value-Wrote multiple t t' path value o w w' s (nothing m ne nl e) h =
      let same = ok-eq-ok (rw e at h) in untouched m ne nl (sym same.0) (sym same.1)

  value_to_set-Wants :
      (multiple : Bool) (t : Tree) (path : List String) (value : String) (w : World)
      → available t ≡ true
      → (o : Option Value) × (value_to_set net multiple t path value w ≡ (ok o, w))
        × Wants multiple (walk ("jasons-game" ∷ path) (data_of t)) value o
  unfolding value_to_set
  value_to_set-Wants false t path value w a = (some (text value), refl, single refl refl)
  value_to_set-Wants true t path value w a =
      let v = walk ("jasons-game" ∷ path) (data_of t) in
      (
        appended v value,
        rw (laws.resolve_data t ("jasons-game" ∷ path) a) refl,
        appended-Wants v value,
      )

  -- Under the network's laws, if setting a value succeeds on a readable tree, at a path of
  -- segments, then the text stands at the path when one value is kept; when many are, the text
  -- stands there as the last of the values that were, or alone where nothing was; and where
  -- something else than a list stood, tree and world are as before.
  pub set_value-Wrote :
      (multiple : Bool) (t t' : Tree) (k : String) (path : List String) (value : String)
      (w w' : World)
      → available t ≡ true
      → are_segments (k ∷ path) ≡ true
      → set_value net multiple (join (k ∷ path)) t value w ≡ (ok t', w')
      → Wrote multiple (k ∷ path) value t t' w w'
  unfolding set_value
  set_value-Wrote multiple t t' k path value w w' a s h =
      let (o, e, wants) = value_to_set-Wants multiple t (k ∷ path) value w a in
      write_value-Wrote multiple t t' (k ∷ path) value o w w' s wants
        (rw e at (rw (laws.decode-join k path s) at h))
