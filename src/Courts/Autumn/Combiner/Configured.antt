-- ===== src/Courts/Autumn/Combiner/Configured.antt =====
-- What is configured is what the combiner finds.
use mathlib.Core.List.{Permᴰ}
use jasons_game.Base.{
  String, ℕ, suc, ◌≤◌, ◌≡◌, refl, ◌∙◌, ap, false, some, List, [], ◌∷◌, ◌++◌, ltb, length, All,
  arith, Bool-cases, inl, inr, if◌then◌else◌,
}
use jasons_game.Network.{ok}
use jasons_game.Courts.Autumn.Combinations.{ℤ, same_id, ElementCombination, find, fill}
use jasons_game.Courts.Autumn.Combinations.Found.{Others, find-fill, same_id_sound, same_id_refl}
use jasons_game.Courts.Autumn.Elements.{Element}
use jasons_game.Courts.Autumn.Combiner.{
  ElementMap, element_at, put_element, put_elements, least_length, ElementCombiner,
  new_element_combiner, element_for, find_combined_element,
}

least_length_first : (n : ℕ) (cs : List ElementCombination) → least_length n cs ≤ n
unfolding least_length
least_length_first n [] = omega arith
least_length_first n (c ∷ cs) = elim (Bool-cases (ltb (length c.from) n)) [
  | inl l ↦ rw l (ground (arith, least_length_first (length c.from) cs))
  | inr g ↦ rw g (least_length_first n cs)
]

least_length_member :
    (n : ℕ) (before later : List ElementCombination) (c : ElementCombination)
    → least_length n (before ++ c ∷ later) ≤ length c.from
unfolding least_length
least_length_member n [] later c = elim (Bool-cases (ltb (length c.from) n)) [
  | inl l ↦ rw l (least_length_first (length c.from) later)
  | inr g ↦ rw g (ground (arith, least_length_first n later))
]
least_length_member n (b ∷ before) later c = elim (Bool-cases (ltb (length b.from) n)) [
  | inl l ↦ rw l (least_length_member (length b.from) before later c)
  | inr g ↦ rw g (least_length_member n before later c)
]

length_perm : {xs ys : List ℤ} → Permᴰ xs ys → length xs ≡ length ys
length_perm Permᴰ.nil = refl
length_perm (Permᴰ.cons e r) = ap suc (length_perm r)
length_perm (Permᴰ.swap e e') = refl
length_perm (Permᴰ.trans r r') = length_perm r ∙ length_perm r'

element_at-put_element :
    (m : ElementMap) (e : Element) (id : ℤ)
    → element_at (put_element m e) id ≡ (if same_id e.id id then some e else element_at m id)
unfolding element_at put_element
element_at-put_element [] e id = refl
element_at-put_element ((k, f) ∷ m) e id = ground (
  arith,
  element_at-put_element m e id,
  same_id_sound k e.id,
  same_id_sound k id,
  same_id_sound e.id id,
  same_id_refl k,
)

-- None of the elements has this id.
abbrev pub NoneHas : ℤ → List Element → Type 0
NoneHas id = All (λ e. same_id e.id id ≡ false)

put_elements-NoneHas :
    (id : ℤ) (later : List Element) (m : ElementMap)
    → NoneHas id later
    → element_at (put_elements later m) id ≡ element_at m id
unfolding put_elements
put_elements-NoneHas id [] m h = refl
put_elements-NoneHas id (e ∷ later) m h =
    put_elements-NoneHas id later (put_element m e) h.1
    ∙ element_at-put_element m e id
    ∙ rw (h.0) refl

element_at-put_elements :
    (before later : List Element) (e : Element) (m : ElementMap)
    → NoneHas e.id later
    → element_at (put_elements (before ++ e ∷ later) m) e.id ≡ some e
unfolding put_elements
element_at-put_elements [] later e m h =
    put_elements-NoneHas e.id later (put_element m e) h
    ∙ element_at-put_element m e e.id
    ∙ rw (same_id_refl e.id) refl
element_at-put_elements (b ∷ before) later e m h =
    element_at-put_elements before later e (put_element m b) h

built :
    (name : String) (elements : List Element) (combinations : List ElementCombination)
    (h : ElementCombiner)
    → new_element_combiner
        (record { name = name; elements = elements; combinations = combinations })
      ≡ ok h
    → (n : ℕ) × (h.min_required ≡ least_length n combinations)
      × (h.elements ≡ put_elements elements [])
      × (h.combinations_map ≡ fill combinations [])
unfolding new_element_combiner
built name elements [] h e = cc
built name elements (c ∷ cs) h e = (length c.from, cc, cc, cc)

-- In a combiner that was made of a configuration, the ids of a configured combination in any order,
-- where no later combination has the same ids up to order, are as many as required and make the
-- last configured element with the id of the combination's result.
pub configured_is_found :
    (name : String) (others_before others_later : List Element) (e : Element)
    (before later : List ElementCombination) (c : ElementCombination) (ids : List ℤ)
    (h : ElementCombiner)
    → new_element_combiner (record {
      name = name;
      elements = others_before ++ e ∷ others_later;
      combinations = before ++ c ∷ later;
    })
      ≡ ok h
    → NoneHas e.id others_later
    → Others ids later
    → Permᴰ ids c.from
    → c.to ≡ e.id
    → (h.min_required ≤ length ids) × (find_combined_element h ids ≡ some e)
unfolding find_combined_element element_for
configured_is_found name others_before others_later e before later c ids h made none_has others p
      to =
    let (n, least, elements, combinations) =
      built name (others_before ++ e ∷ others_later) (before ++ c ∷ later) h made in
    let bound = least_length_member n before later c in
    let same = length_perm p in
    (
      omega (arith, least),
      ap (λ m. element_for h.elements (find m ids)) combinations
          ∙ ap (element_for h.elements) (find-fill before later c ids p others)
          ∙ ap (λ m. element_at m c.to) elements
          ∙ ap (element_at (put_elements (others_before ++ e ∷ others_later) [])) to
          ∙ element_at-put_elements others_before others_later e [] none_has,
    )
