-- ===== src/Handlers/Composite/Dispatch.antt =====
-- The composite handler hands a message to the handlers that list its name, in their order.
use mathlib.Core.Bool.{or-false}
use jasons_game.Base.{
  inr, inr, inl, Bool-cases, String-cases, String, ◌≡◌, refl, sym, ap, ◌∙◌, Bool, true, ◌≢◌, false,
  ◌||◌, List, [], ◌∷◌, ◌++◌, append-nil, append_assoc, has, All, arith, lookup, insert,
  lookup-insert, ◌==◌, eq_iff, is_some, if◌then◌else◌,
}
use jasons_game.Network.{
  Res, ok, panic, proceed, M, err, Message, message_name, unsupported_message_type,
}
use jasons_game.Handlers.Core.{Handler, contains_type, IsDistinct}
use jasons_game.Handlers.Composite.{
  Groups, group, add_handler, add_handlers, keys, run_all, new_composite_handler,
}

module _ {W : Type 0} where
  -- The handlers that list a message name, in their order.
  abbrev pub supporters : String → List (Handler W) → List (Handler W)
  supporters t [] = []
  supporters t (h ∷ hs) =
      let rest = supporters t hs in if has t h.supported_messages then h ∷ rest else rest

  group-insert :
      (t u : String) (hs : List (Handler W)) (groups : Groups W)
      → group u (insert t hs groups) ≡ (if t == u then hs else group u groups)
  group-insert t u hs groups = ground (arith, lookup-insert t u hs groups)

  group-add_handler :
      (h : Handler W) (types : List String) (groups : Groups W) (u : String)
      → IsDistinct types
      → group u (add_handler h types groups)
        ≡ (if has u types then group u groups ++ h ∷ [] else group u groups)
  unfolding add_handler
  group-add_handler h [] groups u d = refl
  group-add_handler h (t ∷ types) groups u d = elim (String-cases t u) [
    | inl e ↦ ground (
      arith,
      group-add_handler h types (insert t (group t groups ++ h ∷ []) groups) u d.1,
      group-insert t u (group t groups ++ h ∷ []) groups,
      eq_iff t u,
      ap (λ k. has k types) e,
      ap (λ k. group k groups) e,
    )
    | inr ne ↦ ground (
      arith,
      group-add_handler h types (insert t (group t groups ++ h ∷ []) groups) u d.1,
      group-insert t u (group t groups ++ h ∷ []) groups,
    )
  ]

  group-add_handlers :
      (hs : List (Handler W)) (groups : Groups W) (u : String)
      → All (λ h. IsDistinct h.supported_messages) hs
      → group u (add_handlers hs groups) ≡ group u groups ++ supporters u hs
  unfolding add_handlers
  group-add_handlers [] groups u d = sym (append-nil (group u groups))
  group-add_handlers (h ∷ hs) groups u d =
      group-add_handlers hs (add_handler h h.supported_messages groups) u d.1
      ∙ ap (λ l. l ++ supporters u hs) (group-add_handler h h.supported_messages groups u d.0)
      ∙ elim (Bool-cases (has u h.supported_messages)) [
        | inl e ↦ rw e (append_assoc (group u groups) (h ∷ []) (supporters u hs))
        | inr e ↦ rw e
      ]

  -- Does some handler list the name?
  abbrev pub is_supported : String → List (Handler W) → Bool
  is_supported t [] = false
  is_supported t (h ∷ hs) = has t h.supported_messages || is_supported t hs

  keys-lookup :
      (t : String) (groups : Groups W) → contains_type (keys groups) t ≡ is_some (lookup t groups)
  unfolding contains_type
  keys-lookup t [] = refl
  keys-lookup t ((u, hs) ∷ groups) = ground (arith, keys-lookup t groups)

  lookup-add_handler :
      (h : Handler W) (types : List String) (groups : Groups W) (u : String)
      → is_some (lookup u (add_handler h types groups)) ≡ (has u types || is_some (lookup u groups))
  unfolding add_handler
  lookup-add_handler h [] groups u = refl
  lookup-add_handler h (t ∷ types) groups u =
      let new = group t groups ++ h ∷ [] in
      ground
        (arith, lookup-add_handler h types (insert t new groups) u, lookup-insert t u new groups)

  lookup-add_handlers :
      (hs : List (Handler W)) (groups : Groups W) (u : String)
      → is_some (lookup u (add_handlers hs groups))
        ≡ (is_supported u hs || is_some (lookup u groups))
  unfolding add_handlers
  lookup-add_handlers [] groups u = refl
  lookup-add_handlers (h ∷ hs) groups u = ground (
    arith,
    lookup-add_handlers hs (add_handler h h.supported_messages groups) u,
    lookup-add_handler h h.supported_messages groups u,
  )

  -- A composite handler supports a message exactly when one of its handlers lists the message's
  -- name.
  pub composite_supports :
      (hs : List (Handler W)) (msg : Message)
      → (new_composite_handler hs).supports msg ≡ is_supported (message_name msg) hs
  unfolding new_composite_handler
  composite_supports hs msg =
      keys-lookup (message_name msg) (add_handlers hs [])
      ∙ lookup-add_handlers hs [] (message_name msg)
      ∙ or-false (is_supported (message_name msg) hs)

  -- A message goes through handlers in their order, until one of them does not succeed.
  pub data PassesThrough (msg : Message) : W → List (Handler W) → Res (Unit {0}) × W → Type 0 where
    through : {w : W} {q : Res (Unit {0}) × W} → q ≡ (ok tt, w) → PassesThrough msg w [] q
    fails_at :
        {w : W} {h : Handler W} {hs : List (Handler W)} {q : Res (Unit {0}) × W}
        → h.handle msg w ≡ q
        → q.0 ≢ ok tt
        → PassesThrough msg w (h ∷ hs) q
    goes_on :
        {w : W} {h : Handler W} {hs : List (Handler W)} {q : Res (Unit {0}) × W} (w' : W)
        → h.handle msg w ≡ (ok tt, w')
        → PassesThrough msg w' hs q
        → PassesThrough msg w (h ∷ hs) q

  one-PassesThrough :
      (h : Handler W) (hs : List (Handler W)) (rest : M W (Unit {0})) (msg : Message) (w : W)
      (q : Res (Unit {0}) × W)
      → h.handle msg w ≡ q
      → ((w' : W) → PassesThrough msg w' hs (rest w'))
      → PassesThrough msg w (h ∷ hs) (proceed q.0 (λ _. rest) q.1)
  one-PassesThrough h hs rest msg w (ok u, w') e k = goes_on w' e (k w')
  one-PassesThrough h hs rest msg w (err x, w') e k = fails_at e (λ k. cc)
  one-PassesThrough h hs rest msg w (panic, w') e k = fails_at e (λ k. cc)

  run_all-PassesThrough :
      (hs : List (Handler W)) (msg : Message) (w : W) → PassesThrough msg w hs (run_all hs msg w)
  unfolding run_all
  run_all-PassesThrough [] msg w = through refl
  run_all-PassesThrough (h ∷ hs) msg w =
      one-PassesThrough h hs (run_all hs msg) msg w (h.handle msg w) refl
        (λ w'. run_all-PassesThrough hs msg w')

  -- What becomes of a message: one that is supported passes through the handlers that list its name.
  abbrev pub Dispatched : Bool → List (Handler W) → Message → W → Res (Unit {0}) × W → Type 0
  Dispatched true hs msg w q = PassesThrough msg w (supporters (message_name msg) hs) q
  Dispatched false hs msg w q = q ≡ (err unsupported_message_type, w)

  -- If no handler lists a message name twice, a supported message goes to the handlers that list
  -- its name, in their order, until one fails, whose result is that of all; an unsupported message
  -- is an error and changes nothing.
  pub composite_dispatches :
      (hs : List (Handler W)) (msg : Message) (w : W)
      → All (λ h. IsDistinct h.supported_messages) hs
      → Dispatched
          (is_supported (message_name msg) hs)
          hs
          msg
          w
          ((new_composite_handler hs).handle msg w)
  unfolding new_composite_handler
  composite_dispatches hs msg w d =
      let t = message_name msg in
      let all = add_handlers hs [] in
      let known = keys-lookup t all ∙ lookup-add_handlers hs [] t ∙ or-false (is_supported t hs) in
      elim (Bool-cases (is_supported t hs)) [
        | inl e ↦
            rw (known, e, group-add_handlers hs [] t d)
              (run_all-PassesThrough (supporters t hs) msg w)
        | inr e ↦ rw (known, e) refl
      ]
