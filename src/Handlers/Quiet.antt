-- ===== src/Handlers/Quiet.antt =====
-- Actions that read the world and leave it as it is, and chains that begin with one.
use jasons_game.Base.{String, ◌≡◌, refl, sym, ◌∙◌, ap, Option, none, some, List}
use jasons_game.Network.{
  Res, ok, err, panic, M, proceed, deref, wrapping, lift, ◌>>=◌, bind-eq-ok, Network, fetch,
  resolve_at,
}
use jasons_game.Handlers.Remote.{find_handler_for_tree, get_remote_handler, handler_named}
use jasons_game.Network.{auths_at}
use jasons_game.Trees.Inventory.{InventoryTree, find_inventory_tree, did_for_name, all, exists}

module _ {W A : Type 0} where
  abbrev pub IsQuiet : M W A → Type 0
  IsQuiet m = (w : W) → (m w).1 ≡ w

  pub deref-IsQuiet : (o : Option A) (w : W) → (deref o w).1 ≡ w
  deref-IsQuiet none w = refl
  deref-IsQuiet (some a) w = refl

module _ {W A B : Type 0} where
  proceed-IsQuiet :
      (r : Res A) (f : A → M W B) (w : W) → ((a : A) → IsQuiet (f a)) → (proceed r f w).1 ≡ w
  proceed-IsQuiet (ok a) f w q = q a w
  proceed-IsQuiet (err e) f w q = refl
  proceed-IsQuiet panic f w q = refl

  pub bind-IsQuiet :
      (m : M W A) (f : A → M W B) → IsQuiet m → ((a : A) → IsQuiet (f a)) → IsQuiet (m >>= f)
  bind-IsQuiet m f q q' w = proceed-IsQuiet (m w).0 f (m w).1 q' ∙ q w

  -- A chain that succeeded after a quiet step.
  pub quiet-bind :
      (m : M W A) (f : A → M W B) (w : W) {b : B} {w2 : W}
      → IsQuiet m
      → (m >>= f) w ≡ (ok b, w2)
      → (a : A) × (m w ≡ (ok a, w)) × (f a w ≡ (ok b, w2))
  quiet-bind m f w q h =
      let (a, w1, e, rest) = bind-eq-ok m f w h in
      let same : w1 ≡ w = ap (λ (p : Res A × W). p.1) (sym e) ∙ q w in
      (a, e ∙ ap (λ v. (ok a, v)) same, ap (f a) (sym same) ∙ rest)

module _ (net : Network) where
  open net use {World, Tree}

  resolve_at-IsQuiet : (t : Option Tree) (path : List String) → IsQuiet (resolve_at net t path)
  resolve_at-IsQuiet t path = bind-IsQuiet (deref t) _ (deref-IsQuiet t) (λ _ w. refl)

  pub auths_at-IsQuiet : (t : Option Tree) → IsQuiet (auths_at net t)
  auths_at-IsQuiet t = bind-IsQuiet (deref t) _ (deref-IsQuiet t) (λ _ w. refl)

  pub find_inventory_tree-IsQuiet : (did : String) → IsQuiet (find_inventory_tree net did)
  unfolding find_inventory_tree
  find_inventory_tree-IsQuiet did =
      bind-IsQuiet (wrapping _ (fetch net did)) _ (λ w. refl) (λ _ w. refl)

  pub did_for_name-IsQuiet :
      (i : InventoryTree Tree) (name : String) → IsQuiet (did_for_name net i name)
  unfolding did_for_name
  did_for_name-IsQuiet i name =
      bind-IsQuiet (wrapping _ (resolve_at net i.tree _)) _ (resolve_at-IsQuiet i.tree _)
        (λ _ w. refl)

  all-IsQuiet : (i : InventoryTree Tree) → IsQuiet (all net i)
  unfolding all
  all-IsQuiet i =
      bind-IsQuiet (wrapping _ (resolve_at net i.tree _)) _ (resolve_at-IsQuiet i.tree _)
        (λ _ w. refl)

  pub exists-IsQuiet : (i : InventoryTree Tree) (did : String) → IsQuiet (exists net i did)
  unfolding exists
  exists-IsQuiet i did = bind-IsQuiet (all net i) _ (all-IsQuiet i) (λ _ w. refl)

  get_remote_handler-IsQuiet : (did : String) → IsQuiet (get_remote_handler net did)
  unfolding get_remote_handler
  get_remote_handler-IsQuiet did =
      bind-IsQuiet (fetch net did) _ (λ w. refl)
        (λ t.
          bind-IsQuiet (resolve_at net t _) _ (resolve_at-IsQuiet t _)
            (λ v. bind-IsQuiet (lift _) _ (λ w. refl) (λ _ w. refl)))

  handler_named-IsQuiet : (o : Option String) → IsQuiet (handler_named net o)
  unfolding handler_named
  handler_named-IsQuiet none = λ w. refl
  handler_named-IsQuiet (some did) =
      bind-IsQuiet (get_remote_handler net did) _ (get_remote_handler-IsQuiet did) (λ _ w. refl)

  pub find_handler_for_tree-IsQuiet : (did : String) → IsQuiet (find_handler_for_tree net did)
  unfolding find_handler_for_tree
  find_handler_for_tree-IsQuiet did =
      bind-IsQuiet (fetch net did) _ (λ w. refl)
        (λ t.
          bind-IsQuiet (resolve_at net t _) _ (resolve_at-IsQuiet t _)
            (λ v. bind-IsQuiet (lift _) _ (λ w. refl) handler_named-IsQuiet))
