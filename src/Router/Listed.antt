-- ===== src/Router/Listed.antt =====
-- Which models a caller is told of.
use llm_cluster_router.Prelude.{
  ◌≡◌, refl, inl, inr, List, [], ◌∷◌, ◌++◌, String, Bool, true, false, not, ◌&&◌, ◌||◌,
  if◌then◌else◌, Bool-cases, subst, arith,
}
use llm_cluster_router.Prelude.Maps.{◌==◌}
use text.Mathlib.TextEquality.{eq_iff}
use llm_cluster_router.Selection.{Node, contains, allows_class}
use llm_cluster_router.Router.Models.{add_models, models_from, list_models}

contains-append :
    (xs : List String) (y x : String) → contains (xs ++ y ∷ []) x ≡ (contains xs x || y == x)
unfolding contains
contains-append [] y x = ground arith
contains-append (z ∷ xs) y x = ground (arith, contains-append xs y x)

-- Whether some node that serves the class and is healthy has the model.
unfoldable pub is_served : String → String → List Node → Bool
unfolding allows_class contains
is_served class_ x [] = false
is_served class_ x (n ∷ ns) =
    (allows_class n class_ && n.healthy && contains n.models x) || is_served class_ x ns

-- A model that is seen already adds nothing.
known :
    (seen : List String) (m x : String) (b : Bool)
    → contains seen m ≡ true
    → (contains seen x || b) ≡ (contains seen x || (if m == x then true else b))
known seen m x b h = elim (Bool-cases (m == x)) [
  | inl e ↦
      let same : m ≡ x = ground (arith, eq_iff m x, e) in
      let there : contains seen x ≡ true = subst (λ y. contains seen y ≡ true) same h in
      ground (arith, there)
  | inr e ↦ rw e refl
]

contains-add_models :
    (ms seen : List String) (x : String)
    → contains (add_models ms seen) x ≡ (contains seen x || contains ms x)
unfolding add_models
contains-add_models [] seen x = ground arith
contains-add_models (m ∷ ms) seen x = elim (Bool-cases (contains seen m)) [
  | inl e ↦ rw (e, contains-add_models ms seen x) (known seen m x _ e)
  | inr e ↦
      rw (e, contains-add_models ms (seen ++ m ∷ []) x, contains-append seen m x) (ground arith)
]

contains-models_from :
    (class_ : String) (ns : List Node) (seen : List String) (x : String)
    → contains (models_from class_ ns seen) x ≡ (contains seen x || is_served class_ x ns)
unfolding models_from is_served
contains-models_from class_ [] seen x = ground arith
contains-models_from class_ (n ∷ ns) seen x = elim (Bool-cases (allows_class n class_)) [
  | inr e ↦ rw (e, contains-models_from class_ ns seen x) (ground arith)
  | inl e ↦ elim (Bool-cases n.healthy) [
    | inr f ↦ rw (e, f, contains-models_from class_ ns seen x) (ground arith)
    | inl f ↦
        rw
          (
            e,
            f,
            contains-models_from class_ ns (add_models n.models seen) x,
            contains-add_models n.models seen x,
          )
          (ground arith)
  ]
]

-- No text stands twice.
unfoldable pub is_unique : List String → Bool
unfolding contains
is_unique [] = true
is_unique (x ∷ xs) = not (contains xs x) && is_unique xs

is_unique-append :
    (xs : List String) (y : String)
    → contains xs y ≡ false
    → is_unique xs ≡ true
    → is_unique (xs ++ y ∷ []) ≡ true
unfolding is_unique contains
is_unique-append [] y h u = ground arith
is_unique-append (x ∷ xs) y h u =
    rw (contains-append xs y x)
      (ground (arith, h, u, eq_iff x y, eq_iff y x, is_unique-append xs y))

is_unique-add_models :
    (ms seen : List String) → is_unique seen ≡ true → is_unique (add_models ms seen) ≡ true
unfolding add_models
is_unique-add_models [] seen u = u
is_unique-add_models (m ∷ ms) seen u = elim (Bool-cases (contains seen m)) [
  | inl e ↦ rw e (is_unique-add_models ms seen u)
  | inr e ↦ rw e (is_unique-add_models ms (seen ++ m ∷ []) (is_unique-append seen m e u))
]

is_unique-models_from :
    (class_ : String) (ns : List Node) (seen : List String)
    → is_unique seen ≡ true
    → is_unique (models_from class_ ns seen) ≡ true
unfolding models_from
is_unique-models_from class_ [] seen u = u
is_unique-models_from class_ (n ∷ ns) seen u = elim (Bool-cases (allows_class n class_)) [
  | inr e ↦ rw e (is_unique-models_from class_ ns seen u)
  | inl e ↦ elim (Bool-cases n.healthy) [
    | inr f ↦ rw (e, f) (is_unique-models_from class_ ns seen u)
    | inl f ↦
        rw (e, f)
          (is_unique-models_from class_ ns (add_models n.models seen)
            (is_unique-add_models n.models seen u))
  ]
]

-- A caller is told of exactly the models that some healthy node which admits its class has, and of each
-- of them once.
pub list_models-served :
    (class_ : String) (nodes : List Node) (x : String)
    → (contains (list_models class_ nodes) x ≡ is_served class_ x nodes)
      × (is_unique (list_models class_ nodes) ≡ true)
unfolding list_models contains is_unique
list_models-served class_ nodes x =
    (contains-models_from class_ nodes [] x, is_unique-models_from class_ nodes [] refl)
