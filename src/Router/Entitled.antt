-- ===== src/Router/Entitled.antt =====
-- Which class a request gets, and which nodes it reaches with it.
use llm_cluster_router.Prelude.{
  ℕ, suc, ◌≡◌, ◌≢◌, ◌≤◌, refl, ap, inl, inr, List, [], ◌∷◌, ◌++◌, Option, none, some, true, false,
  not, ◌&&◌, ◌==◌, length, get_elem?, Bool-cases, subst, arith, ◌∙◌,
}
use llm_cluster_router.Prelude.Bytes.{bytes_eq}
use llm_cluster_router.Prelude.Texts.{bytes_eq_sound}
use llm_cluster_router.Startup.{bearer}
use llm_cluster_router.Selection.{Node, Query, contains, allows_class, select_node, chosen}
use llm_cluster_router.Selection.Choice.{Weighted}
use llm_cluster_router.Selection.Chosen.{select_node-safe}
use llm_cluster_router.Router.Access.{
  WorkloadClass, class_internal, class_customer, class_name, let_in, is_customer, class_bearer_auth,
  class_from_request,
}

-- What a request presents that is let in with a class, or without one.
abbrev pub IsEntitled : List ℕ → List (List ℕ) → List ℕ → Option WorkloadClass → Type 0
IsEntitled internal customers auth none = (length internal ≡ 0) × (length customers ≡ 0)
IsEntitled internal customers auth (some class_internal) =
    (1 ≤ length internal) × (auth ≡ bearer ++ internal)
IsEntitled internal customers auth (some class_customer) =
    (i : ℕ) × (t : List ℕ) × (get_elem? customers i ≡ some t)
    × (1 ≤ length t)
    × (auth ≡ bearer ++ t)

long_enough : (t : List ℕ) → (length t == 0) ≡ false → 1 ≤ length t
long_enough [] h = absurd (ground (arith, h))
long_enough (b ∷ bs) h = omega arith

let_in_inj : {a b : Option WorkloadClass} → let_in a ≡ let_in b → a ≡ b
let_in_inj h = cc

is_customer-get_elem? :
    (ts : List (List ℕ)) (auth : List ℕ)
    → is_customer ts auth ≡ true
    → (i : ℕ) × (t : List ℕ) × (get_elem? ts i ≡ some t) × (1 ≤ length t) × (auth ≡ bearer ++ t)
unfolding is_customer
is_customer-get_elem? [] auth h = absurd (ground (arith, h))
is_customer-get_elem? (t ∷ ts) auth h =
    elim (Bool-cases (not (length t == 0) && bytes_eq auth (bearer ++ t))) [
      | inl e ↦ elim (Bool-cases (length t == 0)) [
        | inl f ↦ absurd (ground (arith, rw f at e))
        | inr f ↦ (0, t, refl, long_enough t f, bytes_eq_sound auth (bearer ++ t) (rw f at e))
      ]
      | inr e ↦
          let (i, u, at, size, same) = is_customer-get_elem? ts auth (rw (e, is_customer) at h) in
          (suc i, u, at, size, same)
    ]

own :
    (internal auth : List ℕ)
    → (not (length internal == 0) && bytes_eq auth (bearer ++ internal)) ≡ true
    → (1 ≤ length internal) × (auth ≡ bearer ++ internal)
own internal auth h = elim (Bool-cases (length internal == 0)) [
  | inl e ↦ absurd (ground (arith, rw e at h))
  | inr e ↦ (long_enough internal e, bytes_eq_sound auth (bearer ++ internal) (rw e at h))
]

-- A request is let in without a class only when no token is configured, as internal only with the
-- internal token, and as a customer only with a customer's token; the empty token opens nothing.
pub class_bearer_auth-IsEntitled :
    (internal : List ℕ) (customers : List (List ℕ)) (auth : List ℕ) (c : Option WorkloadClass)
    → class_bearer_auth internal customers auth ≡ let_in c
    → IsEntitled internal customers auth c
unfolding class_bearer_auth
class_bearer_auth-IsEntitled internal customers auth c h =
    elim (Bool-cases (length internal == 0 && length customers == 0)) [
      | inl e ↦
          let is = let_in_inj (rw (e, class_bearer_auth) at h) in
          subst (IsEntitled internal customers auth) is (ground (arith, e))
      | inr e ↦
          elim (Bool-cases (not (length internal == 0) && bytes_eq auth (bearer ++ internal))) [
            | inl f ↦
                let is = let_in_inj (rw (e, f, class_bearer_auth) at h) in
                subst (IsEntitled internal customers auth) is (own internal auth f)
            | inr f ↦ elim (Bool-cases (is_customer customers auth)) [
              | inl g ↦
                  let is = let_in_inj (rw (e, f, g, class_bearer_auth) at h) in
                  subst (IsEntitled internal customers auth) is
                    (is_customer-get_elem? customers auth g)
              | inr g ↦ absurd (ground (arith, rw (e, f, g, class_bearer_auth) at h))
            ]
          ]
    ]

after_bearer : (t u : List ℕ) → bearer ++ t ≡ bearer ++ u → t ≡ u
after_bearer t u h = cc

-- The class that is handed on decides what the caller reaches.
reaches-IsEntitled :
    (internal : List ℕ) (customers : List (List ℕ)) (t : List ℕ) (k : ℕ) (c : Option WorkloadClass)
    → get_elem? customers k ≡ some t
    → t ≢ internal
    → IsEntitled internal customers (bearer ++ t) c
    → class_from_request c ≡ class_customer
unfolding class_from_request
reaches-IsEntitled internal [] t k none at other e = absurd (ground (arith, at))
reaches-IsEntitled internal (u ∷ us) t k none at other e = absurd (ground (arith, e))
reaches-IsEntitled internal customers t k (some class_internal) at other e =
    absurd (other (after_bearer t internal e.1))
reaches-IsEntitled internal customers t k (some class_customer) at other e = refl

-- Whatever it asks for, a request with a customer's token, which is not the internal one too, is sent to
-- a node that admits customers, is healthy, and has not failed for the request.
pub customer-reaches_admitting :
    (internal : List ℕ) (customers : List (List ℕ)) (t : List ℕ) (k : ℕ) (c : Option WorkloadClass)
    (now : ℕ) (q : Query) (rr : ℕ) (nodes : List Node) (i : ℕ) {n : Node}
    → get_elem? customers k ≡ some t
    → t ≢ internal
    → class_bearer_auth internal customers (bearer ++ t) ≡ let_in c
    → Weighted nodes
    → q.workload_class ≡ class_name (class_from_request c)
    → (select_node now q rr nodes).2 ≡ chosen i
    → get_elem? nodes i ≡ some n
    → (allows_class n (class_name class_customer) ≡ true)
      × (n.healthy ≡ true)
      × (contains q.excluded n.name ≡ false)
customer-reaches_admitting internal customers t k c now q rr nodes i {n} at other in_ w asks h
      there =
    let (admits, _, healthy, fresh) = select_node-safe now q rr nodes i w h there in
    let entitled = class_bearer_auth-IsEntitled internal customers (bearer ++ t) c in_ in
    let is = reaches-IsEntitled internal customers t k c at other entitled in
    (subst (λ x. allows_class n x ≡ true) (asks ∙ ap class_name is) admits, healthy, fresh)
