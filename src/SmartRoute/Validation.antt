-- ===== src/SmartRoute/Validation.antt =====
-- `Validate` of internal/smartroute/smartroute.go, and what a policy that passes it has.
use llm_cluster_router.Prelude.{
  ℕ, ◌+◌, ◌≡◌, ◌≢◌, ◌⊎◌, refl, List, [], ◌∷◌, Option, none, some, Bool, true, false, ◌&&◌, not,
  ◌==◌, if◌then◌else◌, length, All, Bool-cases, inl, inr, arith,
}
use llm_cluster_router.Prelude.Bytes.{bytes_eq}
use llm_cluster_router.SmartRoute.{AgentPolicy, Class, Policy, lookup_class}

pub data PolicyError : Type 0 where
  no_classes default_required : PolicyError
  name_required : ℕ → PolicyError
  duplicate_name : ℕ → List ℕ → PolicyError
  model_required default_unknown : List ℕ → PolicyError
  force_class_unknown : List ℕ → List ℕ → PolicyError

-- The set `seen` after the loop over the classes, or the error in it.
pub data Seen : Type 0 where
  seen_names : List (List ℕ) → Seen
  class_error : PolicyError → Seen

unfoldable pub is_seen : List (List ℕ) → List ℕ → Bool
unfolding bytes_eq
is_seen [] name = false
is_seen (n ∷ ns) name = if bytes_eq n name then true else is_seen ns name

-- The loop over the agents, in some order.
unfoldable pub check_agents : List (List ℕ) → List (List ℕ × AgentPolicy) → Option PolicyError
unfolding is_seen
check_agents seen [] = none
check_agents seen ((agent, ap) ∷ rest) =
    let later = check_agents seen rest in
    if not (length ap.force_class == 0) && not (is_seen seen ap.force_class)
    then some (force_class_unknown agent ap.force_class)
    else later

module _ {V : Type 0} where
  -- The loop over the classes, from position `i` on.
  unfoldable pub check_classes : ℕ → List (List ℕ) → List (Class V) → Seen
  unfolding is_seen
  check_classes i seen [] = seen_names seen
  check_classes i seen (c ∷ cs) =
      let rest = check_classes (i + 1) (c.name ∷ seen) cs in
      if length c.name == 0
      then class_error (name_required i)
      else if is_seen seen c.name
      then class_error (duplicate_name i c.name)
      else if length c.route.model == 0
      then class_error (model_required c.name)
      else rest

  -- `Validate` behind the loop over the classes.
  unfoldable pub check_rest : Policy V → Seen → Option PolicyError
  unfolding check_agents
  check_rest p (class_error e) = some e
  check_rest p (seen_names seen) =
      if length p.default_class == 0
      then some default_required
      else if not (is_seen seen p.default_class)
      then some (default_unknown p.default_class)
      else check_agents seen p.agents

  -- `Validate`: no error, or the first one.
  unfoldable pub validate : Policy V → Option PolicyError
  unfolding check_classes check_rest
  validate p =
      if length p.classes == 0 then some no_classes else check_rest p (check_classes 0 [] p.classes)

  -- The names of the classes are those that the loop has seen.
  check_classes-finds :
      (i : ℕ) (seen names : List (List ℕ)) (cs : List (Class V)) (name : List ℕ)
      → check_classes i seen cs ≡ seen_names names
      → is_seen names name ≡ true
      → (is_seen seen name ≡ true) ⊎ ((c : Class V) × (lookup_class name cs ≡ some c))
  unfolding check_classes lookup_class is_seen
  check_classes-finds i seen names [] name h found = inl (ground (arith, h, found))
  check_classes-finds i seen names (c ∷ cs) name h found =
      elim (Bool-cases (bytes_eq c.name name)) [
        | inl here ↦ inr (c, ground (arith, here))
        | inr other ↦
            elim (check_classes-finds (i + 1) (c.name ∷ seen) names cs name (ground (arith, h))
              found) [
                | inl before ↦ inl (ground (arith, before, other))
                | inr (d, there) ↦ inr (d, ground (arith, there, other))
              ]
      ]

  check_rest-default :
      (p : Policy V) (s : Seen)
      → check_rest p s ≡ none
      → (names : List (List ℕ)) × (s ≡ seen_names names) × (is_seen names p.default_class ≡ true)
  unfolding check_rest
  check_rest-default p (class_error e) h = absurd (ground (arith, h))
  check_rest-default p (seen_names seen) h = (seen, refl, ground (arith, h))

  -- A policy that passes has its default class.
  pub validate-default :
      (p : Policy V)
      → validate p ≡ none
      → (c : Class V) × (lookup_class p.default_class p.classes ≡ some c)
  unfolding validate is_seen
  validate-default p h =
      let rest : check_rest p (check_classes 0 [] p.classes) ≡ none = ground (arith, h) in
      let (names, e, found) = check_rest-default p (check_classes 0 [] p.classes) rest in
      elim (check_classes-finds 0 [] names p.classes p.default_class e found) [
        | inl before ↦ absurd (ground (arith, before))
        | inr x ↦ x
      ]

  check_classes-models :
      (i : ℕ) (seen names : List (List ℕ)) (cs : List (Class V))
      → check_classes i seen cs ≡ seen_names names
      → All (λ c. length c.route.model ≢ 0) cs
  unfolding check_classes
  check_classes-models i seen names [] h = tt
  check_classes-models i seen names (c ∷ cs) h = (
    λ e. ground (arith, h, e),
    check_classes-models (i + 1) (c.name ∷ seen) names cs (ground (arith, h)),
  )

  -- Every class of a policy that passes routes to a model.
  pub validate-models :
      (p : Policy V) → validate p ≡ none → All (λ c. length c.route.model ≢ 0) p.classes
  unfolding validate
  validate-models p h =
      let rest : check_rest p (check_classes 0 [] p.classes) ≡ none = ground (arith, h) in
      let (names, e, found) = check_rest-default p (check_classes 0 [] p.classes) rest in
      check_classes-models 0 [] names p.classes e
