-- ===== src/SmartRoute/Routed.antt =====
-- What `Decide` of internal/smartroute/smartroute.go decides.
use llm_cluster_router.Prelude.{
  ℕ, ◌≡◌, ◌⊎◌, refl, subst, List, [], ◌∷◌, none, some, true, ◌==◌, length, Bool-cases, Option-cases,
  inl, inr, arith,
}
use llm_cluster_router.SmartRoute.{
  force_class_of, detect_agent, Class, Policy, Request, is_enabled, lookup_class, extract_model,
}
use llm_cluster_router.SmartRoute.Decide.{
  Source, source_explicit_model, source_default, source_disabled, source_agent_force, Decision,
  Decided, decided, Classify, is_explicit, decision_for, pass_through, usable_class, decide_default,
  decide_classified, decide_model, forced_class, decide,
}
use llm_cluster_router.SmartRoute.Validation.{validate, validate-default}

module _ {V : Type 0} where
  -- A decision as the policy wants it: the caller's own model is passed on, or the class is one of
  -- the policy, with its model, tier and parameters, and it is enabled unless it is the default.
  abbrev pub IsRouted : Policy V → Request → Decision V → Type 0
  IsRouted p r d =
      (d ≡ pass_through (extract_model r) d.source)
      ⊎ ((c : Class V) × (name : List ℕ) × (lookup_class name p.classes ≡ some c)
          × (d ≡ decision_for c d.source)
          × ((is_enabled c ≡ true) ⊎ (name ≡ p.default_class)))

  -- A decision was made, and it is so.
  abbrev pub Routes : Policy V → Request → Decided V → Type 0
  Routes p r x = (d : Decision V) × (x ≡ decided d) × IsRouted p r d

  usable_class-some :
      (name : List ℕ) (cs : List (Class V)) {c : Class V}
      → usable_class name cs ≡ some c
      → (lookup_class name cs ≡ some c) × (is_enabled c ≡ true)
  unfolding usable_class
  usable_class-some name cs {c} h = elim (Option-cases (lookup_class name cs)) [
    | inl e ↦ absurd (ground (arith, h, e))
    | inr (d, e) ↦ elim (Bool-cases (is_enabled d)) [
      | inl on ↦
          let same : d ≡ c = ground (arith, h, e, on) in
          (
            subst (λ x. lookup_class name cs ≡ some x) same e,
            subst (λ x. is_enabled x ≡ true) same on,
          )
      | inr off ↦ absurd (ground (arith, h, e, off))
    ]
  ]

  usable-Routes :
      (p : Policy V) (r : Request) (name : List ℕ) (c : Class V) (s : Source)
      → usable_class name p.classes ≡ some c
      → Routes p r (decided (decision_for c s))
  unfolding decision_for
  usable-Routes p r name c s h =
      let (there, on) = usable_class-some name p.classes h in
      (decision_for c s, refl, inr (c, name, there, refl, inl on))

  passed-Routes :
      (p : Policy V) (r : Request) (s : Source)
      → Routes p r (decided (pass_through (extract_model r) s))
  unfolding pass_through
  passed-Routes p r s = (pass_through (extract_model r) s, refl, inl refl)

  forced_class-some :
      (p : Policy V) (r : Request) {c : Class V}
      → forced_class r p ≡ some c
      → (name : List ℕ) × (usable_class name p.classes ≡ some c)
  unfolding forced_class
  forced_class-some p r {c} h =
      let fc = force_class_of p (detect_agent r) in
      elim (Bool-cases (length fc == 0)) [
        | inl nothing ↦ absurd (ground (arith, h, nothing))
        | inr named ↦ (fc, ground (arith, h, named))
      ]

  module _ (p : Policy V) (r : Request) (valid : validate p ≡ none) where
    decide_default-Routes : Routes p r (decide_default p)
    unfolding decide_default decision_for
    decide_default-Routes =
        let (c, there) = validate-default p valid in
        rw (there, decide_default)
          (decision_for c source_default, refl, inr (c, p.default_class, there, refl, inr refl))

    decide_classified-Routes :
        (classifiers : List (Classify V × Source)) → Routes p r (decide_classified classifiers r p)
    unfolding decide_classified
    decide_classified-Routes [] = decide_default-Routes
    decide_classified-Routes ((classify, source) ∷ rest) =
        let later = decide_classified-Routes rest in
        elim (Option-cases (classify r p)) [
          | inl e ↦ rw (decide_classified, e) later
          | inr (name, e) ↦ elim (Option-cases (usable_class name p.classes)) [
            | inl unusable ↦ rw (decide_classified, e, unusable) later
            | inr (c, found) ↦
                rw (decide_classified, e, found) (usable-Routes p r name c source found)
          ]
        ]

    decide_model-Routes :
        (classifiers : List (Classify V × Source)) → Routes p r (decide_model classifiers r p)
    unfolding decide_model
    decide_model-Routes classifiers = elim (Bool-cases (is_explicit (extract_model r))) [
      | inl named ↦ rw (decide_model, named) (passed-Routes p r source_explicit_model)
      | inr open_model ↦ rw (decide_model, open_model) (decide_classified-Routes classifiers)
    ]

  -- Under a valid policy every request is decided, whatever the classifiers answer: `Decide` never
  -- fails, the decision passes the caller's own model on or is that of a class of the policy, and
  -- a disabled class is only used where it is the default.
  pub decide-Routes :
      (classifiers : List (Classify V × Source)) (p : Policy V) (r : Request)
      → validate p ≡ none
      → Routes p r (decide classifiers (some p) r)
  unfolding decide
  decide-Routes classifiers p r valid = elim (Bool-cases p.enabled) [
    | inr off ↦ rw (decide, off) (passed-Routes p r source_disabled)
    | inl on ↦ elim (Option-cases (forced_class r p)) [
      | inl free ↦ rw (decide, on, free) (decide_model-Routes p r valid classifiers)
      | inr (c, forced) ↦
          let (name, found) = forced_class-some p r forced in
          rw (decide, on, forced) (usable-Routes p r name c source_agent_force found)
    ]
  ]
