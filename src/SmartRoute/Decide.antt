-- ===== src/SmartRoute/Decide.antt =====
-- `Decide` of internal/smartroute/smartroute.go with its two classifiers.
use llm_cluster_router.Prelude.{
  ℕ, List, [], ◌∷◌, Option, none, some, Bool, true, false, ◌&&◌, ltb, leb, ◌==◌, not, if◌then◌else◌,
  length,
}
use llm_cluster_router.Prelude.Bytes.{bytes_eq, lower, contains, trim_space}
use llm_cluster_router.SmartRoute.{
  Class, Policy, Request, is_enabled, lookup_class, enabled_classes, detect_agent, force_class_of,
  extract_model, extract_prompt,
}

-- The sources of a decision.
pub data Source : Type 0 where
  source_header source_explicit_model source_heuristic source_default source_disabled
        source_agent_force :
      Source

pub record Decision (V : Type 0) : Type 0 where
  pub class : List ℕ
  pub model : List ℕ
  pub tier : List ℕ
  pub params : List (List ℕ × V)
  pub source : Source

-- The bytes of `auto`.
abbrev auto_model : List ℕ
auto_model = 97 ∷ 117 ∷ 116 ∷ 111 ∷ []

-- A model that is named, and is not `auto` in any case.
unfoldable pub is_explicit : List ℕ → Bool
unfolding bytes_eq lower
is_explicit m = not (length m == 0) && not (bytes_eq (lower m) auto_model)

-- A decision, or the error of `Decide`.
pub data Decided (V : Type 0) : Type 0 where
  decided : Decision V → Decided V
  default_not_found : List ℕ → Decided V

-- The interface `Classifier`.
abbrev pub Classify : Type 0 → Type 0
Classify V = Request → Policy V → Option (List ℕ)

unfoldable pub has_marker : List ℕ → List (List ℕ) → Bool
unfolding contains
has_marker prompt [] = false
has_marker prompt (m ∷ ms) =
    if not (length m == 0) && contains prompt m then true else has_marker prompt ms

module _ {V : Type 0} where
  -- `decisionFor`.
  unfoldable pub decision_for : Class V → Source → Decision V
  decision_for c source = record {
    class = c.name;
    model = c.route.model;
    tier = c.route.tier;
    params = c.route.params;
    source = source;
  }

  -- A decision that names no class.
  unfoldable pub pass_through : List ℕ → Source → Decision V
  pass_through model source = record {
    class = [];
    model = model;
    tier = [];
    params = [];
    source = source;
  }

  -- `headerClassifier`.
  unfoldable pub header_classify : Classify V
  unfolding trim_space lookup_class
  header_classify r p =
      let name = trim_space r.task_header in
      if length name == 0
      then none
      else elim (lookup_class name p.classes) [ none ↦ none | some _ ↦ some name ]

  -- The first loop of `heuristicClassifier`: the name of the greatest minimum that the prompt meets.
  unfoldable pub longest_class : ℕ → List (Class V) → List ℕ → ℕ → List ℕ
  longest_class chars [] best best_min = best
  longest_class chars (c ∷ cs) best best_min =
      let m = c.markers.min_prompt_chars in
      if ltb 0 m && leb m chars && ltb best_min m
      then longest_class chars cs c.name m
      else longest_class chars cs best best_min

  -- Its second loop.
  unfoldable pub marked_class : List ℕ → List (Class V) → Option (List ℕ)
  unfolding has_marker
  marked_class prompt [] = none
  marked_class prompt (c ∷ cs) =
      if has_marker prompt c.markers.any_of_markers then some c.name else marked_class prompt cs

  -- `heuristicClassifier`.
  unfoldable pub heuristic_classify : Classify V
  unfolding extract_prompt enabled_classes longest_class marked_class
  heuristic_classify r p =
      let prompt = extract_prompt r in
      let cs = enabled_classes p.classes in
      let best = longest_class (length prompt) cs [] 0 in
      if length prompt == 0
      then none
      else if not (length best == 0)
      then some best
      else marked_class prompt cs

  -- The classifiers of `NewRouter`.
  abbrev pub default_classifiers : List (Classify V × Source)
  default_classifiers =
      (header_classify, source_header) ∷ (heuristic_classify, source_heuristic) ∷ []

  -- The class of a name, if there is one and it is enabled.
  unfoldable pub usable_class : List ℕ → List (Class V) → Option (Class V)
  unfolding lookup_class is_enabled
  usable_class name cs = elim (lookup_class name cs) [
    | none ↦ none
    | some c ↦ if is_enabled c then some c else none
  ]

  -- The last step: the default class, enabled or not.
  unfoldable pub decide_default : Policy V → Decided V
  unfolding lookup_class decision_for
  decide_default p = elim (lookup_class p.default_class p.classes) [
    | none ↦ default_not_found p.default_class
    | some c ↦ decided (decision_for c source_default)
  ]

  -- The loop over the classifiers.
  unfoldable pub decide_classified : List (Classify V × Source) → Request → Policy V → Decided V
  unfolding usable_class decide_default
  decide_classified [] r p = decide_default p
  decide_classified ((classify, source) ∷ rest) r p =
      let later = decide_classified rest r p in
      elim (classify r p) [
        | none ↦ later
        | some name ↦ elim (usable_class name p.classes) [
          | none ↦ later
          | some c ↦ decided (decision_for c source)
        ]
      ]

  -- An explicit model is kept; `auto` and none are classified.
  unfoldable pub decide_model : List (Classify V × Source) → Request → Policy V → Decided V
  unfolding decide_classified extract_model is_explicit pass_through
  decide_model classifiers r p =
      let m = extract_model r in
      if is_explicit m
      then decided (pass_through m source_explicit_model)
      else decide_classified classifiers r p

  -- The class that the agent of the request is forced into, if there is one.
  unfoldable pub forced_class : Request → Policy V → Option (Class V)
  unfolding force_class_of detect_agent usable_class
  forced_class r p =
      let fc = force_class_of p (detect_agent r) in
      if length fc == 0 then none else usable_class fc p.classes

  -- `Decide` of a router, which may have no policy.
  unfoldable pub decide : List (Classify V × Source) → Option (Policy V) → Request → Decided V
  unfolding forced_class decide_model pass_through
  decide classifiers none r = decided (pass_through (extract_model r) source_disabled)
  decide classifiers (some p) r =
      if p.enabled
      then elim (forced_class r p) [
        | none ↦ decide_model classifiers r p
        | some c ↦ decided (decision_for c source_agent_force)
      ]
      else decided (pass_through (extract_model r) source_disabled)
