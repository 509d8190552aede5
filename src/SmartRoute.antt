-- ===== src/SmartRoute.antt =====
-- The routing of requests by the class of their task: internal/smartroute/smartroute.go and
-- internal/smartroute/agents.go. A body is what decoding it as JSON yields, `none` where that fails;
-- the values of parameters are of any type.
pub mod Validation
pub mod Decide
pub mod Routed
pub mod Rewrite
use llm_cluster_router.Prelude.{
  ℕ, ◌+◌, List, [], ◌∷◌, ◌++◌, Option, none, some, Bool, true, false, ◌&&◌, ◌||◌, ltb, leb, ◌==◌,
  not, if◌then◌else◌, length,
}
use llm_cluster_router.Prelude.Bytes.{bytes_eq, lower, contains, trim_space}

-- A minimum that is not positive is 0.
pub record Match : Type 0 where
  pub any_of_markers : List (List ℕ)
  pub min_prompt_chars : ℕ

-- `AgentPolicy`.
pub record AgentPolicy : Type 0 where
  pub enabled : Option Bool
  pub force_class : List ℕ

-- `Route`, `Class` and `Policy`, with the type of a parameter's value.
pub record Route (V : Type 0) : Type 0 where
  pub model : List ℕ
  pub tier : List ℕ
  pub params : List (List ℕ × V)

pub record Class (V : Type 0) : Type 0 where
  pub name : List ℕ
  pub enabled : Option Bool
  pub markers : Match
  pub route : Route V

pub record Policy (V : Type 0) : Type 0 where
  pub enabled : Bool
  pub agents : List (List ℕ × AgentPolicy)
  pub default_class : List ℕ
  pub classes : List (Class V)

-- The content of a message: a string, its parts, or anything else.
pub data Content : Type 0 where
  content_text : List ℕ → Content
  content_parts : List (List ℕ) → Content
  content_other : Content

pub record Body : Type 0 where
  pub model : List ℕ
  pub prompt : List ℕ
  pub messages : List Content

-- A request: three of its headers and its body.
pub record Request : Type 0 where
  pub task_header : List ℕ
  pub agent_header : List ℕ
  pub user_agent : List ℕ
  pub body : Option Body

-- `IsEnabled`.
unfoldable pub is_enabled : {V : Type 0} → Class V → Bool
is_enabled c = elim c.enabled [ none ↦ true | some b ↦ b ]

-- `lookup`: the first class of a name.
unfoldable pub lookup_class : {V : Type 0} → List ℕ → List (Class V) → Option (Class V)
unfolding bytes_eq
lookup_class name [] = none
lookup_class name (c ∷ cs) = if bytes_eq c.name name then some c else lookup_class name cs

-- `EnabledClasses`.
unfoldable pub enabled_classes : {V : Type 0} → List (Class V) → List (Class V)
unfolding is_enabled
enabled_classes [] = []
enabled_classes (c ∷ cs) = let rest = enabled_classes cs in if is_enabled c then c ∷ rest else rest

-- The needles of `uaHints` are kilo, cursor, claude, codex and openai.
abbrev cursor : List ℕ
cursor = 99 ∷ 117 ∷ 114 ∷ 115 ∷ 111 ∷ 114 ∷ []

abbrev codex : List ℕ
codex = 99 ∷ 111 ∷ 100 ∷ 101 ∷ 120 ∷ []

abbrev kilo : List ℕ
kilo = 107 ∷ 105 ∷ 108 ∷ 111 ∷ []

abbrev claude : List ℕ
claude = 99 ∷ 108 ∷ 97 ∷ 117 ∷ 100 ∷ 101 ∷ []

abbrev openai : List ℕ
openai = 111 ∷ 112 ∷ 101 ∷ 110 ∷ 97 ∷ 105 ∷ []

-- `-code`, as in `kilo-code`.
abbrev code_suffix : List ℕ
code_suffix = 45 ∷ 99 ∷ 111 ∷ 100 ∷ 101 ∷ []

abbrev ua_hints : List (List ℕ × List ℕ)
ua_hints =
    (kilo, kilo ++ code_suffix)
    ∷ (cursor, cursor)
    ∷ (claude, claude ++ code_suffix)
    ∷ (codex, codex)
    ∷ (openai, codex)
    ∷ []

unfoldable pub find_hint : List (List ℕ × List ℕ) → List ℕ → List ℕ
unfolding contains
find_hint [] ua = []
find_hint ((needle, agent) ∷ hints) ua = if contains ua needle then agent else find_hint hints ua

-- `DetectAgent`.
unfoldable pub detect_agent : Request → List ℕ
unfolding lower trim_space find_hint
detect_agent r =
    let h = lower (trim_space r.agent_header) in
    let ua = lower r.user_agent in
    if not (length h == 0) then h else if length ua == 0 then [] else find_hint ua_hints ua

unfoldable pub lookup_agent : List ℕ → List (List ℕ × AgentPolicy) → Option AgentPolicy
unfolding bytes_eq
lookup_agent agent [] = none
lookup_agent agent ((a, ap) ∷ rest) = if bytes_eq a agent then some ap else lookup_agent agent rest

-- `AgentAllowed` of a policy, and of a router, which may have none.
unfoldable pub policy_allows : {V : Type 0} → Policy V → List ℕ → Bool
unfolding lookup_agent lower
policy_allows p agent =
    if length p.agents == 0 || length agent == 0
    then true
    else elim (lookup_agent (lower agent) p.agents) [
      | none ↦ true
      | some ap ↦ elim ap.enabled [ none ↦ true | some b ↦ b ]
    ]

unfoldable pub agent_allowed : {V : Type 0} → Option (Policy V) → List ℕ → Bool
unfolding policy_allows
agent_allowed none agent = true
agent_allowed (some p) agent = if p.enabled then policy_allows p agent else true

-- `ForceClass`.
unfoldable pub force_class_of : {V : Type 0} → Policy V → List ℕ → List ℕ
unfolding lookup_agent lower
force_class_of p agent =
    if length agent == 0
    then []
    else elim (lookup_agent (lower agent) p.agents) [ none ↦ [] | some ap ↦ ap.force_class ]

-- `extractModel` and `extractPrompt`.
unfoldable pub extract_model : Request → List ℕ
extract_model r = elim r.body [ none ↦ [] | some b ↦ b.model ]

unfoldable pub concat : List (List ℕ) → List ℕ
concat [] = []
concat (t ∷ ts) = t ++ concat ts

unfoldable pub content_bytes : Content → List ℕ
unfolding concat
content_bytes (content_text t) = t
content_bytes (content_parts ts) = concat ts
content_bytes content_other = []

unfoldable pub messages_bytes : List Content → List ℕ
unfolding content_bytes
messages_bytes [] = []
messages_bytes (m ∷ ms) = content_bytes m ++ messages_bytes ms

unfoldable pub extract_prompt : Request → List ℕ
unfolding messages_bytes
extract_prompt r = elim r.body [ none ↦ [] | some b ↦ b.prompt ++ messages_bytes b.messages ]
