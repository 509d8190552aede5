-- ===== src/Examples/SmartRoute.antt =====
-- A policy of two classes, and a request whose header names the one that is turned off.
use llm_cluster_router.Prelude.{ℕ, ◌≡◌, refl, List, [], ◌∷◌, none, some, true, false}
use llm_cluster_router.SmartRoute.{Class, Policy, Request}
use llm_cluster_router.SmartRoute.Decide.{Decision, source_default, default_classifiers, decide}
use llm_cluster_router.SmartRoute.Rewrite.{rewrite, parsed_null, write_panics}
use llm_cluster_router.SmartRoute.Validation.{validate}
use llm_cluster_router.SmartRoute.Routed.{Routes, decide-Routes}

-- The names `c` and `d`, the models `m` and `n`; a parameter is a number.
abbrev coding : Class ℕ
coding = record {
  name = 99 ∷ [];
  enabled = some false;
  markers = record { any_of_markers = []; min_prompt_chars = 0 };
  route = record { model = 109 ∷ []; tier = []; params = [] };
}

abbrev daily : Class ℕ
daily = record {
  name = 100 ∷ [];
  enabled = none;
  markers = record { any_of_markers = []; min_prompt_chars = 10 };
  route = record { model = 110 ∷ []; tier = []; params = (116 ∷ [], 5) ∷ [] };
}

abbrev policy : Policy ℕ
policy = record {
  enabled = true;
  agents = [];
  default_class = 100 ∷ [];
  classes = coding ∷ daily ∷ [];
}

abbrev request : Request
request = record { task_header = 99 ∷ []; agent_header = []; user_agent = []; body = none }

policy_valid : validate policy ≡ none
unfolding validate
policy_valid = refl

decide-Routes_example : Routes policy request (decide default_classifiers (some policy) request)
decide-Routes_example = decide-Routes default_classifiers policy request policy_valid

abbrev decision : Decision ℕ
decision = record {
  class = 100 ∷ [];
  model = 110 ∷ [];
  tier = [];
  params = (116 ∷ [], 5) ∷ [];
  source = source_default;
}

abbrev first_byte : List ℕ → ℕ
first_byte [] = 0
first_byte (b ∷ bs) = b

-- The body `null`, and a decision with a model.
null_panics : rewrite first_byte decision parsed_null ≡ write_panics
unfolding rewrite
null_panics = refl
