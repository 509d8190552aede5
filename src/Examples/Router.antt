-- ===== src/Examples/Router.antt =====
-- A customer's request, the models that a customer is told of, and what a gateway node is sent.
use llm_cluster_router.Prelude.{
  ℕ, zero, suc, ◌≡◌, ◌≢◌, refl, ap, List, [], ◌∷◌, ◌++◌, Option, none, some, true, false, All,
  subst, some_inj, arith,
}
use mathlib.Core.Option
use llm_cluster_router.Prelude.Int.{pos}
use llm_cluster_router.Prelude.Bytes.{codes, bytes_eq, lower}
use llm_cluster_router.Startup.{Headers, authorization, bearer}
use llm_cluster_router.Selection.{Node, Query, contains, allows_class, chosen, select_node}
use llm_cluster_router.SmartRoute.Rewrite.{model_key, lookup_key}
use llm_cluster_router.Router.{min_chat_url, node_enabled}
use llm_cluster_router.Router.Access.{class_customer, let_in, class_bearer_auth, class_from_request}
use llm_cluster_router.Router.Entitled.{
  IsEntitled, class_bearer_auth-IsEntitled, customer-reaches_admitting,
}
use llm_cluster_router.Router.Models.{list_models}
use llm_cluster_router.Router.Listed.{is_served, is_unique, list_models-served}
use llm_cluster_router.Router.Body.{Payload, Decoded, nil_map, object, edit_panics, forward_body}
use llm_cluster_router.Router.Kept.{IsCodec, Sends, forward_body-Sends}
use llm_cluster_router.Router.UpstreamAuth.{set_upstream_auth, Other, set_upstream_auth-replaces}

abbrev internal_only : Node
internal_only = record {
  name = "gpu-0";
  tier = "fast";
  priority = pos 0;
  weight = 1;
  models = "qwen" ∷ [];
  workloads = "internal" ∷ [];
  pii_local = true;
  health_check_disabled = false;
  healthy = true;
  consecutive_pass = 0;
  consecutive_fail = 0;
  breaker = none;
}

abbrev open_node : Node
open_node = record internal_only {
  name = "cloud";
  priority = pos 5;
  workloads = [];
  models = "qwen" ∷ "glm" ∷ "qwen" ∷ [];
}

abbrev nodes : List Node
nodes = internal_only ∷ open_node ∷ []

abbrev query : Query
query = record {
  model = "qwen";
  tier = "";
  excluded = [];
  workload_class = "customer";
  personal = false;
}

abbrev customers : List (List ℕ)
customers = [] ∷ codes "c" ∷ []

lets_customer_in :
    class_bearer_auth (codes "i") customers (bearer ++ codes "c") ≡ let_in (some class_customer)
unfolding class_bearer_auth
lets_customer_in = refl

reaches_open : (select_node 5 query 7 nodes).2 ≡ chosen 1
unfolding select_node
reaches_open = refl

class_bearer_auth-IsEntitled_example :
    IsEntitled (codes "i") customers (bearer ++ codes "c") (some class_customer)
class_bearer_auth-IsEntitled_example =
    class_bearer_auth-IsEntitled (codes "i") customers (bearer ++ codes "c") (some class_customer)
      lets_customer_in

other_token : codes "c" ≢ codes "i"
other_token h = absurd (ground (arith, h))

customer-reaches_admitting_example :
    (allows_class open_node "customer" ≡ true) × (true ≡ true) × (contains [] "cloud" ≡ false)
unfolding class_from_request
customer-reaches_admitting_example =
    customer-reaches_admitting (codes "i") customers (codes "c") 1 (some class_customer) 5 query 7
      nodes 1 refl other_token lets_customer_in (omega arith, (omega arith, tt)) refl reaches_open
      refl

list_models-served_example :
    (contains (list_models "customer" nodes) "glm" ≡ is_served "customer" "glm" nodes)
    × (is_unique (list_models "customer" nodes) ≡ true)
list_models-served_example = list_models-served "customer" nodes "glm"

lists_twice_once : list_models "customer" nodes ≡ "qwen" ∷ "glm" ∷ []
unfolding list_models
lists_twice_once = refl

-- A codec of payloads: each text ends at a zero.
unfoldable put : List ℕ → List ℕ → List ℕ
put [] rest = 0 ∷ rest
put (b ∷ bs) rest = suc b ∷ put bs rest

unfoldable text : Payload → List ℕ
unfolding put
text [] = []
text ((k, v) ∷ p) = put k (put v (text p))

unfoldable push : ℕ → List (List ℕ) → List (List ℕ)
push b [] = (b ∷ []) ∷ []
push b (s ∷ ss) = (b ∷ s) ∷ ss

unfoldable texts : List ℕ → List (List ℕ)
unfolding push
texts [] = []
texts (zero ∷ bs) = [] ∷ texts bs
texts (suc b ∷ bs) = push b (texts bs)

unfoldable pairs : List (List ℕ) → Payload
pairs (k ∷ v ∷ ss) = (k, v) ∷ pairs ss
pairs ss = []

unmapped : (o : Option (List ℕ)) → o ≡ Option.map (λ v. v) o
unmapped none = refl
unmapped (some v) = refl

abbrev decode : List ℕ → Decoded
decode b = object (pairs (texts b))

-- A decoder that has read `null`.
abbrev decode_null : List ℕ → Decoded
decode_null b = nil_map

abbrev encode : Payload → Option (List ℕ)
encode p = some (text p)

texts-put : (s rest : List ℕ) → texts (put s rest) ≡ s ∷ texts rest
unfolding texts put push
texts-put [] rest = refl
texts-put (b ∷ bs) rest = rw (texts-put bs rest) refl

pairs-text : (p : Payload) → pairs (texts (text p)) ≡ p
unfolding pairs text texts
pairs-text [] = refl
pairs-text ((k, v) ∷ p) = rw (texts-put k (put v (text p)), texts-put v (text p), pairs-text p) refl

-- This codec gives a value no other form.
codec : IsCodec decode encode (λ v. v)
codec = record {
  reads = λ p b h.
      let same : text p ≡ b = some_inj h in
      (
        p,
        ap object (subst (λ x. pairs (texts x) ≡ p) same (pairs-text p)),
        (λ k. unmapped (lookup_key k p)),
      );
  canon_idem = λ v. refl;
}

abbrev extract : List ℕ → List ℕ
extract body = elim (lookup_key model_key (pairs (texts body))) [ none ↦ [] | some m ↦ m ]

abbrev asked : Payload
asked = (model_key, codes "a") ∷ (codes "t", codes "1") ∷ []

asked_read : decode (text asked) ≡ object asked
asked_read = ap object (pairs-text asked)

no_model : bytes_eq model_key (codes "t") ≡ false
unfolding bytes_eq
no_model = refl

forward_body-Sends_example :
    Sends decode encode
      (λ v. v)
      (codes "t")
      (some (codes "1"))
      (forward_body decode encode extract some
        (text asked)
        ((codes "a", codes "b") ∷ [])
        ((codes "t", codes "9") ∷ (codes "u", codes "2") ∷ []))
unfolding lookup_key
forward_body-Sends_example =
    forward_body-Sends decode encode (λ v. v) codec extract some (codes "t") (text asked)
      ((codes "a", codes "b") ∷ []) ((codes "t", codes "9") ∷ (codes "u", codes "2") ∷ []) asked
      no_model asked_read

-- A body `null` and a node with a default.
null_default_panics :
    forward_body decode_null encode extract some (codes "null") [] ((codes "t", codes "9") ∷ [])
    ≡ edit_panics
unfolding forward_body
null_default_panics = refl

abbrev sent : Headers
sent =
    (codes "authorization", codes "Bearer c")
    ∷ (codes "x-key", codes "z")
    ∷ (codes "A", codes "b")
    ∷ []

set_upstream_auth-replaces_example :
    (rest : Headers) × (set_upstream_auth sent (codes "X-Key") (codes "k")
      ≡ (codes "X-Key", codes "k") ∷ rest)
    × All (Other (codes "X-Key")) rest
    × All (Other authorization) rest
set_upstream_auth-replaces_example =
    set_upstream_auth-replaces sent (codes "X-Key") (codes "k") (omega arith)

denied_base : min_chat_url (codes "https://api.minimax.io/v1") ≡ none
unfolding min_chat_url bytes_eq
denied_base = refl

enabled_by_default : node_enabled (codes " ") ≡ true
unfolding node_enabled lower
enabled_by_default = refl
