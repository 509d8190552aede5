-- ===== src/Selection.antt =====
-- The choice of an upstream node: main.go (upstreamNode, selectNodeFromSnapExcluding), with
-- SupportsModel of internal/router/helpers.go and PersonalBlocks of internal/piiroute/piiroute.go.
-- The snapshot of a configuration is a list of nodes, and a chosen node is its position in it, as the
-- source returns a pointer to it.
pub mod Order
pub mod Choice
pub mod Chosen
pub mod Health
pub mod Probes
use llm_cluster_router.Prelude.{
  ℕ, ◌+◌, ◌%◌, ◌^◌, List, [], ◌∷◌, ◌++◌, Option, none, some, String, Bool, true, false, ◌&&◌, ◌||◌,
  not, ltb, if◌then◌else◌, length, get_or, replicate,
}
use llm_cluster_router.Prelude.Int.{ℤ, positive_or}
use llm_cluster_router.Prelude.Maps.{◌==◌}
use llm_cluster_router.Circuit.{Breaker, allow}
use llm_cluster_router.Selection.Order.{lt_int, eq_int}

-- `upstreamNode`, with the fields of its configuration that selection and the health loop read.
pub record Node : Type 0 where
  pub name : String
  pub tier : String
  pub priority : ℤ
  pub weight : ℕ
  pub models : List String
  pub workloads : List String
  pub pii_local : Bool
  pub health_check_disabled : Bool
  pub healthy : Bool
  pub consecutive_pass : ℕ
  pub consecutive_fail : ℕ
  pub breaker : Option Breaker

-- The weight that `buildReloadable` gives a node: anything not positive becomes 1.
abbrev pub node_weight : ℤ → ℕ
node_weight w = positive_or 1 w

-- What a request asks of its node. `tier` is trimmed, and empty for any tier; `excluded` holds the
-- names of the nodes that already failed for this request.
pub record Query : Type 0 where
  pub model : String
  pub tier : String
  pub excluded : List String
  pub workload_class : String
  pub personal : Bool

-- `slices.Contains`, and the loop of `SupportsModel`.
unfoldable pub contains : List String → String → Bool
contains [] x = false
contains (y ∷ ys) x = if y == x then true else contains ys x

-- `SupportsModel`.
unfoldable pub supports_model : List String → String → Bool
unfolding contains
supports_model models model = contains models model

-- `AllowsClass`.
unfoldable pub allows_class : Node → String → Bool
unfolding contains
allows_class n c = elim n.workloads [ [] ↦ true | w ∷ ws ↦ contains (w ∷ ws) c ]

-- `PersonalBlocks`.
unfoldable pub personal_blocks : Bool → Bool → Bool
personal_blocks personal pii_local = personal && not pii_local

-- `anyNodePIILocal`.
unfoldable pub any_node_pii_local : List Node → Bool
any_node_pii_local [] = false
any_node_pii_local (n ∷ ns) = if n.pii_local then true else any_node_pii_local ns

-- The filters of the loop that stand before the circuit breaker.
unfoldable pub passes_filters : Query → Node → Bool
unfolding allows_class personal_blocks contains
passes_filters q n =
    if not (allows_class n q.workload_class)
    then false
    else if q.personal && personal_blocks q.personal n.pii_local
    then false
    else if not n.healthy
    then false
    else if contains q.excluded n.name
    then false
    else if not (q.tier == "") && not (n.tier == q.tier)
    then false
    else true

-- Whether a node's breaker lets the request through; `Allow` may change it. Nodes that are filtered
-- out are not asked.
unfoldable pub consult : ℕ → Query → Node → Node × Bool
unfolding passes_filters allow
consult now q n = if not (passes_filters q n) then (n, false) else elim n.breaker [
  | none ↦ (n, true)
  | some b ↦ (record n { breaker = some (allow now b).0 }, (allow now b).1)
]

unfoldable pub serves : Query → Node → Bool
unfolding supports_model
serves q n = q.model == "" || supports_model n.models q.model

-- The map from priorities to candidates. A node is a candidate as often as its weight says.
unfoldable pub add_candidates : ℤ → ℕ → ℕ → List (ℤ × List ℕ) → List (ℤ × List ℕ)
add_candidates p weight i [] = (p, replicate weight i) ∷ []
add_candidates p weight i ((p', c) ∷ bs) =
    if eq_int p' p
    then (p', c ++ replicate weight i) ∷ bs
    else (p', c) ∷ add_candidates p weight i bs

-- The loop over the nodes, from position `i` on.
unfoldable pub visit : ℕ → Query → ℕ → List Node → List (ℤ × List ℕ) → List Node × List (ℤ × List ℕ)
unfolding consult serves add_candidates
visit now q i [] bs = ([], bs)
visit now q i (n ∷ ns) bs =
    let bs' =
      if (consult now q n).1 && serves q n then add_candidates n.priority n.weight i bs else bs in
    let rest = visit now q (i + 1) ns bs' in ((consult now q n).0 ∷ rest.0, rest.1)

-- The bucket of the least priority: `sort.Ints(priorities)` and `priorities[0]`.
unfoldable pub lowest : ℤ × List ℕ → List (ℤ × List ℕ) → ℤ × List ℕ
lowest b [] = b
lowest b (c ∷ cs) = lowest (if lt_int c.0 b.0 then c else b) cs

-- The outcome: a position, no node, or the panic of an index out of range. The counter of the round
-- robin turns negative as an `int` from 2 ^ 63 on, and an empty bucket divides by 0.
pub data Outcome : Type 0 where
  chosen : ℕ → Outcome
  no_node : Outcome
  panics : Outcome

unfoldable pub pick : ℕ → List ℕ → Outcome
pick rr [] = panics
pick rr (c ∷ cs) =
    if ltb (rr % 2 ^ 64) (2 ^ 63)
    then chosen (get_or (c ∷ cs) (rr % 2 ^ 64 % length (c ∷ cs)) c)
    else panics

-- The part behind the loop: no bucket is no node, and the counter moves only for a choice.
unfoldable pub choose_from : ℕ → List (ℤ × List ℕ) → ℕ × Outcome
unfolding lowest pick
choose_from rr [] = (rr, no_node)
choose_from rr (b ∷ bs) = ((rr + 1) % 2 ^ 64, pick rr (lowest b bs).1)

-- `selectNodeFromSnapExcluding`: the nodes with their breakers after it, the counter, the outcome.
unfoldable pub select_node : ℕ → Query → ℕ → List Node → List Node × ℕ × Outcome
unfolding visit choose_from
select_node now q rr nodes =
    let visited = visit now q 0 nodes [] in
    (visited.0, (choose_from rr visited.1).0, (choose_from rr visited.1).1)
