-- ===== src/Proxy/Failover.antt =====
-- The failover loop of `handleProxy` in main.go. A response is named by the attempt that received
-- it; `closed` holds the attempts whose context was cancelled, and with it their response closed, if they
-- received one.
use llm_cluster_router.Prelude.{
  ℕ, zero, suc, ◌+◌, List, [], ◌∷◌, Option, none, some, String, Bool, true, false, if◌then◌else◌,
  get_elem?, get_or, modify,
}
use llm_cluster_router.Prelude.Int.{ℤ, pos, negsuc}
use llm_cluster_router.Prelude.Maps.{◌==◌}
use llm_cluster_router.Circuit.{record_success, record_failure}
use llm_cluster_router.KeyPool.{Pool, mark_exhausted, all_cooling}
use llm_cluster_router.Selection.{
  Node, Query, contains, Outcome, chosen, no_node, panics, select_node,
}
use llm_cluster_router.Proxy.{
  Upstream, no_upstream, Result, failed, responded, Exchange, do_upstream, is_failover_status,
  is_quota_hit,
}

-- The constant `maxFailoverAttempts`.
abbrev pub max_failover_attempts : ℕ
max_failover_attempts = 5

-- `heldResp` and `heldNode`: the latest failed response.
pub record Held : Type 0 where
  pub attempt : ℕ
  pub node : ℕ
  pub status : ℕ

-- The nodes of the snapshot with the router's round-robin counter, and the variables of the loop.
pub record Chain : Type 0 where
  pub nodes : List Node
  pub upstreams : List Upstream
  pub counter : ℕ
  pub tried : List String
  pub attempt_idx : ℕ
  pub held : Option Held
  pub closed : List ℕ

-- The end of an attempt: a response to serve, or the next candidate.
pub data Verdict : Type 0 where
  serving : ℕ → ℕ → Verdict
  onward : Outcome → Verdict

-- What the handler does behind the loop: relay the response of an attempt from a node with a
-- status, relay the held one, answer 502, or panic.
pub data Relay : Type 0 where
  relays_served : ℕ → ℕ → ℕ → Relay
  relays_held : Held → Relay
  bad_gateway : Relay
  crashed : Relay

unfoldable pub name_at : List Node → ℕ → String
name_at nodes i = elim (get_elem? nodes i) [ none ↦ "" | some n ↦ n.name ]

-- The set `tried`.
unfoldable pub add_name : String → List String → List String
unfolding contains
add_name x names = if contains names x then names else x ∷ names

unfoldable pub delete_name : String → List String → List String
delete_name x [] = []
delete_name x (y ∷ ys) = let rest = delete_name x ys in if y == x then rest else y ∷ rest

unfoldable pub on_node : ℕ → (Node → Node) → Chain → Chain
on_node i f ch = record ch { nodes = modify ch.nodes i f }

-- `candidate.breaker.RecordFailure()`.
unfoldable pub score_failure : ℕ → Node → Node
score_failure now n = elim n.breaker [
  | none ↦ n
  | some b ↦ record n { breaker = some (record_failure now b) }
]

unfoldable pub score_success : Node → Node
score_success n = elim n.breaker [
  | none ↦ n
  | some b ↦ record n { breaker = some (record_success b) }
]

-- A node that failed in transport is ejected, unless no health loop would bring it back.
unfoldable pub eject : Node → Node
eject n = if n.health_check_disabled then n else record n { healthy = false }

-- `heldResp.Body.Close()` and `heldCancel()`.
unfoldable pub close_held : Chain → Chain
close_held ch = elim ch.held [ none ↦ ch | some h ↦ record ch { closed = h.attempt ∷ ch.closed } ]

-- The response of this attempt becomes the held one.
unfoldable pub hold : ℕ → ℕ → Chain → Chain
unfolding close_held
hold i status ch = record (close_held ch) {
  held = some (record { attempt = ch.attempt_idx; node = i; status = status });
}

-- `selectNodeFromSnapExcluding` with the set `tried`.
unfoldable pub select_next : ℕ → Query → Chain → Chain × Outcome
select_next now q ch =
    let (nodes, counter, o) =
      select_node now (record q { excluded = ch.tried }) ch.counter ch.nodes in
    (record ch { nodes = nodes; counter = counter }, o)

unfoldable pub is_same_node : List Node → ℕ → Outcome → Bool
unfolding name_at
is_same_node nodes i (chosen j) = name_at nodes j == name_at nodes i
is_same_node nodes i no_node = false
is_same_node nodes i panics = false

-- A failed response: the node is scored, the response held, the next candidate selected.
unfoldable pub score_and_hold : ℕ → Query → ℕ → ℕ → Chain → Chain × Verdict
unfolding on_node score_failure hold select_next
score_and_hold now q i status ch =
    let (ch', o) = select_next now q (hold i status (on_node i (score_failure now) ch)) in
    (ch', onward o)

-- The same node again, or any other choice, which falls through to the scoring.
unfoldable pub resume_with : ℕ → Query → ℕ → ℕ → Chain → Outcome → Chain × Verdict
unfolding score_and_hold is_same_node
resume_with now q i status ch (chosen j) =
    if is_same_node ch.nodes i (chosen j)
    then (ch, onward (chosen j))
    else score_and_hold now q i status ch
resume_with now q i status ch no_node = score_and_hold now q i status ch
resume_with now q i status ch panics = (ch, onward panics)

-- The key that hit its quota is cooling and others are not: the response is held, and the node
-- itself may be selected once more.
unfoldable pub retry_same_node : ℕ → Query → ℕ → ℕ → Chain → Chain × Verdict
unfolding resume_with
retry_same_node now q i status ch =
    let held = hold i status ch in
    let name = name_at ch.nodes i in
    let (ch1, o) = select_next now q (record held { tried = delete_name name held.tried }) in
    resume_with now q i status (record ch1 { tried = add_name name ch1.tried }) o

-- Whether the quota was hit, and whether every key of the pool cools now; the state with the pool
-- as it was and as it is.
unfoldable pub on_quota : ℕ → Query → ℕ → ℕ → Bool → Bool → Chain → Chain → Chain × Verdict
unfolding retry_same_node
on_quota now q i status false all ch cooled = score_and_hold now q i status ch
on_quota now q i status true true ch cooled = score_and_hold now q i status cooled
on_quota now q i status true false ch cooled = retry_same_node now q i status cooled

-- The branch of `isFailoverStatus`, for the index of the key in use and the pool of the node.
unfoldable pub fail_over : ℕ → Query → ℕ → ℕ → Bool → ℤ → Option Pool → Chain → Chain × Verdict
unfolding on_quota
fail_over now q i status hit used none ch = score_and_hold now q i status ch
fail_over now q i status hit (negsuc _) (some p) ch = score_and_hold now q i status ch
fail_over now q i status hit (pos k) (some p) ch =
    let p' = mark_exhausted now (pos k) p in
    on_quota now q i status hit (all_cooling now p') ch
      (record ch { upstreams = modify ch.upstreams i (λ v. record v { keys = some p' }) })

-- `attemptCancel()` behind an error.
unfoldable pub cancel_attempt : Chain → Chain
cancel_attempt ch = record ch { closed = ch.attempt_idx ∷ ch.closed }

-- What follows `doUpstream`.
unfoldable pub settle_attempt : ℕ → Query → ℕ → Result → ℤ → Upstream → Chain → Chain × Verdict
unfolding cancel_attempt eject fail_over
settle_attempt now q i (failed _) used u ch =
    let (ch', o) =
      select_next now q (on_node i (λ n. score_failure now (eject n)) (cancel_attempt ch)) in
    (ch', onward o)
settle_attempt now q i (responded status body) used u ch =
    if is_failover_status status
    then fail_over now q i status (is_quota_hit u status body) used u.keys ch
    else (on_node i score_success ch, serving i status)

-- The body of the loop for candidate `i`.
unfoldable pub attempt : Exchange → Query → ℕ → Chain → Chain × Verdict
unfolding settle_attempt add_name
attempt e q i ch =
    let (u, result, used) = do_upstream e (get_or ch.upstreams i no_upstream) in
    settle_attempt e.scored q i result used u (record ch {
      tried = add_name (name_at ch.nodes i) ch.tried;
      upstreams = modify ch.upstreams i (λ _. u);
    })

-- The loop has ended without a response to serve.
unfoldable pub exhausted : Chain → Chain × Relay
exhausted ch = elim ch.held [ none ↦ (ch, bad_gateway) | some h ↦ (ch, relays_held h) ]

-- The loop with this many attempts left, and the `switch` behind it. `wire` says what becomes of
-- an attempt at a node.
unfoldable pub failover_loop : (ℕ → ℕ → Exchange) → Query → ℕ → Outcome → Chain → Chain × Relay
unfolding attempt exhausted
failover_loop wire q m no_node ch = exhausted ch
failover_loop wire q m panics ch = (ch, crashed)
failover_loop wire q zero (chosen i) ch = exhausted ch
failover_loop wire q (suc m) (chosen i) ch =
    let (ch', verdict) = attempt (wire ch.attempt_idx i) q i ch in
    elim verdict [
      | serving j status ↦ (close_held ch', relays_served ch'.attempt_idx j status)
      | onward o ↦ failover_loop wire q m o (record ch' { attempt_idx = ch'.attempt_idx + 1 })
    ]

-- The variables of the loop as they begin.
abbrev pub new_chain : ℕ → List Node → List Upstream → Chain
new_chain counter nodes upstreams = record {
  nodes = nodes;
  upstreams = upstreams;
  counter = counter;
  tried = [];
  attempt_idx = 0;
  held = none;
  closed = [];
}

-- The first selection.
unfoldable pub start : ℕ → Query → ℕ → List Node → List Upstream → Chain × Outcome
unfolding select_next
start now q counter nodes upstreams = select_next now q (new_chain counter nodes upstreams)

-- The failover of a request, from its first selection on.
unfoldable pub failover :
    (ℕ → ℕ → Exchange) → ℕ → Query → ℕ → List Node → List Upstream → Chain × Relay
unfolding failover_loop start
failover wire now q counter nodes upstreams =
    let (ch, o) = start now q counter nodes upstreams in
    failover_loop wire q max_failover_attempts o ch
