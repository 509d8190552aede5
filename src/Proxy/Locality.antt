-- ===== src/Proxy/Locality.antt =====
-- Where the failover of main.go sends a personal request.
use llm_cluster_router.Prelude.{
  ℕ, zero, suc, ◌+◌, ◌≡◌, ◌<◌, refl, sym, ◌∙◌, ap, List, [], Option, none, some, String, Bool, true,
  false, get_elem?, get_elem?-map, All, Bool-cases, inl, inr, arith,
}
use llm_cluster_router.Prelude.Int.{ℤ, pos, negsuc}
use llm_cluster_router.KeyPool.{Pool}
use llm_cluster_router.Selection.{Node, Query, Outcome, chosen, no_node, panics, select_node}
use llm_cluster_router.Selection.Choice.{Weighted}
use llm_cluster_router.Selection.Chosen.{select_node-safe, select_node-chosen}
use llm_cluster_router.Proxy.{
  Upstream, Result, failed, responded, Exchange, is_failover_status, is_quota_hit,
}
use llm_cluster_router.Proxy.Failover.{
  new_chain, Chain, Verdict, serving, onward, Relay, relays_served, score_failure, score_success,
  eject, close_held, hold, on_node, select_next, is_same_node, resume_with, score_and_hold,
  retry_same_node, fail_over, on_quota, settle_attempt, attempt, failover_loop, failover, start,
  max_failover_attempts, name_at, add_name, delete_name,
}
use llm_cluster_router.Proxy.Flags.{
  flag, flags, visit-flags, modify-flags, flags-Weighted, Weighted-flags, get_elem?-flags,
}

-- The loop after an attempt.
unfoldable finish : (ℕ → ℕ → Exchange) → Query → ℕ → Chain × Verdict → Chain × Relay
finish wire q m (ch, serving j status) = (close_held ch, relays_served ch.attempt_idx j status)
finish wire q m (ch, onward o) =
    failover_loop wire q m o (record ch { attempt_idx = ch.attempt_idx + 1 })

module _ (fs : List (Bool × ℕ)) (weighted : All (λ f. 0 < f.1) fs) where
  -- A candidate that is local.
  abbrev OnLocal : Outcome → Type 0
  OnLocal o = elim o [
    | chosen i ↦ (w : ℕ) × (get_elem? fs i ≡ some (true, w))
    | no_node ↦ Unit
    | panics ↦ Unit
  ]

  abbrev GoesLocal : Chain × Verdict → Type 0
  GoesLocal x = (flags x.0.nodes ≡ fs) × elim x.1 [ serving i status ↦ Unit | onward o ↦ OnLocal o ]

  module _ (q : Query) (personal : q.personal ≡ true) (now : ℕ) where
    chosen-OnLocal :
        (excluded : List String) (rr : ℕ) (nodes : List Node) (o : Outcome)
        → flags nodes ≡ fs
        → (select_node now (record q { excluded = excluded }) rr nodes).2 ≡ o
        → OnLocal o
    chosen-OnLocal excluded rr nodes no_node e h = tt
    chosen-OnLocal excluded rr nodes panics e h = tt
    chosen-OnLocal excluded rr nodes (chosen i) e h =
        let query : Query = record q { excluded = excluded } in
        let w = flags-Weighted nodes (rw e weighted) in
        let (n, at, _, _) = select_node-chosen now query rr nodes i w h in
        let safe = select_node-safe now query rr nodes i w h at in
        let here : n.pii_local ≡ true = ground (arith, safe.1, personal) in
        (n.weight, rw (sym e) (get_elem?-map flag nodes i at ∙ ap (λ b. some (b, n.weight)) here))

    select_next-local :
        (ch : Chain)
        → flags ch.nodes ≡ fs
        → (flags (select_next now q ch).0.nodes ≡ fs) × OnLocal (select_next now q ch).1
    unfolding select_next select_node
    select_next-local ch e = (
      visit-flags now (record q { excluded = ch.tried }) 0 ch.nodes [] ∙ e,
      chosen-OnLocal ch.tried ch.counter ch.nodes _ e refl,
    )

    module _ (i status : ℕ) where
      hold-flags : (ch : Chain) → (hold i status ch).nodes ≡ ch.nodes
      unfolding hold close_held
      hold-flags ch = ground arith

      score_failure-flag : (n : Node) → flag (score_failure now n) ≡ flag n
      unfolding score_failure
      score_failure-flag n = ground arith

      score_and_hold-local :
          (ch : Chain) → flags ch.nodes ≡ fs → GoesLocal (score_and_hold now q i status ch)
      unfolding score_and_hold on_node
      score_and_hold-local ch e =
          let scored = on_node i (score_failure now) ch in
          select_next-local (hold i status scored) (
            ap flags (hold-flags scored)
            ∙ modify-flags ch.nodes i (score_failure now) score_failure-flag
            ∙ e)

      resume_with-local :
          (ch : Chain) (o : Outcome)
          → flags ch.nodes ≡ fs
          → OnLocal o
          → GoesLocal (resume_with now q i status ch o)
      unfolding resume_with
      resume_with-local ch (chosen j) e l = elim (Bool-cases (is_same_node ch.nodes i (chosen j))) [
        | inl same ↦ rw same (e, l)
        | inr other ↦ rw other (score_and_hold-local ch e)
      ]
      resume_with-local ch no_node e l = score_and_hold-local ch e
      resume_with-local ch panics e l = (e, tt)

      retry_same_node-local :
          (ch : Chain) → flags ch.nodes ≡ fs → GoesLocal (retry_same_node now q i status ch)
      unfolding retry_same_node
      retry_same_node-local ch e =
          let ch' = hold i status ch in
          let names = delete_name (name_at ch.nodes i) ch'.tried in
          let x = select_next now q (record ch' { tried = names }) in
          let again : Chain = record x.0 { tried = add_name (name_at ch.nodes i) x.0.tried } in
          let (e', l) =
            select_next-local (record ch' { tried = names }) (ap flags (hold-flags ch) ∙ e) in
          resume_with-local again x.1 e' l

      on_quota-local :
          (hit all : Bool) (ch cooled : Chain)
          → flags ch.nodes ≡ fs
          → flags cooled.nodes ≡ fs
          → GoesLocal (on_quota now q i status hit all ch cooled)
      unfolding on_quota
      on_quota-local false all ch cooled e e' = score_and_hold-local ch e
      on_quota-local true true ch cooled e e' = score_and_hold-local cooled e'
      on_quota-local true false ch cooled e e' = retry_same_node-local cooled e'

      fail_over-local :
          (hit : Bool) (used : ℤ) (pool : Option Pool) (ch : Chain)
          → flags ch.nodes ≡ fs
          → GoesLocal (fail_over now q i status hit used pool ch)
      unfolding fail_over
      fail_over-local hit used none ch e = score_and_hold-local ch e
      fail_over-local hit (negsuc _) (some p) ch e = score_and_hold-local ch e
      fail_over-local hit (pos k) (some p) ch e = on_quota-local hit _ ch _ e e

    failed-flag : (n : Node) → flag (score_failure now (eject n)) ≡ flag n
    unfolding score_failure eject
    failed-flag n = ground arith

    succeeded-flag : (n : Node) → flag (score_success n) ≡ flag n
    unfolding score_success
    succeeded-flag n = ground arith

    settle_attempt-local :
        (i : ℕ) (r : Result) (used : ℤ) (u : Upstream) (ch : Chain)
        → flags ch.nodes ≡ fs
        → GoesLocal (settle_attempt now q i r used u ch)
    unfolding settle_attempt on_node
    settle_attempt-local i (failed _) used u ch e =
        select_next-local (on_node i (λ n. score_failure now (eject n)) ch)
          (modify-flags ch.nodes i _ failed-flag ∙ e)
    settle_attempt-local i (responded status body) used u ch e =
        elim (Bool-cases (is_failover_status status)) [
          | inl bad ↦
              rw bad (fail_over-local i status (is_quota_hit u status body) used u.keys ch e)
          | inr good ↦ rw good (modify-flags ch.nodes i score_success succeeded-flag ∙ e, tt)
        ]

  module _ (q : Query) (personal : q.personal ≡ true) (wire wire' : ℕ → ℕ → Exchange)
      (agree : (k i w : ℕ) → get_elem? fs i ≡ some (true, w) → wire k i ≡ wire' k i) where
    attempt-local :
        (e : Exchange) (i : ℕ) (ch : Chain) → flags ch.nodes ≡ fs → GoesLocal (attempt e q i ch)
    unfolding attempt
    attempt-local e i ch same = settle_attempt-local q personal e.scored i _ _ _ _ same

    loop-local :
        (m : ℕ) (o : Outcome) (ch : Chain)
        → flags ch.nodes ≡ fs
        → OnLocal o
        → failover_loop wire q m o ch ≡ failover_loop wire' q m o ch
    unfolding failover_loop finish
    loop-local m no_node ch e l = refl
    loop-local m panics ch e l = refl
    loop-local zero (chosen i) ch e l = refl
    loop-local (suc m) (chosen i) ch e (w, at) =
        ap (λ e. finish wire q m (attempt e q i ch)) (agree ch.attempt_idx i w at)
        ∙ go (attempt (wire' ch.attempt_idx i) q i ch)
            (attempt-local (wire' ch.attempt_idx i) i ch e) (λ o c. loop-local m o c)
      where
        go :
            (x : Chain × Verdict)
            → GoesLocal x
            → ((o : Outcome) (c : Chain)
                → flags c.nodes ≡ fs
                → OnLocal o
                → failover_loop wire q m o c ≡ failover_loop wire' q m o c)
            → finish wire q m x ≡ finish wire' q m x
        go (ch', serving j status) l rec = refl
        go (ch', onward o) (same, l) rec = rec o _ same l

-- A personal request never reaches a node that is not local, in any attempt of its failover: what
-- the other nodes would have answered has no influence on its outcome or on the router's state.
-- The weights of the nodes are positive.
pub failover-local :
    (wire wire' : ℕ → ℕ → Exchange) (now : ℕ) (q : Query) (counter : ℕ) (nodes : List Node)
    (upstreams : List Upstream)
    → Weighted nodes
    → q.personal ≡ true
    → ((k i : ℕ) (n : Node)
        → get_elem? nodes i ≡ some n
        → n.pii_local ≡ true
        → wire k i ≡ wire' k i)
    → failover wire now q counter nodes upstreams ≡ failover wire' now q counter nodes upstreams
unfolding failover start
failover-local wire wire' now q counter nodes upstreams weighted personal agree =
    let w = Weighted-flags nodes weighted in
    let (e, l) =
      select_next-local (flags nodes) w q personal now (new_chain counter nodes upstreams) refl in
    loop-local (flags nodes) w q personal wire wire'
      (λ k i w' at.
        let (n, there, f) = get_elem?-flags nodes i (true, w') at in
        agree k i n there (ap (λ x. x.0) f))
      max_failover_attempts _ _ e l
