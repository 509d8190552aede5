-- ===== src/Proxy/Bodies.antt =====
-- What one attempt of the failover loop of main.go does with the response it receives.
use llm_cluster_router.Prelude.{
  ℕ, ◌≡◌, ◌⊎◌, refl, ◌∙◌, subst, List, [], ◌∷◌, Option, none, some, Bool, true, false, ◌||◌, ◌==◌,
  get_or, modify, Bool-cases, inl, inr, arith,
}
use llm_cluster_router.Prelude.Int.{ℤ, pos, negsuc}
use llm_cluster_router.KeyPool.{Pool, all_cooling, mark_exhausted}
use llm_cluster_router.Selection.{Query, Outcome, chosen, no_node, panics}
use llm_cluster_router.Proxy.{
  Upstream, no_upstream, Result, failed, responded, Exchange, do_upstream, is_failover_status,
  is_quota_hit,
}
use llm_cluster_router.Proxy.Failover.{
  Held, Chain, Verdict, serving, onward, close_held, hold, on_node, select_next, is_same_node,
  resume_with, score_and_hold, retry_same_node, fail_over, on_quota, settle_attempt, cancel_attempt,
  attempt, name_at, add_name, delete_name,
}

unfoldable pub elem : List ℕ → ℕ → Bool
elem [] k = false
elem (j ∷ js) k = j == k || elem js k

-- A later state of the same attempt, with the responses as they were.
pub record Unheld (ch ch' : Chain) : Type 0 where
  pub same_attempt : ch'.attempt_idx ≡ ch.attempt_idx
  pub same_held : ch'.held ≡ ch.held
  pub same_closed : ch'.closed ≡ ch.closed

-- A later state in which the context of this attempt is cancelled, without a response.
pub record Dropped (ch ch' : Chain) : Type 0 where
  pub same_attempt : ch'.attempt_idx ≡ ch.attempt_idx
  pub same_held : ch'.held ≡ ch.held
  pub keeps : (k : ℕ) → elem ch.closed k ≡ true → elem ch'.closed k ≡ true
  pub cancelled : elem ch'.closed ch.attempt_idx ≡ true

-- A later state in which this attempt's response is held and the one held before is closed.
pub record Holds (ch ch' : Chain) : Type 0 where
  pub same_attempt : ch'.attempt_idx ≡ ch.attempt_idx
  pub now_held : (h : Held) × (ch'.held ≡ some h) × (h.attempt ≡ ch.attempt_idx)
  pub keeps : (k : ℕ) → elem ch.closed k ≡ true → elem ch'.closed k ≡ true
  pub closes : (h : Held) → ch.held ≡ some h → elem ch'.closed h.attempt ≡ true

hold-Holds : (i status : ℕ) (ch : Chain) → Holds ch (hold i status ch)
unfolding hold close_held elem
hold-Holds i status ch = record {
  same_attempt = ground arith;
  now_held = (_, refl, refl);
  keeps = λ k h. ground arith;
  closes = λ h e. ground arith;
}

Holds-Unheld : {x y z : Chain} → Holds x y → Unheld y z → Holds x z
Holds-Unheld v w = record {
  same_attempt = w.same_attempt ∙ v.same_attempt;
  now_held = (v.now_held.0, w.same_held ∙ v.now_held.1, v.now_held.2);
  keeps = λ k h. rw w.same_closed (v.keeps k h);
  closes = λ h e. rw w.same_closed (v.closes h e);
}

Unheld-Holds : {x y z : Chain} → Unheld x y → Holds y z → Holds x z
Unheld-Holds v w = record {
  same_attempt = w.same_attempt ∙ v.same_attempt;
  now_held = (w.now_held.0, w.now_held.1, w.now_held.2 ∙ v.same_attempt);
  keeps = λ k h. w.keeps k (rw v.same_closed h);
  closes = λ h e. w.closes h (v.same_held ∙ e);
}

Holds-trans : {x y z : Chain} → Holds x y → Holds y z → Holds x z
Holds-trans v w = record {
  same_attempt = w.same_attempt ∙ v.same_attempt;
  now_held = (w.now_held.0, w.now_held.1, w.now_held.2 ∙ v.same_attempt);
  keeps = λ k h. w.keeps k (v.keeps k h);
  closes = λ h e. w.keeps h.attempt (v.closes h e);
}

-- The response is held and the loop goes on.
abbrev HeldOn : Chain → Chain × Verdict → Type 0
HeldOn ch x = Holds ch x.0 × (o : Outcome) × (x.1 ≡ onward o)

unchanged : (ch : Chain) → Unheld ch ch
unchanged ch = record { same_attempt = refl; same_held = refl; same_closed = refl }

module _ (now : ℕ) (q : Query) (i status : ℕ) where
  score_and_hold-HeldOn : (ch : Chain) → HeldOn ch (score_and_hold now q i status ch)
  unfolding score_and_hold select_next on_node
  score_and_hold-HeldOn ch = (
    Holds-Unheld
        (Unheld-Holds (record { same_attempt = refl; same_held = refl; same_closed = refl })
          (hold-Holds i status _))
        (record { same_attempt = refl; same_held = refl; same_closed = refl }),
    _,
    refl,
  )

  resume_with-HeldOn :
      (ch x : Chain) (o : Outcome) → Holds ch x → HeldOn ch (resume_with now q i status x o)
  unfolding resume_with
  resume_with-HeldOn ch x (chosen j) v = elim (Bool-cases (is_same_node x.nodes i (chosen j))) [
    | inl same ↦ rw same (v, _, refl)
    | inr other ↦ let w = score_and_hold-HeldOn x in rw other (Holds-trans v w.0, w.1, w.2)
  ]
  resume_with-HeldOn ch x no_node v =
      let w = score_and_hold-HeldOn x in (Holds-trans v w.0, w.1, w.2)
  resume_with-HeldOn ch x panics v = (v, _, refl)

  retry_same_node-HeldOn : (ch : Chain) → HeldOn ch (retry_same_node now q i status ch)
  unfolding retry_same_node select_next
  retry_same_node-HeldOn ch =
      let ch' = hold i status ch in
      let names = delete_name (name_at ch.nodes i) ch'.tried in
      let x = select_next now q (record ch' { tried = names }) in
      let again : Chain = record x.0 { tried = add_name (name_at ch.nodes i) x.0.tried } in
      resume_with-HeldOn ch again x.1 (
        Holds-Unheld {z = again} (hold-Holds i status ch)
          (record { same_attempt = refl; same_held = refl; same_closed = refl }))

  cooled-HeldOn :
      (ch : Chain) (us : List Upstream)
      → (x : Chain × Verdict) → HeldOn (record ch { upstreams = us }) x
      → HeldOn ch x
  cooled-HeldOn ch us x v = (
    Unheld-Holds {y = record ch { upstreams = us }}
        (record { same_attempt = refl; same_held = refl; same_closed = refl }) v.0,
    v.1,
    v.2,
  )

  fail_over-HeldOn :
      (hit : Bool) (used : ℤ) (pool : Option Pool) (ch : Chain)
      → HeldOn ch (fail_over now q i status hit used pool ch)
  unfolding fail_over on_quota
  fail_over-HeldOn hit used none ch = score_and_hold-HeldOn ch
  fail_over-HeldOn hit (negsuc _) (some p) ch = score_and_hold-HeldOn ch
  fail_over-HeldOn false (pos k) (some p) ch = score_and_hold-HeldOn ch
  fail_over-HeldOn true (pos k) (some p) ch =
      quota (all_cooling now (mark_exhausted now (pos k) p)) _
    where
      quota :
          (all : Bool) (us : List Upstream)
          → HeldOn ch (on_quota now q i status true all ch (record ch { upstreams = us }))
      quota true us = cooled-HeldOn ch us _ (score_and_hold-HeldOn _)
      quota false us = cooled-HeldOn ch us _ (retry_same_node-HeldOn _)

-- What an attempt leaves: a response to serve, or the loop that goes on, with a response that is held or
-- with the attempt cancelled.
abbrev pub Attempted : Chain → Chain × Verdict → Type 0
Attempted ch x = elim x.1 [
  | serving j status ↦ Unheld ch x.0
  | onward o ↦ Holds ch x.0 ⊎ Dropped ch x.0
]

HeldOn-Attempted : (ch : Chain) (x : Chain × Verdict) → HeldOn ch x → Attempted ch x
HeldOn-Attempted ch x v = rw v.2 (inl v.0)

settle_attempt-Attempted :
    (now : ℕ) (q : Query) (i : ℕ) (r : Result) (used : ℤ) (u : Upstream) (ch : Chain)
    → Attempted ch (settle_attempt now q i r used u ch)
unfolding settle_attempt select_next on_node cancel_attempt elem
settle_attempt-Attempted now q i (failed _) used u ch = inr (record {
  same_attempt = refl;
  same_held = refl;
  keeps = λ k h. ground (arith, h);
  cancelled = ground arith;
})
settle_attempt-Attempted now q i (responded status body) used u ch =
    elim (Bool-cases (is_failover_status status)) [
      | inl bad ↦ rw bad (
          HeldOn-Attempted ch _
            (fail_over-HeldOn now q i status (is_quota_hit u status body) used u.keys ch))
      | inr good ↦ rw good (record { same_attempt = refl; same_held = refl; same_closed = refl })
    ]

Unheld-trans : {x y z : Chain} → Unheld x y → Unheld y z → Unheld x z
Unheld-trans v w = record {
  same_attempt = w.same_attempt ∙ v.same_attempt;
  same_held = w.same_held ∙ v.same_held;
  same_closed = w.same_closed ∙ v.same_closed;
}

Unheld-Dropped : {x y z : Chain} → Unheld x y → Dropped y z → Dropped x z
Unheld-Dropped {z = z} v w = record {
  same_attempt = w.same_attempt ∙ v.same_attempt;
  same_held = w.same_held ∙ v.same_held;
  keeps = λ k h. w.keeps k (rw v.same_closed h);
  cancelled = subst (λ k. elem z.closed k ≡ true) v.same_attempt w.cancelled;
}

Unheld-Attempted :
    (ch y : Chain) (x : Chain × Verdict) → Unheld ch y → Attempted y x → Attempted ch x
Unheld-Attempted ch y (z, serving j status) v w = Unheld-trans v w
Unheld-Attempted ch y (z, onward o) v (inl w) = inl (Unheld-Holds v w)
Unheld-Attempted ch y (z, onward o) v (inr w) = inr (Unheld-Dropped v w)

pub attempt-Attempted :
    (e : Exchange) (q : Query) (i : ℕ) (ch : Chain) → Attempted ch (attempt e q i ch)
unfolding attempt
attempt-Attempted e q i ch =
    let up = get_or ch.upstreams i no_upstream in
    let (u, result, used) = do_upstream e up in
    let y : Chain = record ch {
      tried = add_name (name_at ch.nodes i) ch.tried;
      upstreams = modify ch.upstreams i (λ _. u);
    } in
    Unheld-Attempted ch y _ (record { same_attempt = refl; same_held = refl; same_closed = refl })
      (settle_attempt-Attempted e.scored q i result used u y)
