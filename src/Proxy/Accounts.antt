-- ===== src/Proxy/Accounts.antt =====
-- Whether the attempts of the failover loop of main.go are all cancelled, and their responses closed or
-- relayed.
use llm_cluster_router.Prelude.{
  ℕ, zero, suc, ◌+◌, ◌≡◌, ◌⊎◌, refl, ◌∙◌, subst, List, [], ◌∷◌, some, Bool, true, ◌||◌, ◌==◌, All,
  Option-cases, inl, inr, arith,
}
use llm_cluster_router.Selection.{Node, Query, Outcome, chosen, no_node, panics}
use llm_cluster_router.Proxy.{Upstream, Exchange}
use llm_cluster_router.Proxy.Failover.{
  Held, Chain, Verdict, serving, onward, Relay, relays_served, relays_held, bad_gateway, crashed,
  close_held, attempt, exhausted, failover_loop, failover, max_failover_attempts, start,
}
use llm_cluster_router.Proxy.Bodies.{elem, Unheld, Dropped, Holds, Attempted, attempt-Attempted}

-- The attempts that the loop makes.
unfoldable pub attempts : (ℕ → ℕ → Exchange) → Query → ℕ → Outcome → Chain → List ℕ
unfolding attempt
attempts wire q m no_node ch = []
attempts wire q m panics ch = []
attempts wire q zero (chosen i) ch = []
attempts wire q (suc m) (chosen i) ch =
    let (ch', verdict) = attempt (wire ch.attempt_idx i) q i ch in
    ch.attempt_idx ∷ elim verdict [
      | serving j status ↦ []
      | onward o ↦ attempts wire q m o (record ch' { attempt_idx = ch'.attempt_idx + 1 })
    ]

-- An attempt was cancelled and its response closed, or its response is the one that is relayed, whose
-- closing and cancelling the handler defers. The handler that panics answers nothing.
unfoldable pub is_accounted : List ℕ → Relay → ℕ → Bool
unfolding elem
is_accounted closed (relays_served a i status) k = elem closed k || a == k
is_accounted closed (relays_held h) k = elem closed k || h.attempt == k
is_accounted closed bad_gateway k = elem closed k
is_accounted closed crashed k = true

eq_refl : (k : ℕ) → (k == k) ≡ true
eq_refl k = ground arith

closed-is_accounted :
    (closed : List ℕ) (r : Relay) (k : ℕ) → elem closed k ≡ true → is_accounted closed r k ≡ true
unfolding is_accounted
closed-is_accounted closed (relays_served a i status) k h = ground (arith, h)
closed-is_accounted closed (relays_held g) k h = ground (arith, h)
closed-is_accounted closed bad_gateway k h = h
closed-is_accounted closed crashed k h = refl

-- Of a state of the loop and its end: what was closed stays closed, and the response that is held
-- and those still to come are accounted for.
record Accounts (ch : Chain) (x : Chain × Relay) (later : List ℕ) : Type 0 where
  keeps : (k : ℕ) → elem ch.closed k ≡ true → elem x.0.closed k ≡ true
  of_held : (h : Held) → ch.held ≡ some h → is_accounted x.0.closed x.1 h.attempt ≡ true
  of_later : All (λ k. is_accounted x.0.closed x.1 k ≡ true) later

exhausted-Accounts : (ch : Chain) → Accounts ch (exhausted ch) []
unfolding exhausted is_accounted
exhausted-Accounts ch = elim (Option-cases ch.held) [
  | inl empty ↦ record {
    keeps = λ k h. rw (exhausted, empty) h;
    of_held = λ h e. ground (arith, e, empty);
    of_later = tt;
  }
  | inr (g, e) ↦ record {
    keeps = λ k h. rw (exhausted, e) h;
    of_held = λ h e'. ground (arith, e, e', eq_refl g.attempt);
    of_later = tt;
  }
]

later_of : (ℕ → ℕ → Exchange) → Query → ℕ → Chain × Verdict → List ℕ
later_of wire q m (ch, serving j status) = []
later_of wire q m (ch, onward o) =
    attempts wire q m o (record ch { attempt_idx = ch.attempt_idx + 1 })

onward-Accounts :
    (ch ch' : Chain) (x : Chain × Relay) (later : List ℕ)
    → Holds ch ch' ⊎ Dropped ch ch'
    → Accounts (record ch' { attempt_idx = ch'.attempt_idx + 1 }) x later
    → Accounts ch x (ch.attempt_idx ∷ later)
onward-Accounts ch ch' x later (inl w) v =
    let (g, there, same) = w.now_held in
    record {
      keeps = λ k h. v.keeps k (w.keeps k h);
      of_held =
          λ h e. closed-is_accounted x.0.closed x.1 h.attempt (v.keeps h.attempt (w.closes h e));
      of_later =
          (subst (λ k. is_accounted x.0.closed x.1 k ≡ true) same (v.of_held g there), v.of_later);
    }
onward-Accounts ch ch' x later (inr w) v = record {
  keeps = λ k h. v.keeps k (w.keeps k h);
  of_held = λ h there. v.of_held h (w.same_held ∙ there);
  of_later = (
    closed-is_accounted x.0.closed x.1 ch.attempt_idx (v.keeps ch.attempt_idx w.cancelled),
    v.of_later,
  );
}

serving-Accounts :
    (ch ch' : Chain) (i status : ℕ)
    → Unheld ch ch'
    → Accounts ch (close_held ch', relays_served ch'.attempt_idx i status) (ch.attempt_idx ∷ [])
unfolding is_accounted close_held elem
serving-Accounts ch ch' i status w = elim (Option-cases ch'.held) [
  | inl empty ↦ record {
    keeps = λ k h. ground (arith, empty, w.same_closed, h);
    of_held = λ h e. ground (arith, empty, e, w.same_held);
    of_later = (ground (arith, w.same_attempt, eq_refl ch.attempt_idx), tt);
  }
  | inr (g, there) ↦ record {
    keeps = λ k h. ground (arith, there, w.same_closed, h);
    of_held = λ h e. ground (arith, there, e, w.same_held, eq_refl g.attempt);
    of_later = (ground (arith, w.same_attempt, eq_refl ch.attempt_idx), tt);
  }
]

loop-Accounts :
    (wire : ℕ → ℕ → Exchange) (q : Query) (m : ℕ) (o : Outcome) (ch : Chain)
    → Accounts ch (failover_loop wire q m o ch) (attempts wire q m o ch)
unfolding failover_loop attempts is_accounted later_of
loop-Accounts wire q m no_node ch = exhausted-Accounts ch
loop-Accounts wire q m panics ch = record { keeps = λ k h. h; of_held = λ h e. refl; of_later = tt }
loop-Accounts wire q zero (chosen i) ch = exhausted-Accounts ch
loop-Accounts wire q (suc m) (chosen i) ch =
    go (attempt (wire ch.attempt_idx i) q i ch) (attempt-Attempted (wire ch.attempt_idx i) q i ch)
      (λ o c. loop-Accounts wire q m o c)
  where
    go :
        (x : Chain × Verdict)
        → Attempted ch x
        → ((o : Outcome) (c : Chain)
            → Accounts c (failover_loop wire q m o c) (attempts wire q m o c))
        → Accounts ch
            (elim x.1 [
              | serving j status ↦ (close_held x.0, relays_served x.0.attempt_idx j status)
              | onward o ↦
                  failover_loop wire q m o (record x.0 { attempt_idx = x.0.attempt_idx + 1 })
            ])
            (ch.attempt_idx ∷ later_of wire q m x)
    go (ch', serving j status) w rec = serving-Accounts ch ch' j status w
    go (ch', onward o) w rec = onward-Accounts ch ch' _ _ w (rec o _)

-- Of every attempt that the failover makes, the context is cancelled in the end, and its response closed
-- if it received one, whatever the upstreams answer; but for the attempt whose response is relayed, and
-- unless the handler panics.
pub failover-accounts :
    (wire : ℕ → ℕ → Exchange) (now : ℕ) (q : Query) (counter : ℕ) (nodes : List Node)
    (upstreams : List Upstream)
    → let x = failover wire now q counter nodes upstreams in
      let (ch, o) = start now q counter nodes upstreams in
      All (λ k. is_accounted x.0.closed x.1 k ≡ true) (attempts wire q max_failover_attempts o ch)
unfolding failover
failover-accounts wire now q counter nodes upstreams =
    let (ch, o) = start now q counter nodes upstreams in
    (loop-Accounts wire q max_failover_attempts o ch).of_later
