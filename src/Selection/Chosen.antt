-- ===== src/Selection/Chosen.antt =====
-- Which node the selection of main.go chooses, and when it chooses none.
use native.Mathlib.Nat.{mod-eq_of_lt, zero-add}
use llm_cluster_router.Prelude.{
  ℕ, ◌+◌, ◌%◌, ◌^◌, ◌≡◌, ◌≢◌, ◌↔◌, ◌<◌, refl, sym, ◌∙◌, subst, List, [], ◌∷◌, some, Bool, true,
  false, ◌&&◌, not, ltb, length, lt→ltb, get_elem?, All, All-of_get_elem?, All-imp, Bool-cases, inl,
  inr, some_inj, arith,
}
use llm_cluster_router.Prelude.Int.{ℤ}
use llm_cluster_router.Selection.Order.{lt_int}
use llm_cluster_router.Selection.Choice.{
  Eligible, takes, Weighted, IsBucket, visit-IsBucket, lowest-IsBucket, has_bucket, visit_finds,
  lowest-least_cons, pick-All,
}
use llm_cluster_router.Selection.{
  Node, Query, any_node_pii_local, contains, allows_class, passes_filters, personal_blocks, consult,
  visit, lowest, chosen, no_node, panics, pick, choose_from, select_node,
}

-- An eligible node of this priority at this position.
abbrev Meets : ℕ → Query → List Node → ℕ → ℤ → Type 0
Meets now q nodes i p =
    (n : Node) × (get_elem? nodes i ≡ some n) × Eligible now q n × (n.priority ≡ p)

buckets_meet :
    (now : ℕ) (q : Query) (nodes : List Node)
    → Weighted nodes
    → All (IsBucket (Meets now q nodes)) (visit now q 0 nodes []).1
buckets_meet now q nodes w =
    visit-IsBucket (Meets now q nodes) now q 0 nodes [] w
      (λ k n at h. (n, rw (zero-add k) at, h, refl)) tt

choose_from-chosen :
    (now : ℕ) (q : Query) (rr : ℕ) (nodes : List Node) (i : ℕ) (bs : List (ℤ × List ℕ))
    → All (IsBucket (Meets now q nodes)) bs
    → (choose_from rr bs).1 ≡ chosen i
    → (n : Node) × (get_elem? nodes i ≡ some n)
      × Eligible now q n
      × ((p : ℤ) → has_bucket p bs ≡ true → lt_int p n.priority ≡ false)
unfolding choose_from
choose_from-chosen now q rr nodes i [] v h = ground arith
choose_from-chosen now q rr nodes i (b ∷ bs) v h =
    let low = lowest-IsBucket (Meets now q nodes) b bs v.0 v.1 in
    let (n, at, ok, p) =
      pick-All (λ j. Meets now q nodes j (lowest b bs).0) rr (lowest b bs).1 i low.1 h in
    (
      n,
      at,
      ok,
      λ p' there. subst (λ x. lt_int p' x ≡ false) (sym p) (lowest-least_cons p' b bs there),
    )

-- A chosen node is in the snapshot, passes every filter, and no eligible node has a priority before
-- its own; the nodes' weights are positive.
pub select_node-chosen :
    (now : ℕ) (q : Query) (rr : ℕ) (nodes : List Node) (i : ℕ)
    → Weighted nodes
    → (select_node now q rr nodes).2 ≡ chosen i
    → (n : Node) × (get_elem? nodes i ≡ some n)
      × Eligible now q n
      × All (λ m. ¬ (Eligible now q m × (lt_int m.priority n.priority ≡ true))) nodes
unfolding select_node
select_node-chosen now q rr nodes i w h =
    let (n, at, ok, first) =
      choose_from-chosen now q rr nodes i (visit now q 0 nodes []).1 (buckets_meet now q nodes w)
        h in
    (
      n,
      at,
      ok,
      All-of_get_elem? (λ m. ¬ (Eligible now q m × (lt_int m.priority n.priority ≡ true))) nodes
          (λ k m there before.
            clash (first m.priority (visit_finds now q 0 nodes [] k m there before.0)) before.1),
    )
  where
    clash : {b : Bool} → b ≡ false → b ≡ true → ⊥
    clash e e' = ground arith

visit_none :
    (now : ℕ) (q : Query) (i : ℕ) (ns : List Node)
    → All (λ n. ¬ Eligible now q n) ns
    → (visit now q i ns []).1 ≡ []
unfolding visit
visit_none now q i [] v = refl
visit_none now q i (n ∷ ns) v = elim (Bool-cases (takes now q n)) [
  | inl t ↦ absurd (v.0 (ground (arith, t), ground (arith, t)))
  | inr other ↦ rw other (visit_none now q (i + 1) ns v.1)
]

pick-no_node : (rr : ℕ) (c : List ℕ) → pick rr c ≢ no_node
unfolding pick
pick-no_node rr [] h = ground arith
pick-no_node rr (c ∷ cs) h = ground arith

choose_from-no_node :
    (rr : ℕ) (bs : List (ℤ × List ℕ)) → ((choose_from rr bs).1 ≡ no_node) ↔ (bs ≡ [])
unfolding choose_from
choose_from-no_node rr [] = (λ _. refl, λ _. refl)
choose_from-no_node rr (b ∷ bs) =
    (λ h. absurd (pick-no_node rr (lowest b bs).1 h), λ h. ground arith)

has_bucket-nil : (p : ℤ) (bs : List (ℤ × List ℕ)) → bs ≡ [] → has_bucket p bs ≢ true
unfolding has_bucket
has_bucket-nil p [] e h = ground arith
has_bucket-nil p (b ∷ bs) e h = ground arith

-- No node is chosen exactly when no node of the snapshot is eligible: a request is never refused
-- while a node can serve it.
pub select_node-no_node :
    (now : ℕ) (q : Query) (rr : ℕ) (nodes : List Node)
    → ((select_node now q rr nodes).2 ≡ no_node) ↔ All (λ n. ¬ Eligible now q n) nodes
unfolding select_node
select_node-no_node now q rr nodes =
    let bs = (visit now q 0 nodes []).1 in
    let (there, back) = choose_from-no_node rr bs in
    (
      λ h.
          All-of_get_elem? (λ n. ¬ Eligible now q n) nodes
            (λ k n at ok.
              has_bucket-nil n.priority bs (there h) (visit_finds now q 0 nodes [] k n at ok)),
      λ v. back (visit_none now q 0 nodes v),
    )

pick-panics : (rr : ℕ) → rr < 2 ^ 63 → (c : List ℕ) → 0 < length c → pick rr c ≢ panics
unfolding pick
pick-panics rr small [] l h = omega arith
pick-panics rr small (c ∷ cs) l h =
    let within : rr % 2 ^ 64 ≡ rr = mod-eq_of_lt (omega arith) in
    let below : ltb (rr % 2 ^ 64) (2 ^ 63) ≡ true =
      lt→ltb (rr % 2 ^ 64) (2 ^ 63) (rw within small) in
    ground (arith, below)

choose_from-panics :
    (E : ℕ → ℤ → Type 0) (rr : ℕ) (bs : List (ℤ × List ℕ))
    → rr < 2 ^ 63
    → All (IsBucket E) bs
    → (choose_from rr bs).1 ≢ panics
unfolding choose_from
choose_from-panics E rr [] small v h = ground arith
choose_from-panics E rr (b ∷ bs) small v h =
    pick-panics rr small (lowest b bs).1 (lowest-IsBucket E b bs v.0 v.1).0 h

-- As long as the round-robin counter is below 2 ^ 63 and the weights are positive, selection never
-- panics.
pub select_node-panics :
    (now : ℕ) (q : Query) (rr : ℕ) (nodes : List Node)
    → Weighted nodes
    → rr < 2 ^ 63
    → (select_node now q rr nodes).2 ≢ panics
unfolding select_node
select_node-panics now q rr nodes w small h =
    choose_from-panics (Meets now q nodes) rr (visit now q 0 nodes []).1 small
      (buckets_meet now q nodes w) h

passes_filters-true :
    (q : Query) (n : Node)
    → passes_filters q n ≡ true
    → (allows_class n q.workload_class ≡ true)
      × ((q.personal && not n.pii_local) ≡ false)
      × (n.healthy ≡ true)
      × (contains q.excluded n.name ≡ false)
unfolding passes_filters
passes_filters-true q n h = ground arith

-- Whatever tier, weight or model a request asks for, the node it is sent to admits its workload
-- class, is local if the request is personal, is healthy, and has not failed for this request.
pub select_node-safe :
    (now : ℕ) (q : Query) (rr : ℕ) (nodes : List Node) (i : ℕ) {n : Node}
    → Weighted nodes
    → (select_node now q rr nodes).2 ≡ chosen i
    → get_elem? nodes i ≡ some n
    → (allows_class n q.workload_class ≡ true)
      × ((q.personal && not n.pii_local) ≡ false)
      × (n.healthy ≡ true)
      × (contains q.excluded n.name ≡ false)
unfolding consult
select_node-safe now q rr nodes i {n} w h at =
    let (m, there, ok, _) = select_node-chosen now q rr nodes i w h in
    let same : m ≡ n = some_inj (sym there ∙ at) in
    let ok' : (consult now q n).1 ≡ true = subst (λ x. (consult now q x).1 ≡ true) same ok.0 in
    passes_filters-true q n (elim (Bool-cases (passes_filters q n)) [
      | inl passes ↦ passes
      | inr stopped ↦ absurd (ground (arith, ok', stopped))
    ])

blocked-stays :
    (now : ℕ) (q : Query) (n : Node) → q.personal ≡ true → n.pii_local ≡ false → ¬ Eligible now q n
unfolding consult passes_filters personal_blocks
blocked-stays now q n personal remote ok = ground (arith, ok.0, personal, remote)

any_node_pii_local-All :
    (nodes : List Node) → any_node_pii_local nodes ≡ false → All (λ n. n.pii_local ≡ false) nodes
unfolding any_node_pii_local
any_node_pii_local-All [] h = tt
any_node_pii_local-All (n ∷ ns) h = ground (arith, any_node_pii_local-All ns)

-- The rule fails closed: a personal request finds no node when no node of the snapshot is local.
pub select_node-fails_closed :
    (now : ℕ) (q : Query) (rr : ℕ) (nodes : List Node)
    → q.personal ≡ true
    → any_node_pii_local nodes ≡ false
    → (select_node now q rr nodes).2 ≡ no_node
select_node-fails_closed now q rr nodes personal remote = (select_node-no_node now q rr nodes).1 (
    All-imp (λ n. n.pii_local ≡ false) (λ n. ¬ Eligible now q n) nodes
      (λ n off. blocked-stays now q n personal off) (any_node_pii_local-All nodes remote))
