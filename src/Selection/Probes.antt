-- ===== src/Selection/Probes.antt =====
-- What the health loop and the readiness gate of main.go promise.
use llm_cluster_router.Prelude.{
  ℕ, zero, suc, ◌+◌, ◌≡◌, ◌≢◌, ◌↔◌, ◌≤◌, ◌<◌, refl, List, [], ◌∷◌, none, true, false, leb,
  if◌then◌else◌, replicate, All, Bool-cases, inl, inr, arith,
}
use llm_cluster_router.Selection.{Node}
use llm_cluster_router.Selection.Health.{
  Thresholds, health_step, run_probes, count_healthy, is_open, first_open, ready, ready_of,
}

run_fails :
    (hc : Thresholds) (n : Node) (k : ℕ)
    → n.health_check_disabled ≡ false
    → (run_probes hc n (replicate (suc k) false)).healthy
      ≡ (if leb hc.unhealthy_threshold (n.consecutive_fail + suc k) then false else n.healthy)
unfolding run_probes health_step
run_fails hc n zero h = ground arith
run_fails hc n (suc k) h = ground (arith, run_fails hc (health_step hc n false) k)

run_passes :
    (hc : Thresholds) (n : Node) (k : ℕ)
    → n.health_check_disabled ≡ false
    → (run_probes hc n (replicate (suc k) true)).healthy
      ≡ (if leb hc.healthy_threshold (n.consecutive_pass + suc k) then true else n.healthy)
unfolding run_probes health_step
run_passes hc n zero h = ground arith
run_passes hc n (suc k) h = ground (arith, run_passes hc (health_step hc n true) k)

-- A healthy node whose last probe passed goes out of rotation after exactly as many failed probes
-- in a row as the threshold says, whatever its earlier history; the threshold is positive.
pub run_probes_fail :
    (hc : Thresholds) (n : Node) (k : ℕ)
    → n.health_check_disabled ≡ false
    → 0 < hc.unhealthy_threshold
    → n.healthy ≡ true
    → ((run_probes hc n (true ∷ replicate k false)).healthy ≡ false) ↔ (hc.unhealthy_threshold ≤ k)
unfolding run_probes health_step
run_probes_fail hc n zero on positive h = (λ e. ground arith, λ e. ground arith)
run_probes_fail hc n (suc k) on positive h =
    let after = run_fails hc (health_step hc n true) k in
    (λ e. ground (arith, after), λ e. ground (arith, after))

-- A node that is out of rotation and whose last probe failed comes back after exactly as many
-- passed probes in a row as the threshold says; the threshold is positive.
pub run_probes_recover :
    (hc : Thresholds) (n : Node) (k : ℕ)
    → n.health_check_disabled ≡ false
    → 0 < hc.healthy_threshold
    → n.healthy ≡ false
    → ((run_probes hc n (false ∷ replicate k true)).healthy ≡ true) ↔ (hc.healthy_threshold ≤ k)
unfolding run_probes health_step
run_probes_recover hc n zero on positive h = (λ e. ground arith, λ e. ground arith)
run_probes_recover hc n (suc k) on positive h =
    let after = run_passes hc (health_step hc n false) k in
    (λ e. ground (arith, after), λ e. ground (arith, after))

count_healthy-All :
    (nodes : List Node) → (count_healthy nodes ≡ 0) ↔ All (λ n. n.healthy ≡ false) nodes
unfolding count_healthy
count_healthy-All [] = (λ _. tt, λ _. refl)
count_healthy-All (n ∷ ns) =
    let (there, back) = count_healthy-All ns in
    (λ h. (ground arith, there (ground arith)), λ h. ground (arith, back h.1))

first_open-All :
    (now : ℕ) (nodes : List Node)
    → (first_open now nodes ≡ none) ↔ All (λ n. is_open now n ≡ false) nodes
unfolding first_open
first_open-All now [] = (λ _. tt, λ _. refl)
first_open-All now (n ∷ ns) =
    let (there, back) = first_open-All now ns in
    elim (Bool-cases (is_open now n)) [
      | inl e ↦ (λ h. ground (arith, e), λ h. ground (arith, e))
      | inr e ↦ (λ h. (e, there (rw e at h)), λ h. rw e (back h.1))
    ]

-- The gate is ready exactly when some node is healthy, the queue is within its ceiling, and no
-- breaker is open.
pub ready_of-ready :
    (now depth ceiling : ℕ) (nodes : List Node)
    → (ready_of now depth ceiling nodes ≡ ready) ↔ (
        (¬ All (λ n. n.healthy ≡ false) nodes)
        × (depth ≤ ceiling)
        × All (λ n. is_open now n ≡ false) nodes)
unfolding ready_of
ready_of-ready now depth ceiling nodes =
    let (some_up, none_up) = count_healthy-All nodes in
    let (there, back) = first_open-All now nodes in
    (
      λ h. (λ down. ground (arith, none_up down), ground arith, there (ground arith)),
      λ h. ground (arith, back h.2, positive (λ z. h.0 (some_up z))),
    )
  where
    positive : count_healthy nodes ≢ 0 → 0 < count_healthy nodes
    positive z = ground arith
