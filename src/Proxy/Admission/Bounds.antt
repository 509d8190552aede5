-- ===== src/Proxy/Admission/Bounds.antt =====
-- What the admission of main.go bounds, and that it gives everything back.
use llm_cluster_router.Prelude.{ℕ, ◌+◌, ◌≡◌, ◌≤◌, refl, ◌∙◌, List, [], ◌∷◌, All, arith}
use llm_cluster_router.Proxy.Admission.{Limits, Phase, gone, Event, run, idle}
use llm_cluster_router.Proxy.Admission.Counts.{
  slots, places, bodies, tokens, ending, total, run-IsGate, idle-IsGate,
}

bodies-split :
    (ps : List Phase) → total bodies ps ≤ total places ps + total tokens ps + total ending ps
unfolding total bodies places tokens ending
bodies-split [] = omega arith
bodies-split (p ∷ ps) = ground (arith, bodies-split ps)

-- However requests arrive and their handlers interleave, the bodies in memory are at most the
-- queue depth and the concurrency of the configuration together, and one more for each handler
-- that has given its token or its slot back and has not returned yet; the tokens in use never
-- exceed the concurrency.
pub run_memory_bound :
    (l : Limits) (es : List Event)
    → ((run l idle es).buffering
        ≤ l.max_queue_depth + l.max_concurrency + total ending (run l idle es).handlers)
      × ((run l idle es).semaphore ≤ l.max_concurrency)
run_memory_bound l es =
    let v = run-IsGate l idle es (idle-IsGate l) in
    let ps = (run l idle es).handlers in
    (
      omega (arith, bodies-split ps, v.counts_bodies, v.within_queue, v.within_tokens),
      omega (arith, v.counts_tokens, v.within_tokens),
    )

total-gone :
    (w : Phase → ℕ) (ps : List Phase) → w gone ≡ 0 → All (λ p. p ≡ gone) ps → total w ps ≡ 0
unfolding total
total-gone w [] z h = refl
total-gone w (p ∷ ps) z h = rw h.0 (omega (arith, z, total-gone w ps z h.1))

-- Once every handler has returned, on whatever paths, the router is idle again: no queue slot, no
-- body and no token is lost.
pub run_gives_back :
    (l : Limits) (es : List Event)
    → All (λ p. p ≡ gone) (run l idle es).handlers
    → ((run l idle es).queue_depth ≡ 0)
      × ((run l idle es).buffering ≡ 0)
      × ((run l idle es).semaphore ≡ 0)
unfolding slots bodies tokens
run_gives_back l es h =
    let v = run-IsGate l idle es (idle-IsGate l) in
    let ps = (run l idle es).handlers in
    (
      v.counts_slots ∙ total-gone slots ps refl h,
      v.counts_bodies ∙ total-gone bodies ps refl h,
      v.counts_tokens ∙ total-gone tokens ps refl h,
    )
