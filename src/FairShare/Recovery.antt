-- ===== src/FairShare/Recovery.antt =====
-- When a user who ran out of tokens is admitted again.
use llm_cluster_router.Prelude.{
  ℕ, ◌-◌, ◌*◌, ◌≡◌, ◌≤◌, ◌<◌, subst, some, String, true, ltb, Bool-cases, inl, inr, arith,
}
use llm_cluster_router.FairShare.{Bucket, refill, allow, Scheduler, bucket_or, acquire}
use llm_cluster_router.FairShare.Rate.{mul_mono}

refilled-le :
    (now : ℕ) (b : Bucket)
    → 0 < b.window
    → 0 < b.max_tokens
    → b.window ≤ b.max_tokens * (now - b.last_refill)
    → b.window ≤ (refill now b).credit
unfolding refill
refilled-le now b w m h =
    let one_fits : b.window ≤ b.max_tokens * b.window =
      grind (arith, mul_mono b.window 1 b.max_tokens m) in
    elim (Bool-cases (ltb b.last_refill now)) [
      | inl moved ↦ ground (arith, one_fits, moved)
      | inr stuck ↦
          let no_time : now - b.last_refill ≡ 0 = ground (arith, stuck) in
          let nothing : b.window ≤ b.max_tokens * 0 =
            subst (λ d. b.window ≤ b.max_tokens * d) no_time h in
          absurd (omega (arith, nothing))
    ]

-- A user whose bucket stands for enough time to earn one token is admitted, whatever was spent
-- before; the window and the maximum are positive.
pub acquire-recovers :
    (now : ℕ) (user : String) (s : Scheduler) {b : Bucket}
    → s.buckets user ≡ some b
    → 0 < b.window
    → 0 < b.max_tokens
    → b.window ≤ b.max_tokens * (now - b.last_refill)
    → (acquire now user s).1 ≡ true
unfolding acquire bucket_or
acquire-recovers now user s {b} at w m h =
    let credit = refilled-le now b w m h in rw at (admits credit)
  where
    admits : b.window ≤ (refill now b).credit → (allow now b).1 ≡ true
    admits credit = unfold allow in ground (arith, credit)
