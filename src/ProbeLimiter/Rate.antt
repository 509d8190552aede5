-- ===== src/ProbeLimiter/Rate.antt =====
-- How many probes a limiter admits over a run of calls.
use llm_cluster_router.Prelude.{
  ℕ, ◌+◌, ◌-◌, ◌*◌, ◌≡◌, ◌≤◌, ◌<◌, refl, ap, ◌∙◌, List, [], ◌∷◌, Bool, true, ltb, if◌then◌else◌,
  Bool-cases, inl, inr, arith,
}
use llm_cluster_router.Prelude.Int.{ℤ, positive_or}
use llm_cluster_router.ProbeLimiter.{
  default_interval, default_burst, ProbeLimiter, new_limiter, take_token, admitted,
}

-- The last instant of a run that starts at `t`, as far as it moves forward.
abbrev pub latest : ℕ → List ℕ → ℕ
latest t [] = t
latest t (u ∷ ts) = latest (if ltb t u then u else t) ts

abbrev cost : ProbeLimiter → Bool → ℕ
cost l ok = if ok then l.interval else 0

-- A call spends what it admits out of the credit and of the time that has passed.
take_token_credit :
    (now : ℕ) (l : ProbeLimiter)
    → ((take_token now l).0.credit + cost l (take_token now l).1
        ≤ l.credit + ((take_token now l).0.last - l.last))
      × ((take_token now l).0.last ≡ (if ltb l.last now then now else l.last))
      × ((take_token now l).0.interval ≡ l.interval)
      × ((take_token now l).0.burst ≡ l.burst)
unfolding take_token
take_token_credit now l = ground arith

-- The books of a run.
admitted_credit :
    (ts : List ℕ) (l : ProbeLimiter)
    → ((admitted ts l).1 * l.interval + (admitted ts l).0.credit + l.last
        ≤ l.credit + (admitted ts l).0.last)
      × ((admitted ts l).0.last ≡ latest l.last ts)
unfolding admitted
admitted_credit [] l = (omega arith, refl)
admitted_credit (t ∷ ts) l =
    let l' = (take_token t l).0 in
    let (books, last, same, _) = take_token_credit t l in
    let (books', last') = admitted_credit ts l' in
    let books'' : (admitted ts l').1 * l.interval + (admitted ts l').0.credit + l'.last
        ≤ l'.credit + (admitted ts l').0.last =
      rw same at books' in
    elim (Bool-cases (take_token t l).1) [
      | inl e ↦ rw e (grind (arith, books, books''), last' ∙ ap (λ x. latest x ts) last)
      | inr e ↦ rw e (grind (arith, books, books''), last' ∙ ap (λ x. latest x ts) last)
    ]

-- The settings of a new limiter.
abbrev pub interval_of : ℤ → ℕ
interval_of interval = positive_or default_interval interval

abbrev pub burst_of : ℤ → ℕ
burst_of burst = positive_or default_burst burst

-- However the calls are spread, and even where the clock steps back, a limiter admits at most its
-- burst and one probe for each interval that has passed.
pub admitted-rate :
    (interval burst : ℤ) (start : ℕ) (ts : List ℕ)
    → (admitted ts (new_limiter interval burst start)).1 * interval_of interval + start
      ≤ burst_of burst * interval_of interval + latest start ts
unfolding new_limiter
admitted-rate interval burst start ts =
    omega (arith, admitted_credit ts (new_limiter interval burst start))

-- A call a whole interval after the last refill is admitted, whatever was spent before.
pub take_token-recovers :
    (now : ℕ) (l : ProbeLimiter)
    → 0 < l.burst
    → 0 < l.interval
    → l.last + l.interval ≤ now
    → (take_token now l).1 ≡ true
unfolding take_token
take_token-recovers now l b p h =
    let one_fits : l.interval ≤ l.burst * l.interval = grind arith in ground (arith, one_fits)
