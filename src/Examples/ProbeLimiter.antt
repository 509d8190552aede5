-- ===== src/Examples/ProbeLimiter.antt =====
-- A limiter of one probe for each ten units of time and a burst of two.
use llm_cluster_router.Prelude.{ℕ, ◌+◌, ◌*◌, ◌≡◌, ◌≤◌, refl, List, [], ◌∷◌}
use llm_cluster_router.Prelude.Int.{pos}
use llm_cluster_router.ProbeLimiter.{ProbeLimiter, new_limiter, admitted}
use llm_cluster_router.ProbeLimiter.Rate.{latest, interval_of, burst_of, admitted-rate}

abbrev instants : List ℕ
instants = 100 ∷ 101 ∷ 102 ∷ 90 ∷ 112 ∷ 113 ∷ []

abbrev spent : ProbeLimiter
spent = record { interval = 10; burst = 2; credit = 0; last = 100 }

admitted_three : (admitted instants (new_limiter (pos 10) (pos 2) 100)).1 ≡ 3
unfolding admitted new_limiter
admitted_three = refl

admitted-rate_example :
    (admitted instants (new_limiter (pos 10) (pos 2) 100)).1 * interval_of (pos 10) + 100
    ≤ burst_of (pos 2) * interval_of (pos 10) + latest 100 instants
admitted-rate_example = admitted-rate (pos 10) (pos 2) 100 instants
