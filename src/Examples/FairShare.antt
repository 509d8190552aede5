-- ===== src/Examples/FairShare.antt =====
-- Two users under a maximum of two requests in a hundred units of time, and a clean-up.
use llm_cluster_router.Prelude.{ℕ, ◌+◌, ◌*◌, ◌≡◌, ◌≤◌, refl, List, [], ◌∷◌, some, arith}
use llm_cluster_router.FairShare.{
  Config, Bucket, initial_tokens, Scheduler, new_bucket, new_scheduler, Call, acquires, collects,
  admitted,
}
use llm_cluster_router.FairShare.Rate.{last_instant}
use llm_cluster_router.FairShare.Users.{own_calls, admitted-bound, admitted_alone}

abbrev config : Config
config = record { max_requests_per_user = 2; window = 100; burst = 1 }

abbrev calls : List (ℕ × Call)
calls =
    (10, acquires "ann")
    ∷ (11, acquires "bob")
    ∷ (12, acquires "ann")
    ∷ (62, acquires "ann")
    ∷ (300, collects)
    ∷ (301, acquires "ann")
    ∷ (302, acquires "ann")
    ∷ []

admits_three : (admitted "ann" (new_scheduler config) calls).1 ≡ 3
unfolding admitted new_scheduler new_bucket
admits_three = refl

admitted-bound_example :
    (admitted "ann" (new_scheduler config) calls).1 * 100 + 2 * 5
    ≤ initial_tokens 2 1 * 100 + 2 * last_instant 5 calls
admitted-bound_example = admitted-bound config 5 "ann" calls (omega arith) (
  omega arith,
  (omega arith, (omega arith, (omega arith, (omega arith, (omega arith, (omega arith, tt)))))),
)

admitted_alone_example :
    (admitted "ann" (new_scheduler config) calls).1
    ≡ (admitted "ann" (new_scheduler config) (own_calls "ann" calls)).1
admitted_alone_example = admitted_alone "ann" (new_scheduler config) calls

abbrev spent : Bucket
spent = record { credit = 0; max_tokens = 2; window = 100; last_refill = 10; last_access = 40 }

abbrev scheduler : Scheduler
scheduler = record { cfg = config; buckets = λ _. some spent }
