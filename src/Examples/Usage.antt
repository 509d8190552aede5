-- ===== src/Examples/Usage.antt =====
-- A response of two reads that ends in its usage.
use llm_cluster_router.Prelude.{ℕ, suc, ◌≡◌, ◌≢◌, refl, List, [], ◌∷◌, ◌++◌, length}
use llm_cluster_router.Prelude.Int.{pos}
use llm_cluster_router.Usage.{usage_marker, out_of_fuel, search_from, result}
use llm_cluster_router.Usage.Tail.{search_from-terminates}

-- The reads `{"total` and the rest, `_tokens": 42}`.
abbrev reads : List (List ℕ)
reads =
    (123 ∷ 34 ∷ 116 ∷ 111 ∷ 116 ∷ 97 ∷ 108 ∷ [])
    ∷ (95 ∷ 116 ∷ 111 ∷ 107 ∷ 101 ∷ 110 ∷ 115 ∷ 34 ∷ 58 ∷ 32 ∷ 52 ∷ 50 ∷ 125 ∷ [])
    ∷ []

abbrev body : List ℕ
body = 123 ∷ usage_marker ++ 58 ∷ 32 ∷ 52 ∷ 50 ∷ 125 ∷ []

search_from-terminates_example : search_from (suc (length body)) body ≢ out_of_fuel
search_from-terminates_example = search_from-terminates body

reads_tokens : (result body).tokens ≡ pos 42
unfolding result
reads_tokens = refl
