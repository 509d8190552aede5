-- ===== src/Examples/KeyPool.antt =====
-- A pool of three keys whose middle key is exhausted.
use llm_cluster_router.Prelude.{ℕ, ◌≡◌, ◌<◌, refl, [], ◌∷◌, true, get_or, arith}
use llm_cluster_router.Prelude.Int.{pos}
use llm_cluster_router.KeyPool.{Pool, is_healthy, next}
use llm_cluster_router.KeyPool.Rotation.{next_healthy}

abbrev pool : Pool
pool = record {
  keys = "k0" ∷ "k1" ∷ "k2" ∷ [];
  cooldown = pos 100;
  idx = 1;
  cool_until = 0 ∷ 500 ∷ 0 ∷ [];
}

next_skips : (next 450 pool).2 ≡ pos 2
unfolding next
next_skips = refl

next_healthy_example :
    (i : ℕ) × ((next 450 pool).2 ≡ pos i)
    × (i < 3)
    × (is_healthy 450 pool.cool_until i ≡ true)
    × ((next 450 pool).1 ≡ get_or pool.keys i "")
next_healthy_example = next_healthy 450 0 pool (omega arith) (omega arith) refl
