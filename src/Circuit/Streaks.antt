-- ===== src/Circuit/Streaks.antt =====
-- When the breaker is closed, what it admits while it is open, and what its gauges show.
use llm_cluster_router.Prelude.{
  ℕ, ◌+◌, ◌∙◌, false, All, ◌≡◌, ◌↔◌, ◌⊎◌, ◌≢◌, ◌≤◌, ◌<◌, refl, List, [], ◌∷◌, String, true, arith,
}
use llm_cluster_router.Prelude.Int.{ℤ, pos, negsuc, positive_or}
use llm_cluster_router.Prelude.Maps.{◌==◌}
use llm_cluster_router.Circuit.{
  closed, open_, half_open, Gauges, Breaker, new_breaker, gauge_of, with_name, allow,
  record_failure, stats, Call, allows, succeeds, fails, step, run,
}

-- The failures recorded since the last success, from `n` before the calls.
unfoldable pub streak : ℕ → List (ℕ × Call) → ℕ
streak n [] = n
streak n ((now, allows) ∷ cs) = streak n cs
streak n ((now, succeeds) ∷ cs) = streak 0 cs
streak n ((now, fails) ∷ cs) = streak (n + 1) cs

-- The state against the streak of failures before it.
abbrev pub Tracks : ℕ → Breaker → Type 0
Tracks n b =
    ((b.state ≡ closed) × (b.failures ≡ n) × (n < b.threshold))
    ⊎ ((b.state ≢ closed) × (b.threshold ≤ n))

abbrev pub after_call : ℕ → Call → ℕ
after_call n allows = n
after_call n succeeds = 0
after_call n fails = n + 1

step-Tracks :
    (n now : ℕ) (c : Call) (b : Breaker)
    → 0 < b.threshold
    → Tracks n b
    → Tracks (after_call n c) (step b (now, c)) × ((step b (now, c)).threshold ≡ b.threshold)
unfolding step
step-Tracks n now allows b h v = ground arith
step-Tracks n now succeeds b h v = ground arith
step-Tracks n now fails b h v = ground arith

run-Tracks :
    (n : ℕ) (b : Breaker) (cs : List (ℕ × Call))
    → 0 < b.threshold
    → Tracks n b
    → Tracks (streak n cs) (run b cs) × ((run b cs).threshold ≡ b.threshold)
unfolding run streak
run-Tracks n b [] h v = (v, refl)
run-Tracks n b ((now, allows) ∷ cs) h v =
    let (v', t) = step-Tracks n now allows b h v in
    let (v'', t') = run-Tracks n (step b (now, allows)) cs (omega (arith, t)) v' in (v'', t' ∙ t)
run-Tracks n b ((now, succeeds) ∷ cs) h v =
    let (v', t) = step-Tracks n now succeeds b h v in
    let (v'', t') = run-Tracks 0 (step b (now, succeeds)) cs (omega (arith, t)) v' in (v'', t' ∙ t)
run-Tracks n b ((now, fails) ∷ cs) h v =
    let (v', t) = step-Tracks n now fails b h v in
    let (v'', t') = run-Tracks (n + 1) (step b (now, fails)) cs (omega (arith, t)) v' in
    (v'', t' ∙ t)

-- The threshold of a new breaker.
abbrev pub threshold_of : ℤ → ℕ
threshold_of threshold = positive_or 5 threshold

new_breaker-Tracks :
    (threshold cooldown : ℤ) (g : Gauges)
    → Tracks 0 (new_breaker threshold cooldown g)
      × ((new_breaker threshold cooldown g).threshold ≡ threshold_of threshold)
      × (0 < threshold_of threshold)
unfolding new_breaker
new_breaker-Tracks (pos n) cooldown g = ground arith
new_breaker-Tracks (negsuc n) cooldown g = ground arith

-- A breaker is closed exactly when fewer failures than its threshold were recorded since the last
-- success, whatever calls of Allow stand between and whatever the clock shows.
pub run-closed :
    (threshold cooldown : ℤ) (g : Gauges) (cs : List (ℕ × Call))
    → ((run (new_breaker threshold cooldown g) cs).state ≡ closed)
      ↔ (streak 0 cs < threshold_of threshold)
run-closed threshold cooldown g cs =
    let (v, t, p) = new_breaker-Tracks threshold cooldown g in
    let (v', t') = run-Tracks 0 (new_breaker threshold cooldown g) cs (omega (arith, t, p)) v in
    (λ h. ground (arith, v', t, t'), λ h. ground (arith, v', t, t'))

-- Allow refuses exactly an open breaker whose cooldown has not passed.
pub allow-false :
    (now : ℕ) (b : Breaker)
    → ((allow now b).1 ≡ false) ↔ ((b.state ≡ open_) × (now < b.opened_at + b.cooldown))
unfolding allow
allow-false now b = (λ h. ground arith, λ h. ground arith)

-- A failure in the half-open state opens the breaker again, and its cooldown starts anew: it refuses
-- exactly the calls before the failure's instant and a whole cooldown.
pub half_open_failure :
    (now t : ℕ) (b : Breaker)
    → b.state ≡ half_open
    → ((allow t (record_failure now b)).1 ≡ false) ↔ (t < now + b.cooldown)
unfolding allow record_failure
half_open_failure now t b h = (λ e. ground arith, λ e. ground arith)

-- An open breaker that is asked only before its cooldown has passed admits nothing and changes
-- nothing, however often it is asked and whatever failures are recorded.
pub open_holds :
    (b : Breaker) (cs : List (ℕ × Call))
    → b.state ≡ open_
    → All (λ c. (c.1 ≢ succeeds) × (c.0 < b.opened_at + b.cooldown)) cs
    → run b cs ≡ b
unfolding run
open_holds b [] h a = refl
open_holds b ((now, allows) ∷ cs) h a =
    let same : step b (now, allows) ≡ b = unfold step allow in ground arith in
    rw same (open_holds b cs h a.1)
open_holds b ((now, fails) ∷ cs) h a =
    let same : step b (now, fails) ≡ b = unfold step record_failure in ground arith in
    rw same (open_holds b cs h a.1)
open_holds b ((now, succeeds) ∷ cs) h a = absurd (a.0.0 refl)

-- The time that Stats reports is the time until Allow admits a call again.
pub stats_remaining :
    (now t : ℕ) (b : Breaker)
    → now ≤ t
    → ((allow t b).1 ≡ true) ↔ (now + (stats now b).cooldown_remaining ≤ t)
unfolding allow stats
stats_remaining now t b h = (λ e. ground arith, λ e. ground arith)

-- A named breaker shows its state: one gauge at 1.
abbrev pub Shows : Breaker → Type 0
Shows b = ((b.node_name == "") ≡ false) → b.gauges ≡ gauge_of b.state

step-Shows :
    (b : Breaker) (c : ℕ × Call) → Shows b → Shows (step b c) × ((step b c).node_name ≡ b.node_name)
unfolding step
step-Shows b (now, allows) v = ((λ h. ground arith), ground arith)
step-Shows b (now, succeeds) v = ((λ h. ground arith), ground arith)
step-Shows b (now, fails) v = ((λ h. ground arith), ground arith)

run-Shows :
    (b : Breaker) (cs : List (ℕ × Call))
    → Shows b
    → Shows (run b cs) × ((run b cs).node_name ≡ b.node_name)
unfolding run
run-Shows b [] v = (v, refl)
run-Shows b (c ∷ cs) v =
    let (v', e) = step-Shows b c v in let (v'', e') = run-Shows (step b c) cs v' in (v'', e' ∙ e)

with_name-Shows :
    (name : String) (b : Breaker) → Shows (with_name name b) × ((with_name name b).node_name ≡ name)
unfolding with_name
with_name-Shows name b = ((λ h. ground arith), ground arith)

-- After WithName with a name that is not empty, and any calls, the gauges are 1 at the breaker's
-- state and 0 at the two others.
pub gauges_show :
    (threshold cooldown : ℤ) (g : Gauges) (name : String) (cs : List (ℕ × Call))
    → (name == "") ≡ false
    → let b = run (with_name name (new_breaker threshold cooldown g)) cs in
      b.gauges ≡ gauge_of b.state
gauges_show threshold cooldown g name cs h =
    let b = with_name name (new_breaker threshold cooldown g) in
    let (v, e) = with_name-Shows name (new_breaker threshold cooldown g) in
    let (v', e') = run-Shows b cs v in v' (rw (e', e) h)
