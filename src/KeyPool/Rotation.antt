-- ===== src/KeyPool/Rotation.antt =====
-- `Next` skips cooling keys, and a cooled key sits out its cooldown.
use native.Mathlib.Nat.{mul-add-mod_self_left, mod-eq_of_lt, div-add-mod, mod-lt}
use llm_cluster_router.Prelude.{
  ℕ, zero, suc, ◌+◌, ◌-◌, ◌*◌, ◌/◌, ◌%◌, ◌≡◌, ◌≢◌, ◌↔◌, All, ◌≤◌, ◌<◌, refl, ap, ◌∙◌, List, [], ◌∷◌,
  true, false, leb, ◌==◌, length, get_or, modify, Bool-cases, inl, inr, arith,
}
use llm_cluster_router.Prelude.Int.{pos}
use llm_cluster_router.KeyPool.{
  uint64_mod, Pool, slot, is_healthy, scan, next, mark_exhausted, cooling_from, all_cooling,
}

-- Every position of `n` comes up within `n` rounds.
round_of : (start n j : ℕ) → j < n → (off : ℕ) × (off < n) × ((start + off) % n ≡ j)
round_of start n j h =
    let s = start % n in
    let q = start / n in
    let whole : n * q + s ≡ start = div-add-mod start n in
    let small : s < n = mod-lt start (omega arith) in
    elim (Bool-cases (leb s j)) [
      | inl le ↦
          let e : start + (j - s) ≡ n * q + j = ground arith in
          (j - s, ground arith, ap (λ x. x % n) e ∙ mul-add-mod_self_left n q j ∙ mod-eq_of_lt h)
      | inr gt ↦
          let e : start + (j + n - s) ≡ n * (q + 1) + j = ground arith in
          (
            j + n - s,
            ground arith,
            ap (λ x. x % n) e ∙ mul-add-mod_self_left n (q + 1) j ∙ mod-eq_of_lt h,
          )
    ]

slot_of :
    (start n j : ℕ)
    → start + n ≤ uint64_mod
    → j < n
    → (off : ℕ) × (off < n) × (slot start off n ≡ j)
slot_of start n j w h =
    let (off, lt, e) = round_of start n j h in
    let narrow : (start + off) % uint64_mod ≡ start + off = mod-eq_of_lt (omega arith) in
    (off, lt, ap (λ x. x % n) narrow ∙ e)

-- What the loop finds in its remaining rounds.
scan_finds :
    (now : ℕ) (cool : List ℕ) (n start off rounds : ℕ) (k : ℕ)
    → off ≤ k
    → k < off + rounds
    → is_healthy now cool (slot start k n) ≡ true
    → is_healthy now cool (scan now cool n start off rounds) ≡ true
unfolding scan
scan_finds now cool n start off zero k le lt h = absurd (omega arith)
scan_finds now cool n start off (suc rounds) k le lt h =
    elim (Bool-cases (is_healthy now cool (slot start off n))) [
      | inl e ↦ rw e e
      | inr e ↦ rw e (scan_finds now cool n start (off + 1) rounds k (later e) (omega arith) h)
    ]
  where
    later : is_healthy now cool (slot start off n) ≡ false → off + 1 ≤ k
    later e = elim (Bool-cases (off == k)) [
      | inl same ↦ absurd (ground arith)
      | inr other ↦ ground arith
    ]

scan-lt :
    (now : ℕ) (cool : List ℕ) (n start off rounds : ℕ)
    → 0 < n
    → scan now cool n start off rounds < n
unfolding scan
scan-lt now cool n start off zero h = mod-lt start h
scan-lt now cool n start off (suc rounds) h =
    ground
      (arith, scan-lt now cool n start (off + 1) rounds h, mod-lt ((start + off) % uint64_mod) h)

-- A pool with one cooldown entry for each key.
abbrev pub IsSized : Pool → Type 0
IsSized p = length p.cool_until ≡ length p.keys

-- As long as the cursor does not wrap, `Next` returns a healthy key whenever the pool has one: its
-- index is in range, its cooldown is over, and the key is the one at that index.
pub next_healthy :
    (now j : ℕ) (p : Pool)
    → p.idx + length p.keys ≤ uint64_mod
    → j < length p.keys
    → is_healthy now p.cool_until j ≡ true
    → (i : ℕ) × ((next now p).2 ≡ pos i)
      × (i < length p.keys)
      × (is_healthy now p.cool_until i ≡ true)
      × ((next now p).1 ≡ get_or p.keys i "")
unfolding next
next_healthy now j p w lt h =
    let n = length p.keys in
    let i = scan now p.cool_until n p.idx 0 n in
    let (off, small, e) = slot_of p.idx n j w lt in
    let some_key : (n == 0) ≡ false = ground arith in
    (
      i,
      rw some_key,
      scan-lt now p.cool_until n p.idx 0 n (omega arith),
      scan_finds now p.cool_until n p.idx 0 n off (omega arith) (omega arith) (rw e h),
      rw some_key,
    )

-- A mark in range sets the end of the key's cooldown, and nothing else.
mark_exhausted_lem :
    (t i c : ℕ) (p : Pool)
    → IsSized p
    → p.cooldown ≡ pos c
    → i < length p.keys
    → 0 < c
    → ((mark_exhausted t (pos i) p).keys ≡ p.keys)
      × ((mark_exhausted t (pos i) p).idx ≡ p.idx)
      × ((mark_exhausted t (pos i) p).cool_until ≡ modify p.cool_until i (λ _. t + c))
unfolding mark_exhausted
mark_exhausted_lem t i c p sized cd lt h = ground arith

get_or-modify : (xs : List ℕ) (i d v : ℕ) → i < length xs → get_or (modify xs i (λ _. v)) i d ≡ v
get_or-modify [] i d v h = absurd (omega arith)
get_or-modify (x ∷ xs) zero d v h = refl
get_or-modify (x ∷ xs) (suc i) d v h = get_or-modify xs i d v (omega arith)

-- A key that is marked exhausted is not handed out before its cooldown is over, as long as another
-- key is healthy.
pub marked_skipped :
    (t now i c j : ℕ) (p : Pool)
    → IsSized p
    → p.cooldown ≡ pos c
    → 0 < c
    → i < length p.keys
    → now < t + c
    → p.idx + length p.keys ≤ uint64_mod
    → j < length p.keys
    → is_healthy now (mark_exhausted t (pos i) p).cool_until j ≡ true
    → (next now (mark_exhausted t (pos i) p)).2 ≢ pos i
marked_skipped t now i c j p sized cd positive lt early w in_pool h same =
    let p' = mark_exhausted t (pos i) p in
    let (keys, idx, marked) = mark_exhausted_lem t i c p sized cd lt positive in
    let (i', e, lt', healthy, key) = next_healthy now j p' (rw (keys, idx) w) (rw keys in_pool) h in
    let here : i' ≡ i = ground (arith, e) in
    let unhealthy : get_or p'.cool_until i 0 ≡ t + c =
      rw marked (get_or-modify p.cool_until i 0 (t + c) (omega arith)) in
    ground (arith, unhealthy)

cooling_from-le : (now : ℕ) (ts : List ℕ) → cooling_from now ts ≤ length ts
unfolding cooling_from
cooling_from-le now [] = omega arith
cooling_from-le now (t ∷ ts) = ground (arith, cooling_from-le now ts)

cooling_from-All :
    (now : ℕ) (ts : List ℕ) → (cooling_from now ts ≡ length ts) ↔ All (λ t. now < t) ts
unfolding cooling_from
cooling_from-All now [] = (λ _. tt, λ _. refl)
cooling_from-All now (t ∷ ts) =
    let (there, back) = cooling_from-All now ts in
    (λ h. ground (arith, cooling_from-le now ts, there), λ h. ground (arith, back h.1))

-- AllCooling says that the pool has keys and that every one of them is still cooling.
pub all_cooling-true :
    (now : ℕ) (p : Pool)
    → IsSized p
    → (all_cooling now p ≡ true) ↔ ((0 < length p.keys) × All (λ t. now < t) p.cool_until)
unfolding all_cooling
all_cooling-true now p sized =
    let (there, back) = cooling_from-All now p.cool_until in
    (λ h. (ground arith, there (ground arith)), λ h. ground (arith, back h.1))
