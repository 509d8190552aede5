-- ===== src/Rotation/Route/Waiting.antt =====
-- `RetryAfter`: it answers only when no key is selectable, and its wait is long enough.
use llm_cluster_router.Prelude.{
  ℕ, suc, ◌+◌, ◌-◌, ◌≡◌, ◌↔◌, ◌≤◌, ◌<◌, refl, sym, subst, length, ◌==◌, ◌∙◌, some_inj, List, [],
  ◌∷◌, map, Option, none, some, true, false, ◌||◌, ltb, leb, Bool-cases, Option-cases, inl, inr,
  ◌⊎◌, get_elem?, get_elem?-map, All, All-get_elem?, arith,
}
use llm_cluster_router.Rotation.Types.{Settings, Key, Route}
use llm_cluster_router.Rotation.Key.{reclaim_stale, selectable_at, roll_key}
use llm_cluster_router.Rotation.Key.Flags.{IsFlagged}
use llm_cluster_router.Rotation.Route.{
  roll, advance, wait_for, better, least_wait, min_retry_after, retry_after,
}
use llm_cluster_router.Rotation.Route.Invariant.{advance-All, IsFlagged-stable, length-advance}
use llm_cluster_router.Rotation.Route.Admission.{NoneSelectable}

-- `b` is the wait of one of the keys.
abbrev pub WaitOf : Settings → ℕ → ℕ → List Key → ℕ → Type 0
WaitOf s now start ks b =
    (i : ℕ) × (k : Key) × (get_elem? ks i ≡ some k) × (wait_for s now start k ≡ b)

better-le : (best : Option ℕ) (w : ℕ) → better best w ≤ w
unfolding better
better-le none w = omega arith
better-le (some b) w = ground arith

better-le-best : (best : Option ℕ) (w c : ℕ) → best ≡ some c → better best w ≤ c
unfolding better
better-le-best none w c e = cc
better-le-best (some b) w c e = ground arith

better-cases : (best : Option ℕ) (w : ℕ) → (best ≡ some (better best w)) ⊎ (w ≡ better best w)
unfolding better
better-cases none w = inr refl
better-cases (some b) w = ground arith

-- A loop that finds a wait has found no selectable key, and the wait is one of a key's.
least_wait-WaitOf :
    (s : Settings) (now start : ℕ) (best : Option ℕ) (ks : List Key) {b : ℕ}
    → least_wait s now start best ks ≡ some b
    → NoneSelectable now ks × ((best ≡ some b) ⊎ WaitOf s now start ks b)
unfolding least_wait
least_wait-WaitOf s now start best [] h = (tt, inl h)
least_wait-WaitOf s now start best (k ∷ ks) {b} h = elim (Bool-cases (selectable_at k now)) [
  | inl e ↦ absurd (ground arith)
  | inr e ↦
      let w = wait_for s now start k in
      let rest = least_wait-WaitOf s now start (some (better best w)) ks {b = b} (ground arith) in
      (
        (e, rest.0),
        elim rest.1 [
          | inr (i, k', at, is) ↦ inr (suc i, k', at, is)
          | inl found ↦ elim (better-cases best w) [
            | inl old ↦ inl (old ∙ found)
            | inr new ↦ inr (0, k, refl, new ∙ some_inj found)
          ]
        ],
      )
]

-- And no key's wait is shorter.
least_wait-least :
    (s : Settings) (now start : ℕ) (best : Option ℕ) (ks : List Key) {b : ℕ}
    → least_wait s now start best ks ≡ some b
    → All (λ k. b ≤ wait_for s now start k) ks × ((c : ℕ) → best ≡ some c → b ≤ c)
unfolding least_wait
least_wait-least s now start best [] h = (tt, λ c e. omega (arith, some_inj (sym h ∙ e)))
least_wait-least s now start best (k ∷ ks) {b} h = elim (Bool-cases (selectable_at k now)) [
  | inl e ↦ absurd (ground arith)
  | inr e ↦
      let w = wait_for s now start k in
      let rest = least_wait-least s now start (some (better best w)) ks {b = b} (ground arith) in
      let le = rest.1 (better best w) refl in
      (
        (omega (arith, le, better-le best w), rest.0),
        λ c e'. omega (arith, le, better-le-best best w c e'),
      )
]

reclaim_keeps :
    (s : Settings) (now : ℕ) (k : Key)
    → ((reclaim_stale s now k).drained ≡ k.drained)
      × ((reclaim_stale s now k).soft_retired ≡ k.soft_retired)
      × ((reclaim_stale s now k).retired_until ≡ k.retired_until)
unfolding reclaim_stale
reclaim_keeps s now k = ground arith

roll_key_selectable :
    (t : ℕ) (k : Key) → k.retired_until ≤ t → selectable_at (roll_key t k) t ≡ true
unfolding selectable_at roll_key
roll_key_selectable t k h = ground arith

wait_for-retired :
    (s : Settings) (now t start : ℕ) (k : Key)
    → now + wait_for s now start k ≤ t
    → k.retired_until ≤ t
unfolding wait_for
wait_for-retired s now t start k h = ground arith

wait_for_flagged :
    (s : Settings) (now t start : ℕ) (k : Key)
    → 0 < s.budget.window
    → (k.drained || k.soft_retired) ≡ true
    → now + wait_for s now start k ≤ t
    → start + s.budget.window ≤ t
unfolding wait_for
wait_for_flagged s now t start k w f h = ground arith

selectable_unrolled :
    (s : Settings) (t : ℕ) (k : Key)
    → (k.drained || k.soft_retired) ≡ false
    → k.retired_until ≤ t
    → selectable_at (reclaim_stale s t k) t ≡ true
unfolding selectable_at
selectable_unrolled s t k f h = ground (arith, reclaim_keeps s t k)

-- At the end of its wait a key is selectable again, if its flags say what its counters say.
wait_for_enough :
    (s : Settings) (now t : ℕ) (r : Route) (i : ℕ) (k : Key)
    → get_elem? r.keys i ≡ some k
    → IsFlagged s k
    → now + wait_for s now r.window_start k ≤ t
    → (k' : Key) × (get_elem? (advance s t r).keys i ≡ some k') × (selectable_at k' t ≡ true)
unfolding advance roll
wait_for_enough s now t r i k e v h =
    let k₁ = reclaim_stale s t k in
    let at₁ = get_elem?-map (reclaim_stale s t) r.keys i e in
    let at₂ = get_elem?-map (roll_key t) (map (reclaim_stale s t) r.keys) i at₁ in
    let retired = wait_for-retired s now t r.window_start k h in
    elim (Bool-cases (leb s.budget.window 0)) [
      | inl none_set ↦ rw none_set (k₁, at₁, selectable_unrolled s t k (ground arith) retired)
      | inr set ↦ elim (Bool-cases (ltb (t - r.window_start) s.budget.window)) [
        | inr over ↦
            rw (set, over)
              (roll_key t k₁, at₂, roll_key_selectable t k₁ (ground (arith, reclaim_keeps s t k)))
        | inl within ↦ elim (Bool-cases (k.drained || k.soft_retired)) [
          | inr unflagged ↦ rw (set, within) (k₁, at₁, selectable_unrolled s t k unflagged retired)
          | inl flagged ↦
              absurd
                (ground (arith, wait_for_flagged s now t r.window_start k (ground arith) flagged h))
        ]
      ]
    ]

selectable_one :
    (t : ℕ) (ks : List Key) (i : ℕ) (k : Key)
    → get_elem? ks i ≡ some k
    → selectable_at k t ≡ true
    → ¬ NoneSelectable t ks
selectable_one t ks i k at sel all =
    cc (sel, All-get_elem? (λ x. selectable_at x t ≡ false) ks i {a = k} all at)

least_wait_of_none :
    (s : Settings) (now start b : ℕ) (ks : List Key)
    → NoneSelectable now ks
    → (c : ℕ) × (least_wait s now start (some b) ks ≡ some c)
unfolding least_wait
least_wait_of_none s now start b [] h = (b, refl)
least_wait_of_none s now start b (k ∷ ks) h =
    rw h.0 (least_wait_of_none s now start (better (some b) (wait_for s now start k)) ks h.1)

least_wait-none :
    (s : Settings) (now start : ℕ) (ks : List Key)
    → (least_wait s now start none ks ≡ none) ↔ ((ks ≡ []) ⊎ (¬ NoneSelectable now ks))
unfolding least_wait
least_wait-none s now start [] = (λ _. inl refl, λ _. refl)
least_wait-none s now start (k ∷ ks) = (
  λ h. inr (λ all.
      let (c, e) = least_wait_of_none s now start (better none (wait_for s now start k)) ks all.1 in
      absurd (ground (arith, e))),
  λ h. elim (Option-cases (least_wait s now start none (k ∷ ks))) [
    | inl e ↦ e
    | inr (b, e) ↦
        let all = (least_wait-WaitOf s now start none (k ∷ ks) e).0 in
        elim h [ inl no_keys ↦ absurd (cc) | inr some_key ↦ absurd (some_key all) ]
  ],
)

no_key : (ks : List Key) → length ks ≡ 0 → ks ≡ []
no_key [] h = refl
no_key (k ∷ ks) h = absurd (omega arith)

-- `RetryAfter` has no wait to report exactly when the route has no key, or one is selectable now.
pub retry_after-none :
    (s : Settings) (now : ℕ) (r : Route)
    → ((retry_after s now r).1 ≡ none)
      ↔ ((r.keys ≡ []) ⊎ (¬ NoneSelectable now (advance s now r).keys))
unfolding retry_after
retry_after-none s now r =
    let r' = advance s now r in
    let (there, back) = least_wait-none s now r'.window_start r'.keys in
    elim (Bool-cases (length r.keys == 0)) [
      | inl e ↦ (λ _. inl (no_key r.keys (ground arith)), λ _. rw e)
      | inr e ↦ (
        λ h. elim (there (ground arith)) [
          | inl gone ↦ absurd (ground (arith, length-advance s now r))
          | inr some_key ↦ inr some_key
        ],
        λ h. elim h [
          | inl gone ↦ absurd (ground arith)
          | inr some_key ↦ ground (arith, back (inr some_key))
        ],
      )
    ]

-- The advertised wait lies between one second and the configured ceiling.
pub retry_after_bounds :
    (s : Settings) (now : ℕ) (r : Route) {d : ℕ}
    → (retry_after s now r).1 ≡ some d
    → (min_retry_after ≤ d) × ((d ≤ s.max_retry_after) ⊎ (d ≡ min_retry_after))
unfolding retry_after
retry_after_bounds s now r h = ground arith

-- A client that waits for the advertised time, where the ceiling did not cut it, finds a selectable
-- key.
pub retry_after_enough :
    (s : Settings) (now t : ℕ) (r : Route) {d : ℕ}
    → 0 < s.budget.soft_ratio.num
    → All (IsFlagged s) r.keys
    → (retry_after s now r).1 ≡ some d
    → d < s.max_retry_after
    → now + d ≤ t
    → ¬ NoneSelectable t (advance s t (retry_after s now r).0).keys
unfolding retry_after
retry_after_enough s now t r {d} ratio v h uncut le none_left =
    let r' = advance s now r in
    let has_keys : (length r.keys == 0) ≡ false = ground arith in
    let moved : (retry_after s now r).0 ≡ r' = rw has_keys in
    elim (Option-cases (least_wait s now r'.window_start none r'.keys)) [
      | inl e ↦ absurd (ground arith)
      | inr (b, e) ↦ elim (least_wait-WaitOf s now r'.window_start none r'.keys e).1 [
        | inl no_best ↦ absurd (cc)
        | inr (i, k, at, is) ↦
            let flags = advance-All s (IsFlagged s) (IsFlagged-stable s ratio) now r v in
            let short : b ≤ d = ground arith in
            let (k', at', sel) =
              wait_for_enough s now t r' i k at (All-get_elem? (IsFlagged s) r'.keys i flags at)
                (omega arith) in
            selectable_one t (advance s t r').keys i k' at' sel
              (subst (λ x. NoneSelectable t (advance s t x).keys) moved none_left)
      ]
    ]
