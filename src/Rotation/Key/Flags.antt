-- ===== src/Rotation/Key/Flags.antt =====
-- The `drained` and `soft_retired` flags of one key: each operation keeps them equal to what the
-- counters say.
use llm_cluster_router.Prelude.{
  ℕ, ◌≤◌, ◌<◌, ◌≡◌, Bool, true, false, ◌&&◌, ◌||◌, ltb, leb, Bool-cases, inl, inr, arith,
}
use llm_cluster_router.Prelude.Int.{ℤ}
use llm_cluster_router.Rotation.Types.{RetireReason, UsageSample, Ratio, Settings, Key}
use llm_cluster_router.Rotation.Key.{
  fresh, release, reclaim_stale, at_ratio, one, apply_caps, charge, settle, retire, roll_key,
}
use llm_cluster_router.Rotation.Key.Slots.{reserve_key, charge-le, release_keeps}

-- The hard and the soft caps, read off the counters.
abbrev pub at_hard : Settings → Key → Bool
at_hard s k = at_ratio k.requests s.budget.requests one || at_ratio k.tokens s.budget.tokens one

abbrev pub at_soft : Settings → Key → Bool
at_soft s k =
    at_ratio k.requests s.budget.requests s.budget.soft_ratio
    || at_ratio k.tokens s.budget.tokens s.budget.soft_ratio

-- The flags say what the counters say.
pub record IsFlagged (s : Settings) (k : Key) : Type 0 where
  pub hard : k.drained ≡ ltb 0 s.budget.window && at_hard s k
  pub soft : k.soft_retired ≡ ltb 0 s.budget.window && (at_hard s k || at_soft s k)

pub fresh-IsFlagged : (s : Settings) → 0 < s.budget.soft_ratio.num → IsFlagged s fresh
unfolding at_ratio
fresh-IsFlagged s h = grind arith

pub reclaim_stale-IsFlagged :
    (s : Settings) (now : ℕ) (k : Key) → IsFlagged s k → IsFlagged s (reclaim_stale s now k)
unfolding reclaim_stale
reclaim_stale-IsFlagged s now k v = ground arith

at_ratio_zero : (limit : ℕ) (r : Ratio) → 0 < r.num → at_ratio 0 limit r ≡ false
unfolding at_ratio
at_ratio_zero limit r h = elim (Bool-cases (ltb 0 limit)) [ inl e ↦ grind arith | inr e ↦ rw e ]

pub roll_key-IsFlagged :
    (s : Settings) (now : ℕ) (k : Key) → 0 < s.budget.soft_ratio.num → IsFlagged s (roll_key now k)
unfolding roll_key
roll_key-IsFlagged s now k h = ground (
  arith,
  at_ratio_zero s.budget.requests one,
  at_ratio_zero s.budget.tokens one,
  at_ratio_zero s.budget.requests s.budget.soft_ratio,
  at_ratio_zero s.budget.tokens s.budget.soft_ratio,
)

pub reserve_key-IsFlagged :
    (s : Settings) (now : ℕ) (k : Key) → IsFlagged s k → IsFlagged s (reserve_key now k)
reserve_key-IsFlagged s now k v = ground arith

pub retire-IsFlagged :
    (s : Settings) (now until : ℕ) (r : RetireReason) (k : Key)
    → IsFlagged s k
    → IsFlagged s (retire now until r k).0
unfolding retire
retire-IsFlagged s now until r k v = ground arith

at_ratio_mono :
    (m n limit : ℕ) (r : Ratio) → m ≤ n → at_ratio m limit r ≡ true → at_ratio n limit r ≡ true
unfolding at_ratio
at_ratio_mono m n limit r h e = grind arith

at_ratio_uncapped : (n limit : ℕ) (r : Ratio) → leb limit 0 ≡ true → at_ratio n limit r ≡ false
unfolding at_ratio
at_ratio_uncapped n limit r h = ground arith

-- Set from the counters alone, where the flags held before were set from smaller counters.
apply_caps-IsFlagged :
    (s : Settings) (k : Key)
    → (k.drained ≡ true → (0 < s.budget.window) × (at_hard s k ≡ true))
    → (k.soft_retired ≡ true → (0 < s.budget.window) × ((at_hard s k || at_soft s k) ≡ true))
    → IsFlagged s (apply_caps s k).0
unfolding apply_caps
apply_caps-IsFlagged s k h e = ground (
  arith,
  at_ratio_uncapped k.requests s.budget.requests one,
  at_ratio_uncapped k.tokens s.budget.tokens one,
  at_ratio_uncapped k.requests s.budget.requests s.budget.soft_ratio,
  at_ratio_uncapped k.tokens s.budget.tokens s.budget.soft_ratio,
)

module _ (s : Settings) (k k' : Key) (r : k.requests ≤ k'.requests) (t : k.tokens ≤ k'.tokens) where
  at_hard_mono : at_hard s k ≡ true → at_hard s k' ≡ true
  at_hard_mono h = ground (
    arith,
    at_ratio_mono k.requests k'.requests s.budget.requests one r,
    at_ratio_mono k.tokens k'.tokens s.budget.tokens one t,
  )

  at_soft_mono : at_soft s k ≡ true → at_soft s k' ≡ true
  at_soft_mono h = ground (
    arith,
    at_ratio_mono k.requests k'.requests s.budget.requests s.budget.soft_ratio r,
    at_ratio_mono k.tokens k'.tokens s.budget.tokens s.budget.soft_ratio t,
  )

charged-IsFlagged :
    (s : Settings) (t : ℤ) (k : Key)
    → IsFlagged s k
    → IsFlagged s (apply_caps s (charge s t (release k))).0
charged-IsFlagged s t k v =
    let k' = charge s t (release k) in
    let c = charge-le s t (release k) in
    let r = release_keeps k in
    let more : k.requests ≤ k'.requests = omega (arith, c, r) in
    let spent : k.tokens ≤ k'.tokens = omega (arith, c, r) in
    apply_caps-IsFlagged s k' (λ d. ground (arith, c, r, at_hard_mono s k k' more spent))
      (λ d. ground (arith, c, r, at_hard_mono s k k' more spent, at_soft_mono s k k' more spent))

pub settle-IsFlagged :
    (s : Settings) (u : UsageSample) (k : Key) → IsFlagged s k → IsFlagged s (settle s u k).0
unfolding settle
settle-IsFlagged s u k v = ground (arith, charged-IsFlagged s u.tokens k v, release_keeps k)
