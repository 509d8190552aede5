-- ===== src/Rotation/Key/Slots.antt =====
-- Slots and the request cap of one key: what each operation keeps.
use llm_cluster_router.Prelude.{
  ℕ, ◌+◌, ◌≤◌, ◌<◌, ◌≡◌, List, [], ◌∷◌, ◌++◌, true, length, length-append, length-drop, arith,
}
use llm_cluster_router.Prelude.Int.{ℤ, pos, negsuc}
use llm_cluster_router.Rotation.Types.{RetireReason, UsageSample, Settings, Key}
use llm_cluster_router.Rotation.Key.{
  fresh, in_flight, release, stale_run, reclaim_stale, admissible, apply_caps, charge, settle,
  retire, roll_key,
}

-- The reservations not yet settled: those that hold their lease, and those whose lease was
-- reclaimed.
abbrev pub slots : Key → ℕ
slots k = in_flight k + k.orphaned

-- A budget with a request cap.
abbrev pub CapsRequests : Settings → Type 0
CapsRequests s = (0 < s.budget.window) × (0 < s.budget.requests)

abbrev pub reserve_key : ℕ → Key → Key
reserve_key now k = record k { leases = k.leases ++ now ∷ [] }

-- The request cap holds, but for the leases that were reclaimed.
pub record IsCapped (s : Settings) (k : Key) : Type 0 where
  pub orphans : k.orphaned ≤ k.reclaimed
  pub capped : CapsRequests s → k.requests + slots k ≤ s.budget.requests + k.reclaimed

pub fresh-IsCapped : (s : Settings) → IsCapped s fresh
fresh-IsCapped s = ground arith

stale_run-le : (timeout now : ℕ) (ts : List ℕ) → stale_run timeout now ts ≤ length ts
unfolding stale_run
stale_run-le timeout now [] = omega arith
stale_run-le timeout now (t ∷ ts) = ground (arith, stale_run-le timeout now ts)

-- Reclaiming moves slots from leases to orphans.
pub slots-reclaim_stale :
    (s : Settings) (now : ℕ) (k : Key) → slots (reclaim_stale s now k) ≡ slots k
unfolding reclaim_stale
slots-reclaim_stale s now k = ground (
  arith,
  stale_run-le s.lease_timeout now k.leases,
  length-drop (stale_run s.lease_timeout now k.leases) k.leases,
)

-- A settlement gives back one slot.
pub slots-release : (k : Key) → 0 < slots k → slots (release k) + 1 ≡ slots k
unfolding release
slots-release k h = ground (arith, length-drop 1 k.leases)

pub reclaim_stale-IsCapped :
    (s : Settings) (now : ℕ) (k : Key) → IsCapped s k → IsCapped s (reclaim_stale s now k)
unfolding reclaim_stale
reclaim_stale-IsCapped s now k v = ground (
  arith,
  stale_run-le s.lease_timeout now k.leases,
  length-drop (stale_run s.lease_timeout now k.leases) k.leases,
)

pub roll_key-IsCapped :
    (s : Settings) (now : ℕ) (k : Key) → IsCapped s k → IsCapped s (roll_key now k)
unfolding roll_key
roll_key-IsCapped s now k v = ground arith

pub reserve_key-IsCapped :
    (s : Settings) (now : ℕ) (k : Key)
    → admissible s k now ≡ true
    → IsCapped s k
    → IsCapped s (reserve_key now k)
unfolding admissible
reserve_key-IsCapped s now k h v = ground (arith, length-append k.leases (now ∷ []))

pub retire-IsCapped :
    (s : Settings) (now until : ℕ) (r : RetireReason) (k : Key)
    → IsCapped s k
    → IsCapped s (retire now until r k).0
unfolding retire
retire-IsCapped s now until r k v = ground arith

-- The caps leave the counters and the slots alone.
apply_caps_keeps :
    (s : Settings) (k : Key)
    → ((apply_caps s k).0.requests ≡ k.requests)
      × ((apply_caps s k).0.leases ≡ k.leases)
      × ((apply_caps s k).0.orphaned ≡ k.orphaned)
      × ((apply_caps s k).0.reclaimed ≡ k.reclaimed)
unfolding apply_caps
apply_caps_keeps s k = ground arith

pub charge-le :
    (s : Settings) (t : ℤ) (k : Key)
    → ((charge s t k).requests ≡ k.requests + 1)
      × ((charge s t k).leases ≡ k.leases)
      × ((charge s t k).orphaned ≡ k.orphaned)
      × ((charge s t k).reclaimed ≡ k.reclaimed)
      × (k.tokens ≤ (charge s t k).tokens)
      × ((charge s t k).drained ≡ k.drained)
      × ((charge s t k).soft_retired ≡ k.soft_retired)
unfolding charge
charge-le s (pos n) k = ground arith
charge-le s (negsuc n) k = ground arith

pub release_keeps :
    (k : Key)
    → ((release k).requests ≡ k.requests)
      × ((release k).tokens ≡ k.tokens)
      × ((release k).reclaimed ≡ k.reclaimed)
      × ((release k).drained ≡ k.drained)
      × ((release k).soft_retired ≡ k.soft_retired)
      × ((release k).orphaned ≤ k.orphaned)
unfolding release
release_keeps k = ground arith

-- What a settlement does to the slots and the request count, whatever its sample says.
pub settle_counts :
    (s : Settings) (u : UsageSample) (k : Key)
    → ((settle s u k).0.leases ≡ (release k).leases)
      × ((settle s u k).0.orphaned ≡ (release k).orphaned)
      × ((settle s u k).0.reclaimed ≡ k.reclaimed)
      × ((settle s u k).0.requests ≤ k.requests + 1)
unfolding settle
settle_counts s u k = ground (
  arith,
  apply_caps_keeps s (charge s u.tokens (release k)),
  charge-le s u.tokens (release k),
  release_keeps k,
)

pub settle-IsCapped :
    (s : Settings) (u : UsageSample) (k : Key)
    → 0 < slots k
    → IsCapped s k
    → IsCapped s (settle s u k).0
settle-IsCapped s u k h v = ground (arith, settle_counts s u k, slots-release k h, release_keeps k)
