-- ===== src/Rotation/Route/Slots.antt =====
-- How many unsettled reservations each key of a route carries, and what changes it.
use llm_cluster_router.Prelude.{
  ℕ, zero, suc, ◌+◌, ◌≡◌, ◌<◌, refl, List, [], ◌∷◌, ◌++◌, map, Option, some, ◌&&◌, get_elem?-lt,
  ◌==◌, ltb, length, length-append, modify, get_elem?, if◌then◌else◌, All, arith,
}
use llm_cluster_router.Rotation.Types.{RetireReason, UsageSample, Settings, Key, Route}
use llm_cluster_router.Rotation.Key.{reclaim_stale, settle, retire, roll_key}
use llm_cluster_router.Rotation.Key.Slots.{
  IsCapped, slots, slots-reclaim_stale, slots-release, settle_counts, settle-IsCapped,
  retire-IsCapped,
}
use llm_cluster_router.Rotation.Key.Flags.{IsFlagged, settle-IsFlagged, retire-IsFlagged}
use llm_cluster_router.Rotation.Route.{
  roll, advance, add_lease, on_key, with_key, normalise, record_sample, reason_or_quota,
  default_quota_cooldown, retire_with_reason, retire_for_window,
}
use llm_cluster_router.Rotation.Route.Invariant.{
  with_key-All, IsCapped-stable, IsFlagged-stable, length-advance,
}

-- None out of range.
unfoldable pub slots_at : List Key → ℕ → ℕ
slots_at [] i = 0
slots_at (k ∷ ks) zero = slots k
slots_at (k ∷ ks) (suc i) = slots_at ks i

pub slots_at-get_elem? :
    (ks : List Key) (i : ℕ) {k : Key} → get_elem? ks i ≡ some k → slots_at ks i ≡ slots k
unfolding slots_at
slots_at-get_elem? [] i h = ground arith
slots_at-get_elem? (x ∷ ks) zero h = ground arith
slots_at-get_elem? (x ∷ ks) (suc i) h = slots_at-get_elem? ks i h

slots_at-map :
    (f : Key → Key) (ks : List Key) (i : ℕ)
    → ((k : Key) → slots (f k) ≡ slots k)
    → slots_at (map f ks) i ≡ slots_at ks i
unfolding slots_at
slots_at-map f [] i h = refl
slots_at-map f (k ∷ ks) zero h = h k
slots_at-map f (k ∷ ks) (suc i) h = slots_at-map f ks i h

slots-roll_key : (now : ℕ) (k : Key) → slots (roll_key now k) ≡ slots k
unfolding roll_key
slots-roll_key now k = ground arith

-- Time moves slots from leases to orphans, and loses none.
pub slots_at-advance :
    (s : Settings) (now : ℕ) (r : Route) (i : ℕ)
    → slots_at (advance s now r).keys i ≡ slots_at r.keys i
unfolding advance roll
slots_at-advance s now r i = ground (
  arith,
  slots_at-map (reclaim_stale s now) r.keys i (slots-reclaim_stale s now),
  slots_at-map (roll_key now) (map (reclaim_stale s now) r.keys) i (slots-roll_key now),
)

slots_at-modify :
    (now : ℕ) (ks : List Key) (j i : ℕ)
    → slots_at (modify ks j (λ k. record k { leases = k.leases ++ now ∷ [] })) i
      ≡ (if (j == i) && ltb j (length ks) then slots_at ks i + 1 else slots_at ks i)
unfolding slots_at
slots_at-modify now [] j i = ground arith
slots_at-modify now (k ∷ ks) zero zero = ground (arith, length-append k.leases (now ∷ []))
slots_at-modify now (k ∷ ks) zero (suc i) = ground arith
slots_at-modify now (k ∷ ks) (suc j) zero = ground arith
slots_at-modify now (k ∷ ks) (suc j) (suc i) = ground (arith, slots_at-modify now ks j i)

-- A reservation takes one slot on the granted key.
pub slots_at-add_lease :
    (now : ℕ) (r : Route) (j i : ℕ) {k : Key}
    → get_elem? r.keys j ≡ some k
    → slots_at (add_lease now j r).keys i
      ≡ (if j == i then slots_at r.keys i + 1 else slots_at r.keys i)
slots_at-add_lease now r j i h =
    ground (arith, slots_at-modify now r.keys j i, get_elem?-lt r.keys j h)

slots_at-on_key :
    (j i : ℕ) (f : Key → Key × List RetireReason) (ks : List Key) (n : ℕ)
    → ((k : Key) → get_elem? ks j ≡ some k → slots (f k).0 + n ≡ slots k)
    → slots_at (on_key j f ks).0 i + (if (j == i) && ltb j (length ks) then n else 0)
      ≡ slots_at ks i
unfolding slots_at on_key
slots_at-on_key j i f [] n h = ground arith
slots_at-on_key zero zero f (k ∷ ks) n h = ground (arith, h k refl)
slots_at-on_key zero (suc i) f (k ∷ ks) n h = ground arith
slots_at-on_key (suc j) zero f (k ∷ ks) n h = ground arith
slots_at-on_key (suc j) (suc i) f (k ∷ ks) n h = ground (arith, slots_at-on_key j i f ks n h)

-- What `with_key` takes from the slots of the key that it changes: `n`, where the key is in range.
with_key-slots :
    (s : Settings) (now j i : ℕ) (f : Route → Key → Key × List RetireReason) (r : Route) (n : ℕ)
    → ((k : Key)
        → get_elem? (advance s now r).keys j ≡ some k
        → slots (f (advance s now r) k).0 + n ≡ slots k)
    → slots_at (with_key s now j f r).0.keys i
        + (if (j == i) && ltb j (length r.keys) then n else 0)
      ≡ slots_at r.keys i
unfolding with_key
with_key-slots s now j i f r n h = ground (
  arith,
  slots_at-on_key j i (f (advance s now r)) (advance s now r).keys n h,
  slots_at-advance s now r i,
  length-advance s now r,
)

slots_at-lt : (ks : List Key) (i : ℕ) → 0 < slots_at ks i → i < length ks
unfolding slots_at
slots_at-lt [] i h = absurd (omega arith)
slots_at-lt (k ∷ ks) zero h = omega arith
slots_at-lt (k ∷ ks) (suc i) h = omega (arith, slots_at-lt ks i h)

slots-settle :
    (s : Settings) (u : UsageSample) (k : Key) → 0 < slots k → slots (settle s u k).0 + 1 ≡ slots k
slots-settle s u k h = ground (arith, settle_counts s u k, slots-release k h)

-- The slot of the settled key is still there after the passing of time.
slot_kept :
    (s : Settings) (now j : ℕ) (r : Route) (k : Key)
    → 0 < slots_at r.keys j
    → get_elem? (advance s now r).keys j ≡ some k
    → 0 < slots k
slot_kept s now j r k h at =
    omega (arith, slots_at-advance s now r j, slots_at-get_elem? (advance s now r).keys j at)

-- A settlement gives back one slot of the key that it names, and no other's.
pub record_sample_slots :
    (s : Settings) (now j i : ℕ) (u : UsageSample) (r : Route)
    → 0 < slots_at r.keys j
    → slots_at (record_sample s now j u r).0.keys i + (if j == i then 1 else 0) ≡ slots_at r.keys i
unfolding record_sample
record_sample_slots s now j i u r h = ground (
  arith,
  with_key-slots s now j i (λ _. settle s (normalise u)) r 1
      (λ k at. slots-settle s (normalise u) k (slot_kept s now j r k h at)),
  slots_at-lt r.keys j h,
)

pub record_sample-IsCapped :
    (s : Settings) (now j : ℕ) (u : UsageSample) (r : Route)
    → 0 < slots_at r.keys j
    → All (IsCapped s) r.keys
    → All (IsCapped s) (record_sample s now j u r).0.keys
unfolding record_sample
record_sample-IsCapped s now j u r h =
    with_key-All s (IsCapped s) (IsCapped-stable s) now j (λ _. settle s (normalise u)) r
      (λ k at. settle-IsCapped s (normalise u) k (slot_kept s now j r k h at))

-- The flags are right after a settlement, of an outstanding lease or not.
pub record_sample-IsFlagged :
    (s : Settings) (now j : ℕ) (u : UsageSample) (r : Route)
    → 0 < s.budget.soft_ratio.num
    → All (IsFlagged s) r.keys
    → All (IsFlagged s) (record_sample s now j u r).0.keys
unfolding record_sample
record_sample-IsFlagged s now j u r h =
    with_key-All s (IsFlagged s) (IsFlagged-stable s h) now j (λ _. settle s (normalise u)) r
      (λ k _. settle-IsFlagged s (normalise u) k)

slots-retire :
    (now until : ℕ) (x : RetireReason) (k : Key) → slots (retire now until x k).0 + 0 ≡ slots k
unfolding retire
slots-retire now until x k = ground arith

-- The two ways to retire are one retirement of the key in the advanced route.
retiring_slots :
    (s : Settings) (now j i : ℕ) (until : Route → ℕ) (x : RetireReason) (r : Route)
    → slots_at (with_key s now j (λ r'. retire now (until r') x) r).0.keys i ≡ slots_at r.keys i
retiring_slots s now j i until x r = ground (
  arith,
  with_key-slots s now j i (λ r'. retire now (until r') x) r 0
      (λ k _. slots-retire now (until (advance s now r)) x k),
)

-- The deadline of `retireForWindow`.
abbrev pub window_deadline : Settings → ℕ → Route → ℕ
window_deadline s now r =
    if ltb 0 s.budget.window then r.window_start + s.budget.window else now + default_quota_cooldown

pub retire_slots :
    (s : Settings) (now j i until : ℕ) (x : Option RetireReason) (r : Route)
    → slots_at (retire_with_reason s now j until x r).0.keys i ≡ slots_at r.keys i
unfolding retire_with_reason
retire_slots s now j i until x r = retiring_slots s now j i (λ _. until) (reason_or_quota x) r

pub retire_for_window_slots :
    (s : Settings) (now j i : ℕ) (x : Option RetireReason) (r : Route)
    → slots_at (retire_for_window s now j x r).0.keys i ≡ slots_at r.keys i
unfolding retire_for_window
retire_for_window_slots s now j i x r =
    retiring_slots s now j i (window_deadline s now) (reason_or_quota x) r

retiring-IsCapped :
    (s : Settings) (now j : ℕ) (until : Route → ℕ) (x : RetireReason) (r : Route)
    → All (IsCapped s) r.keys
    → All (IsCapped s) (with_key s now j (λ r'. retire now (until r') x) r).0.keys
retiring-IsCapped s now j until x r =
    with_key-All s (IsCapped s) (IsCapped-stable s) now j (λ r'. retire now (until r') x) r
      (λ k _. retire-IsCapped s now (until (advance s now r)) x k)

retiring-IsFlagged :
    (s : Settings) (now j : ℕ) (until : Route → ℕ) (x : RetireReason) (r : Route)
    → 0 < s.budget.soft_ratio.num
    → All (IsFlagged s) r.keys
    → All (IsFlagged s) (with_key s now j (λ r'. retire now (until r') x) r).0.keys
retiring-IsFlagged s now j until x r h =
    with_key-All s (IsFlagged s) (IsFlagged-stable s h) now j (λ r'. retire now (until r') x) r
      (λ k _. retire-IsFlagged s now (until (advance s now r)) x k)

pub retire_with_reason-IsCapped :
    (s : Settings) (now j until : ℕ) (x : Option RetireReason) (r : Route)
    → All (IsCapped s) r.keys
    → All (IsCapped s) (retire_with_reason s now j until x r).0.keys
unfolding retire_with_reason
retire_with_reason-IsCapped s now j until x =
    retiring-IsCapped s now j (λ _. until) (reason_or_quota x)

pub retire_with_reason-IsFlagged :
    (s : Settings) (now j until : ℕ) (x : Option RetireReason) (r : Route)
    → 0 < s.budget.soft_ratio.num
    → All (IsFlagged s) r.keys
    → All (IsFlagged s) (retire_with_reason s now j until x r).0.keys
unfolding retire_with_reason
retire_with_reason-IsFlagged s now j until x =
    retiring-IsFlagged s now j (λ _. until) (reason_or_quota x)

pub retire_for_window-IsCapped :
    (s : Settings) (now j : ℕ) (x : Option RetireReason) (r : Route)
    → All (IsCapped s) r.keys
    → All (IsCapped s) (retire_for_window s now j x r).0.keys
unfolding retire_for_window
retire_for_window-IsCapped s now j x =
    retiring-IsCapped s now j (window_deadline s now) (reason_or_quota x)

pub retire_for_window-IsFlagged :
    (s : Settings) (now j : ℕ) (x : Option RetireReason) (r : Route)
    → 0 < s.budget.soft_ratio.num
    → All (IsFlagged s) r.keys
    → All (IsFlagged s) (retire_for_window s now j x r).0.keys
unfolding retire_for_window
retire_for_window-IsFlagged s now j x =
    retiring-IsFlagged s now j (window_deadline s now) (reason_or_quota x)
