-- ===== src/Rotation/Route/Invariant.antt =====
-- What every operation on a route keeps: the caps of its keys, their flags, and their number.
use llm_cluster_router.Prelude.{
  ℕ, zero, suc, ◌≡◌, ◌<◌, refl, sym, subst, ◌∙◌, some_inj, List, [], ◌∷◌, map, some, true, length,
  length-map, get_elem?, modify, All, All-map, All-replicate, arith,
}
use llm_cluster_router.Prelude.Int.{ℤ}
use llm_cluster_router.Rotation.Types.{RetireReason, Settings, Key, Route, KeyState}
use llm_cluster_router.Rotation.Key.{reclaim_stale, admissible, roll_key}
use llm_cluster_router.Rotation.Key.Slots
use llm_cluster_router.Rotation.Key.Slots.{IsCapped, slots, reserve_key}
use llm_cluster_router.Rotation.Key.Flags
use llm_cluster_router.Rotation.Key.Flags.{IsFlagged}
use llm_cluster_router.Rotation.Route.{
  new_route, roll, advance, granted, refused_drained, refused_admission, Reservation, reserve,
  on_key, with_key,
}
use llm_cluster_router.Rotation.Route.Admission.{
  reserve-Explains, reserve_route, route_after, Explains,
}

-- A predicate on keys that survives the passing of time, at a section's settings.
pub record IsStable (s : Settings) (Q : Key → Type 0) : Type 0 where
  pub reclaiming : (now : ℕ) (k : Key) → Q k → Q (reclaim_stale s now k)
  pub rolling : (now : ℕ) (k : Key) → Q k → Q (roll_key now k)

module _ (s : Settings) (Q : Key → Type 0) (stable : IsStable s Q) where
  pub advance-All : (now : ℕ) (r : Route) → All Q r.keys → All Q (advance s now r).keys
  unfolding advance roll
  advance-All now r h =
      let kept = All-map Q r.keys (reclaim_stale s now) (stable.reclaiming now) h in
      ground (
        arith,
        kept,
        All-map Q (map (reclaim_stale s now) r.keys) (roll_key now) (stable.rolling now) kept,
      )

on_key-All :
    (Q : Key → Type 0) (i : ℕ) (f : Key → Key × List RetireReason) (ks : List Key)
    → ((k : Key) → get_elem? ks i ≡ some k → Q k → Q (f k).0)
    → All Q ks
    → All Q (on_key i f ks).0
unfolding on_key
on_key-All Q i f [] g h = h
on_key-All Q zero f (k ∷ ks) g h = (g k refl h.0, h.1)
on_key-All Q (suc i) f (k ∷ ks) g h = (h.0, on_key-All Q i f ks g h.1)

length-on_key :
    (i : ℕ) (f : Key → Key × List RetireReason) (ks : List Key)
    → length (on_key i f ks).0 ≡ length ks
unfolding on_key
length-on_key i f [] = refl
length-on_key zero f (k ∷ ks) = refl
length-on_key (suc i) f (k ∷ ks) = omega (arith, length-on_key i f ks)

-- Time and retirements neither add nor remove keys.
pub length-advance :
    (s : Settings) (now : ℕ) (r : Route) → length (advance s now r).keys ≡ length r.keys
unfolding advance roll
length-advance s now r = ground (
  arith,
  length-map (reclaim_stale s now) r.keys,
  length-map (roll_key now) (map (reclaim_stale s now) r.keys),
)

-- The key that a `with_key` call changes, after the passing of time.
pub with_key-All :
    (s : Settings) (Q : Key → Type 0)
    → IsStable s Q
    → (now i : ℕ) (f : Route → Key → Key × List RetireReason) (r : Route)
    → ((k : Key) → get_elem? (advance s now r).keys i ≡ some k → Q k → Q (f (advance s now r) k).0)
    → All Q r.keys
    → All Q (with_key s now i f r).0.keys
unfolding with_key
with_key-All s Q stable now i f r g h =
    let kept = advance-All s Q stable now r h in
    ground (arith, h, on_key-All Q i (f (advance s now r)) (advance s now r).keys g kept)

pub IsCapped-stable : (s : Settings) → IsStable s (IsCapped s)
IsCapped-stable s = record {
  reclaiming = Slots.reclaim_stale-IsCapped s;
  rolling = Slots.roll_key-IsCapped s;
}

pub IsFlagged-stable : (s : Settings) → 0 < s.budget.soft_ratio.num → IsStable s (IsFlagged s)
IsFlagged-stable s h = record {
  reclaiming = Flags.reclaim_stale-IsFlagged s;
  rolling = λ now k _. Flags.roll_key-IsFlagged s now k h;
}

-- A new route keeps both.
pub new_route-IsCapped : (s : Settings) (n start : ℕ) → All (IsCapped s) (new_route n start).keys
unfolding new_route
new_route-IsCapped s n start = All-replicate (IsCapped s) n (Slots.fresh-IsCapped s)

pub new_route-IsFlagged :
    (s : Settings) (n start : ℕ)
    → 0 < s.budget.soft_ratio.num
    → All (IsFlagged s) (new_route n start).keys
unfolding new_route
new_route-IsFlagged s n start h = All-replicate (IsFlagged s) n (Flags.fresh-IsFlagged s h)

-- A change of the key at one index, allowed by what is known of that key.
modify-All :
    (Q : Key → Type 0) (i : ℕ) (f : Key → Key) (ks : List Key)
    → ((k : Key) → get_elem? ks i ≡ some k → Q k → Q (f k))
    → All Q ks
    → All Q (modify ks i f)
modify-All Q i f [] g h = h
modify-All Q zero f (k ∷ ks) g h = (g k refl h.0, h.1)
modify-All Q (suc i) f (k ∷ ks) g h = (h.0, modify-All Q i f ks g h.1)

module _ {P : Type 0} (select : P → List KeyState → P × ℤ) (s : Settings) where
  granted-All :
      (Q : Key → Type 0) (now : ℕ) (r : Route) (a : Reservation)
      → ((k : Key) → admissible s k now ≡ true → Q k → Q (reserve_key now k))
      → Explains s now r.keys a
      → All Q r.keys
      → All Q (route_after now r a).keys
  granted-All Q now r (granted i) g (k, e, a) h =
      modify-All Q i (reserve_key now) r.keys
        (λ k' e' q.
          let same : k ≡ k' = some_inj (sym e ∙ e') in
          g k' (subst (λ x. admissible s x now ≡ true) same a) q)
        h
  granted-All Q now r refused_drained g x h = h
  granted-All Q now r refused_admission g x h = h

  reserve-All :
      (Q : Key → Type 0)
      → IsStable s Q
      → (now : ℕ) (p : P) (c : ℕ) (r : Route)
      → ((k : Key) → admissible s k now ≡ true → Q k → Q (reserve_key now k))
      → All Q r.keys
      → All Q (reserve select s now p c r).2.keys
  reserve-All Q stable now p c r g h = rw (reserve_route select s now p c r) (
      granted-All Q now (advance s now r) (reserve select s now p c r).3 g
        (reserve-Explains select s now p c r) (advance-All s Q stable now r h))

  -- Admission keeps every key of the route within its request cap.
  pub reserve-IsCapped :
      (now : ℕ) (p : P) (c : ℕ) (r : Route)
      → All (IsCapped s) r.keys
      → All (IsCapped s) (reserve select s now p c r).2.keys
  reserve-IsCapped now p c r =
      reserve-All (IsCapped s) (IsCapped-stable s) now p c r (Slots.reserve_key-IsCapped s now)

  pub reserve-IsFlagged :
      (now : ℕ) (p : P) (c : ℕ) (r : Route)
      → 0 < s.budget.soft_ratio.num
      → All (IsFlagged s) r.keys
      → All (IsFlagged s) (reserve select s now p c r).2.keys
  reserve-IsFlagged now p c r h =
      reserve-All (IsFlagged s) (IsFlagged-stable s h) now p c r
        (λ k _. Flags.reserve_key-IsFlagged s now k)
