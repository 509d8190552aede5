-- ===== src/Rotation/System/Caps.antt =====
-- The invariant of the store among its callers, and what it says of the request cap.
use llm_cluster_router.Prelude.{
  ℕ, ◌⊎◌, ◌≡◌, ◌<◌, ◌∙◌, List, Option, some, String, Option-cases, inl, inr, arith, All,
}
use llm_cluster_router.Prelude.Int.{ℤ, pos, negsuc}
use llm_cluster_router.Prelude.Maps.{lookup, adjust, AllValues, AllValues-lookup, AllValues-adjust}
use llm_cluster_router.Rotation.Types.{UsageSample, Settings, Route, KeyState, RetireReason}
use llm_cluster_router.Rotation.Key.Slots.{IsCapped}
use llm_cluster_router.Rotation.Key.Flags.{IsFlagged}
use llm_cluster_router.Rotation.Route.{
  advance, retire_with_reason, retire_for_window, retry_after, snapshot,
}
use llm_cluster_router.Rotation.Route.Invariant.{
  advance-All, IsCapped-stable, IsFlagged-stable, reserve-IsCapped, reserve-IsFlagged,
}
use llm_cluster_router.Rotation.Route.Slots.{
  slots_at, slots_at-advance, retire_slots, retire_for_window_slots, record_sample-IsCapped,
  record_sample-IsFlagged, retire_with_reason-IsCapped, retire_with_reason-IsFlagged,
  retire_for_window-IsCapped, retire_for_window-IsFlagged,
}
use llm_cluster_router.Rotation.Store.{
  Store, KeyLease, on_route, on_index, retire_with_reason_at, retire_for_window_at, retry_after_at,
  snapshot_at,
}
use llm_cluster_router.Rotation.System.{
  System, acquires, retires, retires_for_window, asks_retry_after, snapshots, settle_at, step,
}
use llm_cluster_router.Rotation.System.Leases.{slots_in_kept}
use llm_cluster_router.Rotation.System.Reachable.{
  IsLive, acquire_some, acquire_none, acquire-IsLive, settle_cases, settle-IsLive,
}

-- The keys of a route keep their caps, and their flags say what their counters say.
pub record IsSound (s : Settings) (r : Route) : Type 0 where
  pub capped : All (IsCapped s) r.keys
  pub flagged : All (IsFlagged s) r.keys

-- The invariant of the routes and the leases.
pub record IsGood (s : Settings) (m : List (String × Route)) (ls : List KeyLease) : Type 0 where
  pub alive : IsLive m ls
  pub sound : AllValues (IsSound s) m

-- One route is replaced by one that has the same slots and is sound.
replaced-IsGood :
    (s : Settings) (m : List (String × Route)) (ls : List KeyLease) (name : String) (r r' : Route)
    → lookup name m ≡ some r
    → ((i : ℕ) → slots_at r'.keys i ≡ slots_at r.keys i)
    → (IsSound s r → IsSound s r')
    → IsGood s m ls
    → IsGood s (adjust name (λ _. r') m) ls
replaced-IsGood s m ls name r r' at same keep v = record {
  alive = λ j i. slots_in_kept m name j i r r' at (same i) ∙ v.alive j i;
  sound =
      AllValues-adjust (IsSound s) name r' m (keep (AllValues-lookup (IsSound s) name m v.sound at))
        v.sound;
}

module _ {P : Type 0} (st : Store P) where
  on_route-IsGood :
      (s : Settings) (ls : List KeyLease) (name : String) (f : Route → Route × List RetireReason)
      → ((r : Route) (i : ℕ) → slots_at (f r).0.keys i ≡ slots_at r.keys i)
      → ((r : Route) → IsSound s r → IsSound s (f r).0)
      → IsGood s st.routes ls
      → IsGood s (on_route name f st).0.routes ls
  unfolding on_route
  on_route-IsGood s ls name f same keep v = elim (Option-cases (lookup name st.routes)) [
    | inl e ↦ rw (e, on_route) v
    | inr (r, e) ↦
        rw (e, on_route) (replaced-IsGood s st.routes ls name r (f r).0 e (same r) (keep r) v)
  ]

  on_index-IsGood :
      (s : Settings) (ls : List KeyLease) (name : String) (idx : ℤ)
      (f : ℕ → Route → Route × List RetireReason)
      → ((k : ℕ) (r : Route) (i : ℕ) → slots_at (f k r).0.keys i ≡ slots_at r.keys i)
      → ((k : ℕ) (r : Route) → IsSound s r → IsSound s (f k r).0)
      → IsGood s st.routes ls
      → IsGood s (on_index name idx f st).0.routes ls
  unfolding on_index
  on_index-IsGood s ls name (pos k) f same keep v =
      on_route-IsGood s ls name (f k) (same k) (keep k) v
  on_index-IsGood s ls name (negsuc k) f same keep v = v

advance-IsSound :
    (s : Settings) (now : ℕ) (r : Route)
    → 0 < s.budget.soft_ratio.num
    → IsSound s r
    → IsSound s (advance s now r)
advance-IsSound s now r h v = record {
  capped = advance-All s (IsCapped s) (IsCapped-stable s) now r v.capped;
  flagged = advance-All s (IsFlagged s) (IsFlagged-stable s h) now r v.flagged;
}

-- The two reading calls advance the route, or leave it.
read_route :
    (s : Settings) (now : ℕ) (r : Route)
    → ((retry_after s now r).0 ≡ advance s now r) ⊎ ((retry_after s now r).0 ≡ r)
unfolding retry_after
read_route s now r = ground arith

retry_after-keeps :
    (s : Settings) (now : ℕ) (r : Route) (i : ℕ)
    → slots_at (retry_after s now r).0.keys i ≡ slots_at r.keys i
retry_after-keeps s now r i = ground (arith, read_route s now r, slots_at-advance s now r i)

retry_after-IsSound :
    (s : Settings) (now : ℕ) (r : Route)
    → 0 < s.budget.soft_ratio.num
    → IsSound s r
    → IsSound s (retry_after s now r).0
retry_after-IsSound s now r h v = elim (read_route s now r) [
  | inl e ↦ rw e (advance-IsSound s now r h v)
  | inr e ↦ rw e v
]

-- The invariant of a whole system, at settings given apart.
abbrev pub Kept : {P : Type 0} → Settings → System P → Type 0
Kept s z = IsGood s z.store.routes z.leases

module _ {P : Type 0} (select : P → List KeyState → P × ℤ) (y : System P) where
  pub acquire-IsGood :
      (now : ℕ) (name : String)
      → 0 < y.store.settings.budget.soft_ratio.num
      → Kept y.store.settings y
      → Kept y.store.settings (step select y (now, acquires name))
  acquire-IsGood now name h v = record {
    alive = acquire-IsLive select now name y v.alive;
    sound = elim (Option-cases (lookup name y.store.routes)) [
      | inl e ↦ rw (acquire_none select now name y e) v.sound
      | inr (r, e) ↦
          let st = y.store in
          let s = st.settings in
          let r_sound = AllValues-lookup (IsSound s) name st.routes v.sound e in
          rw (acquire_some select now name y r e).0 (
            AllValues-adjust (IsSound s) name _ st.routes
              (record {
                capped = reserve-IsCapped select s now st.policy st.fallback r r_sound.capped;
                flagged = reserve-IsFlagged select s now st.policy st.fallback r h r_sound.flagged;
              })
              v.sound)
    ];
  }

  pub settle-IsGood :
      (now j : ℕ) (u : UsageSample)
      → 0 < y.store.settings.budget.soft_ratio.num
      → Kept y.store.settings y
      → Kept y.store.settings (settle_at now j u y)
  settle-IsGood now j u h v = record {
    alive = settle-IsLive now j u y v.alive;
    sound =
        settle_cases (λ m _. AllValues (IsSound y.store.settings) m) now j u y v.alive v.sound
          (λ _ _ _. v.sound)
          (λ l r _ at held _.
            let s = y.store.settings in
            let r_sound = AllValues-lookup (IsSound s) l.route y.store.routes v.sound at in
            AllValues-adjust (IsSound s) l.route _ y.store.routes
              (record {
                capped = record_sample-IsCapped s now l.index u r held r_sound.capped;
                flagged = record_sample-IsFlagged s now l.index u r h r_sound.flagged;
              })
              v.sound);
  }

  pub retires-IsGood :
      (now : ℕ) (name : String) (idx : ℤ) (until : ℕ) (x : Option RetireReason)
      → 0 < y.store.settings.budget.soft_ratio.num
      → Kept y.store.settings y
      → Kept y.store.settings (step select y (now, retires name idx until x))
  unfolding step retire_with_reason_at
  retires-IsGood now name idx until x h v =
      let s = y.store.settings in
      on_index-IsGood y.store s y.leases name idx (λ i. retire_with_reason s now i until x)
        (λ k r i. retire_slots s now k i until x r)
        (λ k r q. record {
          capped = retire_with_reason-IsCapped s now k until x r q.capped;
          flagged = retire_with_reason-IsFlagged s now k until x r h q.flagged;
        })
        v

  pub retires_for_window-IsGood :
      (now : ℕ) (name : String) (idx : ℤ) (x : Option RetireReason)
      → 0 < y.store.settings.budget.soft_ratio.num
      → Kept y.store.settings y
      → Kept y.store.settings (step select y (now, retires_for_window name idx x))
  unfolding step retire_for_window_at
  retires_for_window-IsGood now name idx x h v =
      let s = y.store.settings in
      on_index-IsGood y.store s y.leases name idx (λ i. retire_for_window s now i x)
        (λ k r i. retire_for_window_slots s now k i x r)
        (λ k r q. record {
          capped = retire_for_window-IsCapped s now k x r q.capped;
          flagged = retire_for_window-IsFlagged s now k x r h q.flagged;
        })
        v

  pub asks-IsGood :
      (now : ℕ) (name : String)
      → 0 < y.store.settings.budget.soft_ratio.num
      → Kept y.store.settings y
      → Kept y.store.settings (step select y (now, asks_retry_after name))
  unfolding step retry_after_at
  asks-IsGood now name h v = elim (Option-cases (lookup name y.store.routes)) [
    | inl e ↦ rw (e, retry_after_at) v
    | inr (r, e) ↦
        let s = y.store.settings in
        rw (e, retry_after_at)
          (replaced-IsGood s y.store.routes y.leases name r _ e (retry_after-keeps s now r)
            (retry_after-IsSound s now r h) v)
  ]

  pub snapshots-IsGood :
      (now : ℕ) (name : String)
      → 0 < y.store.settings.budget.soft_ratio.num
      → Kept y.store.settings y
      → Kept y.store.settings (step select y (now, snapshots name))
  unfolding step snapshot_at snapshot
  snapshots-IsGood now name h v = elim (Option-cases (lookup name y.store.routes)) [
    | inl e ↦ rw (e, snapshot_at) v
    | inr (r, e) ↦
        let s = y.store.settings in
        rw (e, snapshot_at)
          (replaced-IsGood s y.store.routes y.leases name r _ e (slots_at-advance s now r)
            (advance-IsSound s now r h) v)
  ]
