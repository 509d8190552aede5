-- ===== src/Gateway/Overlapped.antt =====
-- What holds of requests that overlap.
use llm_cluster_router.Prelude.{
  ℕ, suc, ◌≡◌, refl, sym, ◌∙◌, ap, subst, List, [], ◌∷◌, ◌++◌, Option, none, some, String, true,
  get_elem?, modify, map, All, All-get_elem?, inl, inr, arith,
}
use llm_cluster_router.Prelude.Int.{ℤ}
use llm_cluster_router.Rotation.Types.{KeyState}
use llm_cluster_router.Rotation.Store.{KeyLease, Options}
use llm_cluster_router.Rotation.System.{System, new_system, run}
use llm_cluster_router.Rotation.System.Leases.{slots_in, live}
use llm_cluster_router.Rotation.System.Runs.{run_slots}
use llm_cluster_router.Gateway.Request.{PoolRoute, Forwarded}
use llm_cluster_router.Gateway.Runs.{run-append}
use llm_cluster_router.Gateway.Overlap.{Handler, waiting, finished, handle, overlap_step, overlap}
use llm_cluster_router.Gateway.Overlap.Leases.{holds, IsCared, handle-Moves, moved-IsCared}
use llm_cluster_router.Gateway.Overlap.Calls.{Calls, no_call, handle-Calls}

module _ {P : Type 0} (select : P → List KeyState → P × ℤ) where
  overlap_step-IsCared :
      (now i : ℕ) (f : Forwarded) (y : System P) (hs : List Handler)
      → IsCared select (y, hs)
      → IsCared select (overlap_step select (now, i, f) (y, hs))
        × Calls select y (overlap_step select (now, i, f) (y, hs)).0
  unfolding overlap_step
  overlap_step-IsCared now i f y hs v = go (get_elem? hs i) refl
    where
      go :
          (o : Option Handler)
          → get_elem? hs i ≡ o
          → let x = (elim o as (λ _. System P × List Handler) [
            | none ↦ (y, hs)
            | some h ↦ ((handle select f now h y).0, modify hs i (λ _. (handle select f now h y).1))
          ]) in
            IsCared select x × Calls select y x.0
      go none e = (v, no_call select y)
      go (some h) e = (
        moved-IsCared select y hs i h (handle select f now h y) e (handle-Moves select f now h y) v,
        handle-Calls select f now h y,
      )

  overlap-IsCared :
      (ss : List (ℕ × ℕ × Forwarded)) (x : System P × List Handler)
      → IsCared select x
      → IsCared select (overlap select ss x) × Calls select x.0 (overlap select ss x).0
  unfolding overlap
  overlap-IsCared [] x v = (v, no_call select x.0)
  overlap-IsCared ((now, i, f) ∷ ss) (y, hs) v =
      let (cared, (cs, d)) = overlap_step-IsCared now i f y hs v in
      let (still, (ds, g)) = overlap-IsCared ss (overlap_step select (now, i, f) (y, hs)) cared in
      (still, (cs ++ ds, run-append select y cs ds ∙ ap (λ z. run select z ds) d ∙ g))

  live-once :
      (name : String) (i : ℕ) (ls : List KeyLease)
      → ((j : ℕ) (l : KeyLease) → get_elem? ls j ≡ some l → l.once ≡ true)
      → live name i ls ≡ 0
  unfolding live
  live-once name i [] k = refl
  live-once name i (l ∷ ls) k =
      ground (arith, k 0 l refl, live-once name i ls (λ j m at. k (suc j) m at))

  module _ (o : Options) (policy : P) (start : ℕ) (keys : List (String × ℤ))
      (routes : List PoolRoute) (ss : List (ℕ × ℕ × Forwarded)) where
    -- Requests for these routes, after the steps of a schedule.
    abbrev pub overlapped : System P × List Handler
    overlapped = overlap select ss (new_system o policy start keys, map waiting routes)

    overlapped-IsCared :
        IsCared select overlapped × Calls select (new_system o policy start keys) overlapped.0
    unfolding new_system
    overlapped-IsCared =
        overlap-IsCared ss (new_system o policy start keys, map waiting routes)
          (λ j l at. absurd (ground (arith, at)))

    overlapped-slots :
        (name : String) (i : ℕ)
        → slots_in overlapped.0.store.routes name i ≡ live name i overlapped.0.leases
    overlapped-slots name i =
        let (cs, e) = overlapped-IsCared.1 in
        subst (λ y. slots_in y.store.routes name i ≡ live name i y.leases) e
          (run_slots select o policy start keys cs name i)

    -- However the requests of a gateway overlap, once all of them have ended, in whatever way each one
    -- did, every slot of every key is given back: none stays reserved.
    pub overlap-no_leak :
        (name : String) (i : ℕ)
        → All (λ h. h ≡ finished) overlapped.1
        → slots_in overlapped.0.store.routes name i ≡ 0
    overlap-no_leak name i all =
        overlapped-slots name i
        ∙ live-once name i overlapped.0.leases (λ j l at. elim (overlapped-IsCared.0 j l at) [
          | inl once ↦ once
          | inr (k, h, there, held) ↦
              let ended = All-get_elem? (λ h. h ≡ finished) overlapped.1 k all there in
              let none_held : none ≡ some j = ap holds (sym ended) ∙ held in
              absurd (ground (arith, none_held))
        ])
