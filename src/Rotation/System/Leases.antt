-- ===== src/Rotation/System/Leases.antt =====
-- The slots of the store and the unsettled leases of its callers, counted key by key.
use text.Mathlib.TextEquality.{eq_iff}
use llm_cluster_router.Prelude.{
  ℕ, zero, suc, ◌+◌, ◌≡◌, ◌<◌, List, [], ◌∷◌, ◌++◌, none, some, String, Bool, true, false, ◌&&◌,
  not, ◌==◌ as nat_eq, if◌then◌else◌, get_elem?, modify, arith,
}
use llm_cluster_router.Prelude.Maps.{◌==◌, lookup, adjust, lookup-adjust}
use llm_cluster_router.Rotation.Types.{Route}
use llm_cluster_router.Rotation.Route.Slots.{slots_at}
use llm_cluster_router.Rotation.Store.{KeyLease}

-- The slots of a key of a named route.
unfoldable pub slots_in : List (String × Route) → String → ℕ → ℕ
slots_in m name i = elim (lookup name m) [ none ↦ 0 | some r ↦ slots_at r.keys i ]

-- A lease that is not settled, on this key of this route.
abbrev pub is_live : String → ℕ → KeyLease → Bool
is_live name i l = not l.once && (l.route == name && nat_eq l.index i)

unfoldable pub live : String → ℕ → List KeyLease → ℕ
live name i [] = 0
live name i (l ∷ ls) = (if is_live name i l then 1 else 0) + live name i ls

pub slots_in-lookup :
    (m : List (String × Route)) (name : String) (i : ℕ) {r : Route}
    → lookup name m ≡ some r
    → slots_in m name i ≡ slots_at r.keys i
unfolding slots_in
slots_in-lookup m name i h = rw (h, slots_in)

pub slots_in-none :
    (m : List (String × Route)) (name : String) (i : ℕ)
    → lookup name m ≡ none
    → ¬ (0 < slots_in m name i)
unfolding slots_in
slots_in-none m name i h p = ground (arith, h)

pub slots_in-adjust :
    (m : List (String × Route)) (k j : String) (i : ℕ) (r r' : Route)
    → lookup k m ≡ some r
    → slots_in (adjust k (λ _. r') m) j i ≡ (if k == j then slots_at r'.keys i else slots_in m j i)
unfolding slots_in
slots_in-adjust m k j i r r' h = ground (arith, lookup-adjust k j (λ _. r') m, eq_iff k j)

-- A change of one route that keeps its slots keeps all slots.
pub slots_in_kept :
    (m : List (String × Route)) (k j : String) (i : ℕ) (r r' : Route)
    → lookup k m ≡ some r
    → slots_at r'.keys i ≡ slots_at r.keys i
    → slots_in (adjust k (λ _. r') m) j i ≡ slots_in m j i
slots_in_kept m k j i r r' h e =
    ground (arith, slots_in-adjust m k j i r r' h, slots_in-lookup m k i h, eq_iff k j)

pub live-append :
    (name : String) (i : ℕ) (ls : List KeyLease) (l : KeyLease)
    → live name i (ls ++ l ∷ []) ≡ live name i ls + (if is_live name i l then 1 else 0)
unfolding live
live-append name i [] l = omega arith
live-append name i (x ∷ ls) l = omega (arith, live-append name i ls l)

-- Settling the lease at a position.
pub live-modify :
    (name : String) (i j : ℕ) (ls : List KeyLease) (l l' : KeyLease)
    → get_elem? ls j ≡ some l
    → is_live name i l' ≡ false
    → live name i (modify ls j (λ _. l')) + (if is_live name i l then 1 else 0) ≡ live name i ls
unfolding live
live-modify name i j [] l l' h d = ground arith
live-modify name i zero (x ∷ ls) l l' h d = ground arith
live-modify name i (suc j) (x ∷ ls) l l' h d = omega (arith, live-modify name i j ls l l' h d)

pub live_pos :
    (name : String) (i j : ℕ) (ls : List KeyLease) (l : KeyLease)
    → get_elem? ls j ≡ some l
    → is_live name i l ≡ true
    → 0 < live name i ls
unfolding live
live_pos name i j [] l h d = ground arith
live_pos name i zero (x ∷ ls) l h d = ground arith
live_pos name i (suc j) (x ∷ ls) l h d = omega (arith, live_pos name i j ls l h d)
