-- ===== src/Startup/Matching.antt =====
-- Which route a path is served by.
use llm_cluster_router.Prelude.{
  ℕ, ◌≡◌, ◌≤◌, inl, inr, List, [], ◌∷◌, some, true, ltb, length, get_elem?, All, All-imp,
  All-get_elem?, Bool-cases, some_inj, subst, arith,
}
use llm_cluster_router.Prelude.Bytes.{starts_with}
use llm_cluster_router.Startup.Server.{BoundRoute, insert_route, longest_first, match_route}

abbrev NoLonger : BoundRoute → BoundRoute → Type 0
NoLonger b c = length c.route.prefix ≤ length b.route.prefix

abbrev IsLongestFirst : List BoundRoute → Type 0
IsLongestFirst [] = Unit
IsLongestFirst (b ∷ bs) = All (NoLonger b) bs × IsLongestFirst bs

pub insert_route-All :
    (P : BoundRoute → Type 0) (b : BoundRoute) (bs : List BoundRoute)
    → P b
    → All P bs
    → All P (insert_route b bs)
unfolding insert_route
insert_route-All P b [] p h = (p, tt)
insert_route-All P b (c ∷ cs) p h =
    elim (Bool-cases (ltb (length b.route.prefix) (length c.route.prefix))) [
      | inl e ↦ rw e (h.0, insert_route-All P b cs p h.1)
      | inr e ↦ rw e (p, h)
    ]

insert_route-IsLongestFirst :
    (b : BoundRoute) (bs : List BoundRoute) → IsLongestFirst bs → IsLongestFirst (insert_route b bs)
unfolding insert_route
insert_route-IsLongestFirst b [] h = (tt, tt)
insert_route-IsLongestFirst b (c ∷ cs) h =
    elim (Bool-cases (ltb (length b.route.prefix) (length c.route.prefix))) [
      | inl e ↦ rw e (
        insert_route-All (NoLonger c) b cs (ground (arith, e)) h.0,
        insert_route-IsLongestFirst b cs h.1,
      )
      | inr e ↦
          let longer : NoLonger b c = ground (arith, e) in
          rw e (
            (longer, All-imp (NoLonger c) (NoLonger b) cs (λ d g. omega (arith, g, longer)) h.0),
            h,
          )
    ]

longest_first-IsLongestFirst : (bs : List BoundRoute) → IsLongestFirst (longest_first bs)
unfolding longest_first
longest_first-IsLongestFirst [] = tt
longest_first-IsLongestFirst (b ∷ bs) =
    insert_route-IsLongestFirst b (longest_first bs) (longest_first-IsLongestFirst bs)

-- What holds of the sorted routes holds of the routes.
insert_route-All_back :
    (P : BoundRoute → Type 0) (b : BoundRoute) (bs : List BoundRoute)
    → All P (insert_route b bs)
    → P b × All P bs
unfolding insert_route
insert_route-All_back P b [] h = (h.0, tt)
insert_route-All_back P b (c ∷ cs) h =
    elim (Bool-cases (ltb (length b.route.prefix) (length c.route.prefix))) [
      | inl e ↦
          let split : All P (c ∷ insert_route b cs) = rw e at h in
          let later = insert_route-All_back P b cs split.1 in (later.0, (split.0, later.1))
      | inr e ↦ let split : All P (b ∷ c ∷ cs) = rw e at h in split
    ]

longest_first-All_back :
    (P : BoundRoute → Type 0) (bs : List BoundRoute) → All P (longest_first bs) → All P bs
unfolding longest_first
longest_first-All_back P [] h = tt
longest_first-All_back P (b ∷ bs) h =
    let (now, later) = insert_route-All_back P b (longest_first bs) h in
    (now, longest_first-All_back P bs later)

-- A route whose prefix matches has no longer one than `b`.
abbrev Beaten : List ℕ → BoundRoute → BoundRoute → Type 0
Beaten path b c = starts_with path c.route.prefix ≡ true → NoLonger b c

match_route-Beaten :
    (path : List ℕ) (bs : List BoundRoute) {b : BoundRoute}
    → IsLongestFirst bs
    → match_route path bs ≡ some b
    → (starts_with path b.route.prefix ≡ true) × All (Beaten path b) bs
unfolding match_route
match_route-Beaten path [] s h = absurd (ground (arith, h))
match_route-Beaten path (c ∷ cs) {b} s h = elim (Bool-cases (starts_with path c.route.prefix)) [
  | inl e ↦
      subst (λ x. (starts_with path x.route.prefix ≡ true) × All (Beaten path x) (c ∷ cs))
        (some_inj (rw e at h))
        (e, ((λ _. omega arith), All-imp (NoLonger c) (Beaten path c) cs (λ d g _. g) s.0))
  | inr e ↦
      let later = match_route-Beaten path cs s.1 (rw e at h) in
      (later.0, ((λ m. absurd (cc)), later.1))
]

-- The route that serves a path has a prefix of the path, and no route whose prefix matches has a longer
-- one, however the configuration orders them.
pub match_route-longest :
    (path : List ℕ) (bs : List BoundRoute) (b : BoundRoute) (i : ℕ) (c : BoundRoute)
    → match_route path (longest_first bs) ≡ some b
    → get_elem? bs i ≡ some c
    → starts_with path c.route.prefix ≡ true
    → (starts_with path b.route.prefix ≡ true) × (length c.route.prefix ≤ length b.route.prefix)
match_route-longest path bs b i c h at_i m =
    let found = match_route-Beaten path (longest_first bs) (longest_first-IsLongestFirst bs) h in
    let all = longest_first-All_back (Beaten path b) bs found.1 in
    (found.0, All-get_elem? (Beaten path b) bs i all at_i m)
