-- ===== src/Startup/Ready.antt =====
-- What a gateway that is ready to serve is, and the steps that make it so.
use llm_cluster_router.Prelude.{
  ℕ, ◌≡◌, ◌≢◌, ◌≤◌, ◌==◌, refl, sym, ap, ◌⊎◌, inl, inr, List, [], ◌∷◌, some, get_elem?, ltb, zero,
  suc, ◌∙◌, map, Bool, true, false, not, ◌&&◌, length, All, Bool-cases, subst, arith,
}
use llm_cluster_router.Prelude.Bytes.{bytes_eq, trim_space}
use llm_cluster_router.Prelude.Texts.{bytes_eq_refl, trim_space-IsTrimmed}
use llm_cluster_router.Config.Route.{
  RouteConfig, AuthMode, auth_inject, auth_header_inject, auth_passthrough, auth_other,
}
use llm_cluster_router.Config.Auth.{has_token}
use llm_cluster_router.Config.Whole.{Config}
use llm_cluster_router.Secrets.Resolver.{FirstResolution, none_named, all_failed, first_of}
use llm_cluster_router.Secrets.Runs.{IsUsable}
use llm_cluster_router.Secrets.Slots.{AllDistinct, UsableFirst}
use llm_cluster_router.Startup.{
  Authenticator, bearer_injector, leased_injector, rotating_injector, passthrough, StartError,
  Started, not_started, started, single_key, with_key, mode_of,
}
use llm_cluster_router.Startup.Matching.{insert_route-All}
use llm_cluster_router.Startup.Server.{
  BoundRoute, Server, longest_first, insert_route, enabled_routes, add_route, token_of,
  with_proxy_token, and_then,
}

-- An authenticator that can serve: its key, or each key of its pool, is trimmed and not empty; a pool
-- has as many keys as its store, at least one, and no two the same.
abbrev pub IsReady : Authenticator → Type 0
IsReady (bearer_injector key) = IsUsable key
IsReady (leased_injector l) = IsUsable l.key
IsReady (rotating_injector r) =
    (length r.keys ≡ r.store_size) × (1 ≤ length r.keys) × All IsUsable r.keys × AllDistinct r.keys
IsReady passthrough = Unit {0}

pub started_inj : {A : Type 0} {a b : A} → started a ≡ started b → a ≡ b
started_inj h = cc

-- The four modes, with the equation.
AuthMode-cases :
    (m : AuthMode)
    → (m ≡ auth_inject) ⊎ (m ≡ auth_header_inject) ⊎ (m ≡ auth_passthrough) ⊎ (m ≡ auth_other)
AuthMode-cases auth_inject = inl refl
AuthMode-cases auth_header_inject = inr (inl refl)
AuthMode-cases auth_passthrough = inr (inr (inl refl))
AuthMode-cases auth_other = inr (inr (inr refl))

pub single_key-IsReady :
    (r : RouteConfig) (key : List ℕ) → IsUsable key → IsReady (single_key r key)
unfolding single_key
single_key-IsReady r key h = elim (AuthMode-cases r.auth) [
  | inl e ↦ rw e h
  | inr (inl e) ↦ rw e h
  | inr (inr (inl e)) ↦ rw e h
  | inr (inr (inr e)) ↦ rw e h
]

pub with_key-IsReady :
    (r : RouteConfig) (first : FirstResolution) {a : Authenticator}
    → UsableFirst first
    → with_key r first ≡ started a
    → IsReady a
unfolding with_key
with_key-IsReady r none_named u h = absurd (ground (arith, h))
with_key-IsReady r (all_failed errs) u h = absurd (ground (arith, h))
with_key-IsReady r (first_of key) u h = elim (Bool-cases (length (trim_space key) == 0)) [
  | inl e ↦ absurd (ground (arith, rw e at h))
  | inr e ↦ subst IsReady (started_inj (rw e at h)) (single_key-IsReady r key u)
]

-- The two modes in which the gateway holds the credential.
abbrev pub IsInjecting : AuthMode → Type 0
IsInjecting m = (m ≡ auth_inject) ⊎ (m ≡ auth_header_inject)

single_key-mode :
    (r : RouteConfig) (key : List ℕ) → IsInjecting r.auth → mode_of (single_key r key) ≡ r.auth
unfolding single_key mode_of
single_key-mode r key (inl e) = rw e refl
single_key-mode r key (inr e) = rw e refl

pub with_key-mode :
    (r : RouteConfig) (first : FirstResolution) {a : Authenticator}
    → IsInjecting r.auth
    → with_key r first ≡ started a
    → mode_of a ≡ r.auth
unfolding with_key
with_key-mode r none_named m h = absurd (ground (arith, h))
with_key-mode r (all_failed errs) m h = absurd (ground (arith, h))
with_key-mode r (first_of key) m h = elim (Bool-cases (length (trim_space key) == 0)) [
  | inl e ↦ absurd (ground (arith, rw e at h))
  | inr e ↦ subst (λ a. mode_of a ≡ r.auth) (started_inj (rw e at h)) (single_key-mode r key m)
]

-- A token that is set exactly when it is configured.
abbrev pub TokenFor : Bool → List ℕ → Type 0
TokenFor true token = IsUsable token
TokenFor false token = token ≡ []

abbrev pub Apart : Bool → List ℕ → List ℕ → Type 0
Apart true a b = a ≢ b
Apart false a b = Unit {0}

-- A route that was bound with its own mode and with what the mode needs.
abbrev pub IsBound : BoundRoute → Type 0
IsBound b = IsReady b.auth × (mode_of b.auth ≡ b.route.auth)

-- Whether a route is among those that a server matches.
abbrev pub IsServed : List BoundRoute → RouteConfig → Type 0
IsServed bs r = (i : ℕ) × (b : BoundRoute) × (get_elem? bs i ≡ some b) × (b.route ≡ r)

pub record IsReadyServer (cfg : Config) (srv : Server) : Type 0 where
  pub routes_ready : All IsBound srv.routes
  pub routes_served : All (IsServed srv.routes) (enabled_routes cfg.routes)
  pub routes_counted : length srv.routes ≡ length (enabled_routes cfg.routes)
  pub connect_token : TokenFor cfg.connect.enabled srv.conn_token
  pub gateway_token : TokenFor (has_token cfg.gateway_auth) srv.proxy_token
  pub tokens_differ : Apart (has_token cfg.gateway_auth) srv.proxy_token srv.conn_token

pub differs : (a b : List ℕ) → 1 ≤ length a → (1 ≤ length b → a ≢ b) → a ≢ b
differs a [] h k same = omega (arith, ap (λ l. length l) same)
differs a (b ∷ bs) h k same = k (omega arith) same

-- What was bound is matched.
insert_route-served :
    (b : BoundRoute) (bs : List BoundRoute) → (i : ℕ) × (get_elem? (insert_route b bs) i ≡ some b)
unfolding insert_route
insert_route-served b [] = (0, refl)
insert_route-served b (c ∷ cs) =
    elim (Bool-cases (ltb (length b.route.prefix) (length c.route.prefix))) [
      | inl e ↦ let (i, at) = insert_route-served b cs in rw e (suc i, at)
      | inr e ↦ rw e (0, refl)
    ]

insert_route-keeps :
    (b : BoundRoute) (bs : List BoundRoute) (i : ℕ) {c : BoundRoute}
    → get_elem? bs i ≡ some c
    → (j : ℕ) × (get_elem? (insert_route b bs) j ≡ some c)
unfolding insert_route
insert_route-keeps b [] i at = absurd (ground (arith, at))
insert_route-keeps b (d ∷ ds) zero at =
    elim (Bool-cases (ltb (length b.route.prefix) (length d.route.prefix))) [
      | inl e ↦ rw e (0, at)
      | inr e ↦ rw e (1, at)
    ]
insert_route-keeps b (d ∷ ds) (suc i) at =
    elim (Bool-cases (ltb (length b.route.prefix) (length d.route.prefix))) [
      | inl e ↦ let (j, there) = insert_route-keeps b ds i at in rw e (suc j, there)
      | inr e ↦ rw e (suc (suc i), at)
    ]

length-insert_route :
    (b : BoundRoute) (bs : List BoundRoute) → length (insert_route b bs) ≡ suc (length bs)
unfolding insert_route
length-insert_route b [] = refl
length-insert_route b (c ∷ cs) =
    elim (Bool-cases (ltb (length b.route.prefix) (length c.route.prefix))) [
      | inl e ↦ rw e (ap suc (length-insert_route b cs))
      | inr e ↦ rw e refl
    ]

pub length-longest_first : (bs : List BoundRoute) → length (longest_first bs) ≡ length bs
unfolding longest_first
length-longest_first [] = refl
length-longest_first (b ∷ bs) =
    length-insert_route b (longest_first bs) ∙ ap suc (length-longest_first bs)

longest_first-served :
    (bs : List BoundRoute) (i : ℕ) {b : BoundRoute}
    → get_elem? bs i ≡ some b
    → (j : ℕ) × (get_elem? (longest_first bs) j ≡ some b)
unfolding longest_first
longest_first-served [] i at = absurd (ground (arith, at))
longest_first-served (c ∷ cs) zero at =
    let (j, there) = insert_route-served c (longest_first cs) in (j, there ∙ at)
longest_first-served (c ∷ cs) (suc i) at =
    let (j, there) = longest_first-served cs i at in insert_route-keeps c (longest_first cs) j there

-- Routes whose bindings all stand in a list are served from it.
routes-IsServed :
    (bs cs : List BoundRoute)
    → ((i : ℕ) (b : BoundRoute) → get_elem? cs i ≡ some b → (j : ℕ) × (get_elem? bs j ≡ some b))
    → All (IsServed bs) (map (λ b. b.route) cs)
routes-IsServed bs [] k = tt
routes-IsServed bs (c ∷ cs) k =
    let (j, there) = k 0 c refl in
    ((j, c, there, refl), routes-IsServed bs cs (λ i b at. k (suc i) b at))

pub longest_first-IsServed :
    (bs : List BoundRoute) → All (IsServed (longest_first bs)) (map (λ b. b.route) bs)
longest_first-IsServed bs =
    routes-IsServed (longest_first bs) bs (λ i b at. longest_first-served bs i at)

pub longest_first-All :
    (P : BoundRoute → Type 0) (bs : List BoundRoute) → All P bs → All P (longest_first bs)
unfolding longest_first
longest_first-All P [] h = tt
longest_first-All P (b ∷ bs) h =
    insert_route-All P b (longest_first bs) h.0 (longest_first-All P bs h.1)

pub Started-cases :
    {A : Type 0} (x : Started A)
    → ((e : StartError) × (x ≡ not_started e)) ⊎ ((a : A) × (x ≡ started a))
Started-cases (not_started e) = inl (e, refl)
Started-cases (started a) = inr (a, refl)

pub add_route-started :
    (r : RouteConfig) (a : Authenticator) (rest : Started (List BoundRoute)) {bs : List BoundRoute}
    → add_route r (started a) rest ≡ started bs
    → (cs : List BoundRoute) × (rest ≡ started cs) × (bs ≡ record { route = r; auth = a } ∷ cs)
unfolding add_route
add_route-started r a (not_started e) h = absurd (ground (arith, h))
add_route-started r a (started cs) h = (cs, refl, sym (started_inj h))

pub and_then-started :
    {A B : Type 0} (x : Started A) (f : A → Started B) {b : B}
    → and_then x f ≡ started b
    → (a : A) × (x ≡ started a) × (f a ≡ started b)
and_then-started (not_started e) f h = absurd (cc h)
and_then-started (started a) f h = (a, refl, h)

pub token_of-IsUsable :
    (unresolved : FirstResolution → StartError) (blank : StartError) (first : FirstResolution)
    {tok : List ℕ}
    → token_of unresolved blank first ≡ started tok
    → IsUsable tok
unfolding token_of
token_of-IsUsable unresolved blank none_named h = absurd (cc h)
token_of-IsUsable unresolved blank (all_failed errs) h = absurd (cc h)
token_of-IsUsable unresolved blank (first_of t) h = elim (Bool-cases (length (trim_space t) == 0)) [
  | inl e ↦ absurd (ground (arith, rw e at h))
  | inr e ↦ subst IsUsable (started_inj (rw e at h)) (trim_space-IsTrimmed t, ground arith)
]

pub with_proxy_token-started :
    (tok : List ℕ) (srv : Server) {srv' : Server}
    → with_proxy_token tok srv ≡ started srv'
    → (srv' ≡ record srv { proxy_token = tok }) × (1 ≤ length srv.conn_token → tok ≢ srv.conn_token)
unfolding with_proxy_token
with_proxy_token-started tok srv h =
    elim (Bool-cases (not (length srv.conn_token == 0) && bytes_eq tok srv.conn_token)) [
      | inl e ↦ absurd (ground (arith, rw e at h))
      | inr e ↦ (
        sym (started_inj (rw e at h)),
        (λ some_token same.
            let equal : bytes_eq tok srv.conn_token ≡ true =
              subst (λ t. bytes_eq tok t ≡ true) same (bytes_eq_refl tok) in
            absurd (ground (arith, e, equal, some_token))),
      )
    ]
