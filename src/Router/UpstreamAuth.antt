-- ===== src/Router/UpstreamAuth.antt =====
-- `setUpstreamAuth` of main.go.
use llm_cluster_router.Prelude.{
  ℕ, ◌≡◌, ◌≤◌, refl, inl, inr, List, [], ◌∷◌, ◌++◌, false, ◌==◌, if◌then◌else◌, length, All,
  Bool-cases, arith,
}
use llm_cluster_router.Startup.{
  Headers, equal_fold, delete_header, set_header, authorization, bearer,
}

-- `setUpstreamAuth`, for the headers that were copied from the caller.
unfoldable pub set_upstream_auth : Headers → List ℕ → List ℕ → Headers
unfolding delete_header set_header
set_upstream_auth hs auth_header key =
    if length auth_header == 0
    then (if length key == 0 then hs else set_header authorization (bearer ++ key) hs)
    else (let scrubbed = delete_header auth_header (delete_header authorization hs) in
        if length key == 0 then scrubbed else set_header auth_header key scrubbed)

-- A header that has another name, in whatever case.
abbrev pub Other : List ℕ → List ℕ × List ℕ → Type 0
Other name h = equal_fold h.0 name ≡ false

delete_header-All :
    (P : List ℕ × List ℕ → Type 0) (name : List ℕ) (hs : Headers)
    → All P hs
    → All P (delete_header name hs)
unfolding delete_header
delete_header-All P name [] h = tt
delete_header-All P name ((n, v) ∷ hs) h = elim (Bool-cases (equal_fold n name)) [
  | inl e ↦ rw e (delete_header-All P name hs h.1)
  | inr e ↦ rw e (h.0, delete_header-All P name hs h.1)
]

delete_header-Other : (name : List ℕ) (hs : Headers) → All (Other name) (delete_header name hs)
unfolding delete_header
delete_header-Other name [] = tt
delete_header-Other name ((n, v) ∷ hs) = elim (Bool-cases (equal_fold n name)) [
  | inl e ↦ rw e (delete_header-Other name hs)
  | inr e ↦ rw e (e, delete_header-Other name hs)
]

-- The header in which a node takes its key, and what is written there.
abbrev pub key_header : List ℕ → List ℕ
key_header auth_header = if length auth_header == 0 then authorization else auth_header

abbrev pub key_value : List ℕ → List ℕ → List ℕ
key_value auth_header key = if length auth_header == 0 then bearer ++ key else key

keyed : (key : List ℕ) → 1 ≤ length key → (length key == 0) ≡ false
keyed key h = ground (arith, h)

-- With a key, the upstream request carries it in the header of the node, once, and neither an
-- Authorization header of the caller nor another one of that name, in whatever case it is spelled.
pub set_upstream_auth-replaces :
    (hs : Headers) (auth_header key : List ℕ)
    → 1 ≤ length key
    → (rest : Headers) × (set_upstream_auth hs auth_header key
        ≡ (key_header auth_header, key_value auth_header key) ∷ rest)
      × All (Other (key_header auth_header)) rest
      × All (Other authorization) rest
unfolding set_upstream_auth set_header
set_upstream_auth-replaces hs auth_header key has = elim (Bool-cases (length auth_header == 0)) [
  | inl e ↦
      rw (e, keyed key has)
        (
          delete_header authorization hs,
          refl,
          delete_header-Other authorization hs,
          delete_header-Other authorization hs,
        )
  | inr e ↦
      let scrubbed = delete_header authorization hs in
      let once = delete_header auth_header scrubbed in
      let clean =
        delete_header-All (Other authorization) auth_header scrubbed
          (delete_header-Other authorization hs) in
      rw (e, keyed key has)
        (
          delete_header auth_header once,
          refl,
          delete_header-Other auth_header once,
          delete_header-All (Other authorization) auth_header once clean,
        )
]
