-- ===== src/Secrets/Sticky.antt =====
-- That a value which was resolved stays.
use llm_cluster_router.Prelude.{
  ℕ, ◌≡◌, refl, inl, inr, List, [], ◌∷◌, none, some, Bool-cases, Option-cases, subst,
}
use llm_cluster_router.Prelude.Bytes.{bytes_eq}
use llm_cluster_router.Prelude.Texts.{bytes_eq_sound, bytes_eq_refl}
use llm_cluster_router.Secrets.{Resolution, failed, resolved, secret_err, ref_scheme}
use llm_cluster_router.Secrets.Resolver.{
  Providers, Cache, cached, store, keep, resolve_once, resolve_missed, resolve,
}
use llm_cluster_router.Secrets.Runs.{Call, answer, run}

-- A stored value stays.
keep-cached :
    (c : Cache) (own ref : List ℕ) (r : Resolution) {v : List ℕ}
    → cached own c ≡ none
    → cached ref c ≡ some v
    → cached ref (keep c own r).0 ≡ some v
unfolding keep store
keep-cached c own ref (failed e) miss h = h
keep-cached c own ref (resolved []) miss h = h
keep-cached c own ref (resolved (b ∷ bs)) miss h = elim (Bool-cases (bytes_eq own ref)) [
  | inl same ↦
      let missing : cached ref c ≡ none =
        subst (λ x. cached x c ≡ none) (bytes_eq_sound own ref same) miss in
      cc
  | inr other ↦ unfold cached in rw other h
]

resolve_once-cached :
    (p : List ℕ → Resolution) (c : Cache) (own ref : List ℕ) {v : List ℕ}
    → cached ref c ≡ some v
    → cached ref (resolve_once p c own).0 ≡ some v
unfolding resolve_once
resolve_once-cached p c own ref h = elim (Option-cases (cached own c)) [
  | inl miss ↦ rw (miss, resolve_once) (keep-cached c own ref (p own) miss h)
  | inr (w, hit) ↦ rw (hit, resolve_once) h
]

missed-cached :
    (ps : Providers) (c : Cache) (own ref : List ℕ) {v : List ℕ}
    → cached ref c ≡ some v
    → cached ref (resolve_missed ps c own).0 ≡ some v
unfolding resolve_missed
missed-cached ps c own ref h = elim (Option-cases (ref_scheme own)) [
  | inl e ↦ rw e h
  | inr (s, e) ↦ elim (Option-cases (ps s)) [
    | inl e' ↦ rw (e, e') h
    | inr (p, e') ↦ rw (e, e') (resolve_once-cached p c own ref h)
  ]
]

answer-cached :
    (k : Call) (c : Cache) (ref : List ℕ) {v : List ℕ}
    → cached ref c ≡ some v
    → cached ref (answer k c).0 ≡ some v
unfolding answer resolve
answer-cached k c ref h = elim (Bool-cases k.late) [
  | inl e ↦ rw e (missed-cached k.providers c k.ref ref h)
  | inr e ↦ elim (Option-cases (cached k.ref c)) [
    | inl miss ↦ rw e (rw (miss, resolve) (missed-cached k.providers c k.ref ref h))
    | inr (w, hit) ↦ rw e (rw (hit, resolve) h)
  ]
]

run-cached :
    (ks : List Call) (c : Cache) (ref : List ℕ) {v : List ℕ}
    → cached ref c ≡ some v
    → cached ref (run ks c).0 ≡ some v
unfolding run
run-cached [] c ref h = h
run-cached (k ∷ ks) c ref h = run-cached ks (answer k c).0 ref (answer-cached k c ref h)

-- What is answered is in the cache.
keep-stored :
    (c : Cache) (ref : List ℕ) (r : Resolution) {v : List ℕ}
    → (keep c ref r).1 ≡ resolved v
    → cached ref (keep c ref r).0 ≡ some v
unfolding keep store secret_err cached
keep-stored c ref (failed e) h = cc
keep-stored c ref (resolved []) h = cc
keep-stored c ref (resolved (b ∷ bs)) h = rw (bytes_eq_refl ref) (cc)

resolve_once-stored :
    (p : List ℕ → Resolution) (c : Cache) (ref : List ℕ) {v : List ℕ}
    → (resolve_once p c ref).1 ≡ resolved v
    → cached ref (resolve_once p c ref).0 ≡ some v
unfolding resolve_once
resolve_once-stored p c ref h = elim (Option-cases (cached ref c)) [
  | inl miss ↦ rw (miss, resolve_once) (keep-stored c ref (p ref) (rw (miss, resolve_once) at h))
  | inr (w, hit) ↦ rw (hit, resolve_once) (cc (rw (hit, resolve_once) at h))
]

missed-stored :
    (ps : Providers) (c : Cache) (ref : List ℕ) {v : List ℕ}
    → (resolve_missed ps c ref).1 ≡ resolved v
    → cached ref (resolve_missed ps c ref).0 ≡ some v
unfolding resolve_missed secret_err
missed-stored ps c ref h = elim (Option-cases (ref_scheme ref)) [
  | inl e ↦ absurd (cc (rw e at h))
  | inr (s, e) ↦ elim (Option-cases (ps s)) [
    | inl e' ↦ absurd (cc (rw (e, e') at h))
    | inr (p, e') ↦ rw (e, e') (resolve_once-stored p c ref (rw (e, e') at h))
  ]
]

resolve-stored :
    (ps : Providers) (c : Cache) (ref : List ℕ) {v : List ℕ}
    → (resolve ps c ref).1 ≡ resolved v
    → cached ref (resolve ps c ref).0 ≡ some v
unfolding resolve
resolve-stored ps c ref h = elim (Option-cases (cached ref c)) [
  | inl miss ↦ rw (miss, resolve) (missed-stored ps c ref (rw (miss, resolve) at h))
  | inr (w, hit) ↦ rw (hit, resolve) (cc (rw (hit, resolve) at h))
]

-- A reference that was resolved once keeps its value: whatever is called in between, and whatever the
-- backends would say by then, the next call answers with it.
pub run-sticky :
    (ps ps' : Providers) (c : Cache) (ref : List ℕ) (ks : List Call) {v : List ℕ}
    → (resolve ps c ref).1 ≡ resolved v
    → (resolve ps' (run ks (resolve ps c ref).0).0 ref).1 ≡ resolved v
unfolding resolve
run-sticky ps ps' c ref ks h =
    let hit = run-cached ks (resolve ps c ref).0 ref (resolve-stored ps c ref h) in
    rw (hit, resolve) refl
