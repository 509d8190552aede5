-- ===== src/Secrets/Slots.antt =====
-- What a resolved key pool is: a key for each declared slot, each the answer for its slot, usable, and
-- no two the same.
use llm_cluster_router.Prelude.{
  ℕ, suc, ◌+◌, ◌≡◌, ◌≢◌, ◌≤◌, refl, sym, ap, ◌∙◌, inl, inr, List, [], ◌∷◌, ◌++◌, none, length,
  length-append, All, Bool-cases, Option-cases, subst, arith,
}
use llm_cluster_router.Prelude.Bytes.{bytes_eq, trim_space}
use llm_cluster_router.Prelude.Texts.{trim_space-IsTrimmed, bytes_eq_refl}
use llm_cluster_router.Config.Route.{RouteConfig}
use llm_cluster_router.Config.Secret.{scheme_env, scheme_file}
use llm_cluster_router.Secrets.{SecretError, Resolution, failed, resolved}
use llm_cluster_router.Secrets.Resolver.{
  usable_or_error, value_of, FirstResolution, first_of, all_failed, none_named, try_refs,
  resolve_first,
}
use llm_cluster_router.Secrets.Runs.{IsUsable}
use llm_cluster_router.Secrets.Pool.{
  SlotField, key_envs_field, key_files_field, key_refs_field, KeySlot, items_of, number_slots,
  key_slots, declared_key_count, PoolResult, pool_refused, pool_of, add_key, resolve_slots,
  first_at, same_credential_in, check_pool, resolve_key_pool,
}

abbrev pub AllDistinct : List (List ℕ) → Type 0
AllDistinct [] = Unit
AllDistinct (v ∷ vs) = All (λ w. v ≢ w) vs × AllDistinct vs

IsUsable-value :
    (ref : List ℕ) (r : Resolution)
    → usable_or_error ref r ≡ none
    → IsUsable (trim_space (value_of r))
unfolding usable_or_error
IsUsable-value ref (failed e) h = absurd (ground (arith, h))
IsUsable-value ref (resolved v) h = (trim_space-IsTrimmed v, ground (arith, h))

add_key-pool_of :
    (v : List ℕ) (r : PoolResult) {keys : List (List ℕ)}
    → add_key v r ≡ pool_of keys
    → (vs : List (List ℕ)) × (r ≡ pool_of vs) × (keys ≡ v ∷ vs)
unfolding add_key
add_key-pool_of v (pool_refused e) h = absurd (ground (arith, h))
add_key-pool_of v (pool_of vs) h = (vs, refl, ground (arith, h))

module _ {S : Type 0} (sp : S → List ℕ → S × Resolution) where
  -- The keys are the trimmed answers to the references of the slots, asked in order.
  abbrev pub Answered : S → List KeySlot → List (List ℕ) → Type 0
  Answered s [] [] = Unit
  Answered s [] (v ∷ vs) = ⊥
  Answered s (k ∷ ks) [] = ⊥
  Answered s (k ∷ ks) (v ∷ vs) =
      (v ≡ trim_space (value_of (sp s k.ref).1)) × Answered (sp s k.ref).0 ks vs

  Answered-length :
      (s : S) (ks : List KeySlot) (vs : List (List ℕ)) → Answered s ks vs → length vs ≡ length ks
  Answered-length s [] [] h = refl
  Answered-length s [] (v ∷ vs) h = absurd h
  Answered-length s (k ∷ ks) [] h = absurd h
  Answered-length s (k ∷ ks) (v ∷ vs) h = ap suc (Answered-length (sp s k.ref).0 ks vs h.1)

  resolve_slots-Answered :
      (s : S) (ks : List KeySlot) (keys : List (List ℕ))
      → (resolve_slots sp s ks).1 ≡ pool_of keys
      → Answered s ks keys × All IsUsable keys
  unfolding resolve_slots
  resolve_slots-Answered s [] [] h = (tt, tt)
  resolve_slots-Answered s [] (v ∷ vs) h = absurd (ground (arith, h))
  resolve_slots-Answered s (k ∷ ks) keys h =
      elim (Option-cases (usable_or_error k.ref (sp s k.ref).1)) [
        | inl e ↦
            let value = trim_space (value_of (sp s k.ref).1) in
            let (vs, got, is) =
              add_key-pool_of value (resolve_slots sp (sp s k.ref).0 ks).1
                (rw (e, resolve_slots) at h) in
            let later = resolve_slots-Answered (sp s k.ref).0 ks vs got in
            subst (λ l. Answered s (k ∷ ks) l × All IsUsable l) (sym is)
              ((refl, later.0), (IsUsable-value k.ref (sp s k.ref).1 e, later.1))
        | inr (x, e) ↦ absurd (ground (arith, rw (e, resolve_slots) at h))
      ]

first_at_self :
    (v : List ℕ) (k : KeySlot) (seen : List (List ℕ × KeySlot)) → first_at v ((v, k) ∷ seen) ≢ none
unfolding first_at
first_at_self v k seen h = ground (arith, bytes_eq_refl v)

first_at-cons :
    (w v : List ℕ) (k : KeySlot) (seen : List (List ℕ × KeySlot))
    → first_at w seen ≢ none
    → first_at w ((v, k) ∷ seen) ≢ none
unfolding first_at
first_at-cons w v k seen known h = elim (Bool-cases (bytes_eq v w)) [
  | inl e ↦ ground (arith, rw e at h)
  | inr e ↦ known (rw e at h)
]

-- No later key equals one that was seen.
unseen :
    (w : List ℕ) (seen : List (List ℕ × KeySlot)) (vs : List (List ℕ)) (ks : List KeySlot)
    → length vs ≡ length ks
    → first_at w seen ≢ none
    → same_credential_in seen vs ks ≡ none
    → All (λ v. w ≢ v) vs
unfolding same_credential_in
unseen w seen [] ks n known h = tt
unseen w seen (v ∷ vs) [] n known h = absurd (omega arith)
unseen w seen (v ∷ vs) (k ∷ ks) n known h = elim (Option-cases (first_at v seen)) [
  | inl e ↦ (
    (λ same. known (subst (λ x. first_at x seen ≡ none) (sym same) e)),
    unseen w ((v, k) ∷ seen) vs ks (omega arith) (first_at-cons w v k seen known)
        (rw (e, same_credential_in) at h),
  )
  | inr (j, e) ↦ absurd (ground (arith, rw (e, same_credential_in) at h))
]

same_credential_in-AllDistinct :
    (seen : List (List ℕ × KeySlot)) (vs : List (List ℕ)) (ks : List KeySlot)
    → length vs ≡ length ks
    → same_credential_in seen vs ks ≡ none
    → AllDistinct vs
unfolding same_credential_in
same_credential_in-AllDistinct seen [] ks n h = tt
same_credential_in-AllDistinct seen (v ∷ vs) [] n h = absurd (omega arith)
same_credential_in-AllDistinct seen (v ∷ vs) (k ∷ ks) n h = elim (Option-cases (first_at v seen)) [
  | inl e ↦
      let rest = rw (e, same_credential_in) at h in
      (
        unseen v ((v, k) ∷ seen) vs ks (omega arith) (first_at_self v k seen) rest,
        same_credential_in-AllDistinct ((v, k) ∷ seen) vs ks (omega arith) rest,
      )
  | inr (j, e) ↦ absurd (ground (arith, rw (e, same_credential_in) at h))
]

length-number_slots :
    (field : SlotField) (scheme : List ℕ) (i : ℕ) (xs : List (List ℕ))
    → length (number_slots field scheme i xs) ≡ length xs
unfolding number_slots
length-number_slots field scheme i [] = refl
length-number_slots field scheme i (x ∷ xs) = ap suc (length-number_slots field scheme (i + 1) xs)

length-key_slots : (r : RouteConfig) → length (key_slots r) ≡ declared_key_count r
unfolding key_slots declared_key_count
length-key_slots r =
    let envs = number_slots key_envs_field scheme_env 0 (items_of r.key_envs) in
    let files = number_slots key_files_field scheme_file 0 (items_of r.key_files) in
    let refs = number_slots key_refs_field [] 0 (items_of r.key_refs) in
    omega (
      arith,
      length-append envs (files ++ refs),
      length-append files refs,
      length-number_slots key_envs_field scheme_env 0 (items_of r.key_envs),
      length-number_slots key_files_field scheme_file 0 (items_of r.key_files),
      length-number_slots key_refs_field [] 0 (items_of r.key_refs),
    )

check_pool-pool_of :
    (slots : List KeySlot) (res : PoolResult) {keys : List (List ℕ)}
    → check_pool slots res ≡ pool_of keys
    → (res ≡ pool_of keys) × (1 ≤ length keys) × (same_credential_in [] keys slots ≡ none)
unfolding check_pool
check_pool-pool_of slots (pool_refused e) h = absurd (ground (arith, h))
check_pool-pool_of slots (pool_of []) h = absurd (ground (arith, h))
check_pool-pool_of slots (pool_of (v ∷ vs)) {keys} h =
    elim (Option-cases (same_credential_in [] (v ∷ vs) slots)) [
      | inl e ↦
          let is : pool_of (v ∷ vs) ≡ pool_of keys = rw (e, check_pool) at h in
          let same : v ∷ vs ≡ keys = cc in
          subst
            (λ l.
              (pool_of (v ∷ vs) ≡ pool_of l)
              × (1 ≤ length l)
              × (same_credential_in [] l slots ≡ none))
            same (refl, omega arith, e)
      | inr (x, e) ↦ absurd (ground (arith, rw (e, check_pool) at h))
    ]

-- A pool for a route: as many keys as it declares slots and at least one, the trimmed answers for the
-- slots in their order, each of them trimmed and not empty, and no two the same.
pub record IsPool {S : Type 0} (sp : S → List ℕ → S × Resolution) (s : S) (r : RouteConfig)
    (keys : List (List ℕ)) : Type 0 where
  pub counted : length keys ≡ declared_key_count r
  pub not_empty : 1 ≤ length keys
  pub answered : Answered sp s (key_slots r) keys
  pub usable : All IsUsable keys
  pub distinct : AllDistinct keys

-- A pool that resolves has exactly one key for each declared slot, in the frozen order, each the trimmed
-- answer of the provider for its slot; none is blank and no two are the same, whatever the provider does.
pub resolve_key_pool-IsPool :
    {S : Type 0} (sp : S → List ℕ → S × Resolution) (s : S) (r : RouteConfig) (keys : List (List ℕ))
    → (resolve_key_pool sp s r).1 ≡ pool_of keys
    → IsPool sp s r keys
unfolding resolve_key_pool
resolve_key_pool-IsPool sp s r keys h =
    let (read, some_key, apart) =
      check_pool-pool_of (key_slots r) (resolve_slots sp s (key_slots r)).1 h in
    let found = resolve_slots-Answered sp s (key_slots r) keys read in
    let size = Answered-length sp s (key_slots r) keys found.0 in
    record {
      counted = size ∙ length-key_slots r;
      not_empty = some_key;
      answered = found.0;
      usable = found.1;
      distinct = same_credential_in-AllDistinct [] keys (key_slots r) size apart;
    }

-- What `resolveFirst` returns is trimmed and not empty, whatever the provider does.
abbrev pub UsableFirst : FirstResolution → Type 0
UsableFirst none_named = Unit {0}
UsableFirst (all_failed errs) = Unit {0}
UsableFirst (first_of v) = IsUsable v

try_refs-UsableFirst :
    {S : Type 0} (sp : S → List ℕ → S × Resolution) (s : S) (errs : List SecretError)
    (refs : List (List ℕ))
    → UsableFirst (try_refs sp s errs refs).1
unfolding try_refs
try_refs-UsableFirst sp s errs [] = tt
try_refs-UsableFirst sp s errs (ref ∷ refs) =
    elim (Option-cases (usable_or_error ref (sp s ref).1)) [
      | inl e ↦ rw (e, try_refs) (IsUsable-value ref (sp s ref).1 e)
      | inr (x, e) ↦ rw (e, try_refs) (try_refs-UsableFirst sp (sp s ref).0 (x ∷ errs) refs)
    ]

pub resolve_first-UsableFirst :
    {S : Type 0} (sp : S → List ℕ → S × Resolution) (s : S) (refs : List (List ℕ))
    → UsableFirst (resolve_first sp s refs).1
unfolding resolve_first
resolve_first-UsableFirst sp s [] = tt
resolve_first-UsableFirst sp s (ref ∷ refs) = try_refs-UsableFirst sp s [] (ref ∷ refs)
