-- ===== src/Secrets/Resolver.antt =====
-- The Resolver of internal/channel/secret.go: dispatch on the scheme, with a cache of what was resolved.
-- Its providers are a parameter, since any can be registered.
use llm_cluster_router.Prelude.{ℕ, List, [], ◌∷◌, Option, none, some, if◌then◌else◌, length, ◌==◌}
use llm_cluster_router.Prelude.Bytes.{bytes_eq, trim_space}
use llm_cluster_router.Secrets.{
  ref_invalid, empty_value, no_provider, scheme_expected, provider_blank, SecretError, Resolution,
  failed, resolved, secret_err, Scheme, ref_scheme,
}

-- The providers as they answer at the time of a call.
abbrev pub Providers : Type 0
Providers = Scheme → Option (List ℕ → Resolution)

-- The cache: the first entry of a reference counts.
abbrev pub Cache : Type 0
Cache = List (List ℕ × List ℕ)

-- `cached`.
unfoldable pub cached : List ℕ → Cache → Option (List ℕ)
unfolding bytes_eq
cached ref [] = none
cached ref ((r, v) ∷ c) = if bytes_eq r ref then some v else cached ref c

-- `store`.
unfoldable pub store : List ℕ → List ℕ → Cache → Cache
store ref v c = (ref, v) ∷ c

-- `resolveOnce` behind its second look at the cache: only what is resolved and not empty is kept.
unfoldable pub keep : Cache → List ℕ → Resolution → Cache × Resolution
unfolding secret_err store
keep c ref (failed e) = (c, failed e)
keep c ref (resolved []) = (c, secret_err ref empty_value provider_blank)
keep c ref (resolved (b ∷ bs)) = (store ref (b ∷ bs) c, resolved (b ∷ bs))

-- `resolveOnce`.
unfoldable pub resolve_once : (List ℕ → Resolution) → Cache → List ℕ → Cache × Resolution
unfolding keep
resolve_once p c ref = elim (cached ref c) [ some v ↦ (c, resolved v) | none ↦ keep c ref (p ref) ]

-- `providerFor` and then `resolveOnce`: what a caller does that has missed the cache.
unfoldable pub resolve_missed : Providers → Cache → List ℕ → Cache × Resolution
unfolding ref_scheme secret_err resolve_once
resolve_missed providers c ref = elim (ref_scheme ref) [
  | none ↦ (c, secret_err ref ref_invalid scheme_expected)
  | some s ↦ elim (providers s) [
    | none ↦ (c, secret_err ref ref_invalid no_provider)
    | some p ↦ resolve_once p c ref
  ]
]

-- `Resolver.Resolve`.
unfoldable pub resolve : Providers → Cache → List ℕ → Cache × Resolution
unfolding resolve_missed
resolve providers c ref = elim (cached ref c) [
  | none ↦ resolve_missed providers c ref
  | some v ↦ (c, resolved v)
]

-- `resolveFirst`: its result, or the errors of all candidates.
pub data FirstResolution : Type 0 where
  none_named : FirstResolution
  all_failed : List SecretError → FirstResolution
  first_of : List ℕ → FirstResolution

-- The error of one candidate, or its value.
unfoldable pub usable_or_error : List ℕ → Resolution → Option SecretError
unfolding trim_space
usable_or_error ref (failed e) = some e
usable_or_error ref (resolved v) =
    if length (trim_space v) == 0
    then some (record { ref = ref; detail = provider_blank; cause = empty_value })
    else none

abbrev pub value_of : Resolution → List ℕ
value_of (failed e) = []
value_of (resolved v) = v

module _ {S : Type 0} (sp : S → List ℕ → S × Resolution) where
  -- The loop of `resolveFirst`, with the errors so far, newest first.
  unfoldable pub try_refs : S → List SecretError → List (List ℕ) → S × FirstResolution
  unfolding usable_or_error trim_space
  try_refs s errs [] = (s, all_failed errs)
  try_refs s errs (ref ∷ refs) =
      let asked = sp s ref in
      elim (usable_or_error ref asked.1) [
        | some e ↦ try_refs asked.0 (e ∷ errs) refs
        | none ↦ (asked.0, first_of (trim_space (value_of asked.1)))
      ]

  -- `resolveFirst`.
  unfoldable pub resolve_first : S → List (List ℕ) → S × FirstResolution
  unfolding try_refs
  resolve_first s [] = (s, none_named)
  resolve_first s (ref ∷ refs) = try_refs s [] (ref ∷ refs)
