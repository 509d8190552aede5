-- ===== src/Secrets/Malformed.antt =====
-- That the configuration's check of a reference and its resolution agree on what is malformed.
use llm_cluster_router.Prelude.{
  ℕ, ◌≡◌, refl, ◌∙◌, inl, inr, List, [], ◌∷◌, Option, none, some, Bool, true, false, not, ◌==◌,
  length, drop, Bool-cases, Option-cases, arith,
}
use llm_cluster_router.Prelude.Bytes.{starts_with, trim_space}
use llm_cluster_router.Config.Secret.{
  scheme_env, scheme_file, scheme_op, are_segments, is_op_path, is_secret_ref,
}
use llm_cluster_router.Connect.Address.{split_at}
use llm_cluster_router.Secrets.{
  Cause, ref_invalid, Detail, Resolution, failed, resolved, secret_err, Scheme, env_scheme,
  file_scheme, op_scheme, ref_scheme, without_scheme, trimmed_or, env_blank,
}
use llm_cluster_router.Secrets.Providers.{
  FileRead, read_bytes, read_absent, read_forbidden, read_failed, OpOutcome, op_printed,
  op_deadline, op_wait_delay, op_not_found, op_exit, op_error, World, bad_segment, parse_op_ref,
  after_read, after_op, resolve_env, resolve_file, resolve_op, default_providers,
}
use llm_cluster_router.Secrets.Resolver.{Cache, cached, keep, resolve_once, resolve_missed, resolve}

-- Whether an answer says ErrSecretRefInvalid.
abbrev is_invalid : Cause → Bool
is_invalid c = elim c [ ref_invalid ↦ true | _ ↦ false ]

abbrev pub is_malformed : Resolution → Bool
is_malformed (failed e) = is_invalid e.cause
is_malformed (resolved v) = false

not-not : (b : Bool) → b ≡ not (not b)
not-not true = refl
not-not false = refl

keep-malformed :
    (c : Cache) (ref : List ℕ) (r : Resolution) → is_malformed (keep c ref r).1 ≡ is_malformed r
unfolding keep secret_err
keep-malformed c ref (failed e) = refl
keep-malformed c ref (resolved []) = refl
keep-malformed c ref (resolved (b ∷ bs)) = refl

trimmed_or_sound :
    (ref : List ℕ) (d : Detail) (raw : List ℕ) → is_malformed (trimmed_or ref d raw) ≡ false
unfolding trimmed_or secret_err
trimmed_or_sound ref d raw = elim (Bool-cases (length (trim_space raw) == 0)) [
  | inl e ↦ rw (e, trimmed_or) refl
  | inr e ↦ rw (e, trimmed_or) refl
]

env-malformed :
    (f : List ℕ → Option (List ℕ)) (ref : List ℕ)
    → is_malformed (resolve_env f ref) ≡ (length (without_scheme env_scheme ref) == 0)
unfolding resolve_env secret_err
env-malformed f ref = elim (Bool-cases (length (without_scheme env_scheme ref) == 0)) [
  | inl e ↦ rw (e, resolve_env) refl
  | inr e ↦ elim (Option-cases (f (without_scheme env_scheme ref))) [
    | inl e' ↦ rw (e, e', resolve_env) refl
    | inr (raw, e') ↦ rw (e, e', resolve_env) (trimmed_or_sound ref env_blank raw)
  ]
]

after_read_sound : (ref : List ℕ) (o : FileRead) → is_malformed (after_read ref o) ≡ false
unfolding after_read secret_err
after_read_sound ref (read_bytes raw) = trimmed_or_sound ref _ raw
after_read_sound ref read_absent = refl
after_read_sound ref read_forbidden = refl
after_read_sound ref read_failed = refl

file-malformed :
    (f : List ℕ → FileRead) (ref : List ℕ)
    → is_malformed (resolve_file f ref) ≡ (length (without_scheme file_scheme ref) == 0)
unfolding resolve_file secret_err
file-malformed f ref = elim (Bool-cases (length (without_scheme file_scheme ref) == 0)) [
  | inl e ↦ rw (e, resolve_file) refl
  | inr e ↦ rw (e, resolve_file) (after_read_sound ref (f (without_scheme file_scheme ref)))
]

after_op_sound : (ref : List ℕ) (o : OpOutcome) → is_malformed (after_op ref o) ≡ false
unfolding after_op secret_err
after_op_sound ref (op_printed out) = trimmed_or_sound ref _ out
after_op_sound ref op_deadline = refl
after_op_sound ref op_wait_delay = refl
after_op_sound ref op_not_found = refl
after_op_sound ref (op_exit code stderr) = refl
after_op_sound ref op_error = refl

abbrev is_some : Option Detail → Bool
is_some none = false
is_some (some d) = true

bad_segment-are_segments : (ss : List (List ℕ)) → is_some (bad_segment ss) ≡ not (are_segments ss)
unfolding bad_segment are_segments
bad_segment-are_segments [] = refl
bad_segment-are_segments (s ∷ ss) = ground (arith, bad_segment-are_segments ss)

op-malformed :
    (f : List ℕ → OpOutcome) (ref : List ℕ)
    → is_malformed (resolve_op f ref) ≡ is_some (parse_op_ref ref)
unfolding resolve_op secret_err
op-malformed f ref = elim (Option-cases (parse_op_ref ref)) [
  | inl e ↦ rw (e, resolve_op) (after_op_sound ref (f ref))
  | inr (d, e) ↦ rw (e, resolve_op) refl
]

parse_op_ref-is_op_path :
    (ref : List ℕ)
    → starts_with ref scheme_op ≡ true
    → is_some (parse_op_ref ref) ≡ not (is_op_path (drop (length scheme_op) ref))
unfolding parse_op_ref is_op_path without_scheme
parse_op_ref-is_op_path ref h =
    elim (Bool-cases (length (split_at 47 (drop (length scheme_op) ref)) == 3)) [
      | inl e ↦ rw (h, e) (bad_segment-are_segments (split_at 47 (drop (length scheme_op) ref)))
      | inr e ↦ rw (h, e) refl
    ]

resolve-dispatch :
    (w : World) (ref : List ℕ) (s : Scheme) (p : List ℕ → Resolution)
    → ref_scheme ref ≡ some s
    → default_providers w s ≡ some p
    → is_malformed (resolve (default_providers w) [] ref).1 ≡ is_malformed (p ref)
unfolding resolve resolve_missed resolve_once cached
resolve-dispatch w ref s p e e' = rw (e, e') (keep-malformed [] ref (p ref))

resolve-no_scheme :
    (w : World) (ref : List ℕ)
    → ref_scheme ref ≡ none
    → is_malformed (resolve (default_providers w) [] ref).1 ≡ true
unfolding resolve resolve_missed cached secret_err
resolve-no_scheme w ref e = rw e refl

-- A reference that is not empty is refused as malformed by its resolution exactly when the check of the
-- configuration refuses it, whatever the backends hold.
pub resolve-malformed :
    (w : World) (ref : List ℕ)
    → (length ref == 0) ≡ false
    → is_malformed (resolve (default_providers w) [] ref).1 ≡ not (is_secret_ref ref)
unfolding default_providers is_secret_ref
resolve-malformed w ref h = elim (Bool-cases (starts_with ref scheme_env)) [
  | inl e ↦
      resolve-dispatch w ref env_scheme (resolve_env w.lookup_env) (unfold ref_scheme in rw e refl)
        refl
      ∙ env-malformed w.lookup_env ref
      ∙ unfold without_scheme in rw (h, e) (not-not (length (drop 4 ref) == 0))
  | inr e ↦ elim (Bool-cases (starts_with ref scheme_file)) [
    | inl e' ↦
        resolve-dispatch w ref file_scheme (resolve_file w.read_file)
          (unfold ref_scheme in rw (e, e') refl) refl
        ∙ file-malformed w.read_file ref
        ∙ unfold without_scheme in rw (h, e, e') (not-not (length (drop 5 ref) == 0))
    | inr e' ↦ elim (Bool-cases (starts_with ref scheme_op)) [
      | inl e'' ↦
          resolve-dispatch w ref op_scheme (resolve_op w.run_op)
            (unfold ref_scheme in rw (e, e', e'') refl) refl
          ∙ op-malformed w.run_op ref
          ∙ parse_op_ref-is_op_path ref e''
          ∙ rw (h, e, e', e'') refl
      | inr e'' ↦
          resolve-no_scheme w ref (unfold ref_scheme in rw (e, e', e'') refl)
          ∙ rw (h, e, e', e'') refl
    ]
  ]
]
