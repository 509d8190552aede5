-- ===== src/Secrets/Runs.antt =====
-- What any sequence of calls of the Resolver gives. A call that has missed the cache may run its
-- backend after other calls have stored their results: it is late.
use llm_cluster_router.Prelude.{
  ℕ, ◌≡◌, ◌≤◌, inl, inr, List, [], ◌∷◌, Option, some, Bool, if◌then◌else◌, length, map, All,
  Bool-cases, Option-cases, some_inj, subst, arith, ◌==◌,
}
use llm_cluster_router.Prelude.Bytes.{bytes_eq, trim_space}
use llm_cluster_router.Prelude.Texts.{IsTrimmed, trim_space-IsTrimmed}
use llm_cluster_router.Secrets.{
  Resolution, failed, resolved, secret_err, Scheme, env_scheme, file_scheme, op_scheme, ref_scheme,
  trimmed_or, Detail, without_scheme, env_blank, file_blank, op_blank,
}
use llm_cluster_router.Secrets.Providers.{
  World, read_bytes, read_absent, read_forbidden, read_failed, op_printed, op_deadline,
  op_wait_delay, op_not_found, op_exit, op_error, resolve_env, resolve_file, resolve_op,
  parse_op_ref, default_providers, FileRead, OpOutcome, after_read, after_op,
}
use llm_cluster_router.Secrets.Resolver.{
  Providers, Cache, cached, store, keep, resolve_once, resolve_missed, resolve,
}

pub record Call : Type 0 where
  pub providers : Providers
  pub late : Bool
  pub ref : List ℕ

unfoldable pub answer : Call → Cache → Cache × Resolution
unfolding resolve resolve_missed
answer k c = if k.late then resolve_missed k.providers c k.ref else resolve k.providers c k.ref

-- The cache after some calls, and their answers.
unfoldable pub run : List Call → Cache → Cache × List Resolution
unfolding answer
run [] c = (c, [])
run (k ∷ ks) c = let later = run ks (answer k c).0 in (later.0, (answer k c).1 ∷ later.1)

-- A call of the resolver that NewDefaultSecretProvider makes, in the world at that time.
unfoldable pub default_call : World × Bool × List ℕ → Call
unfolding default_providers
default_call (w, late, ref) = record { providers = default_providers w; late = late; ref = ref }

-- A value with no space at its ends, and not empty.
abbrev pub IsUsable : List ℕ → Type 0
IsUsable v = IsTrimmed v × (1 ≤ length v)

abbrev pub UsableAnswer : Resolution → Type 0
UsableAnswer (failed e) = Unit {0}
UsableAnswer (resolved v) = IsUsable v

pub trimmed_or-UsableAnswer :
    (ref : List ℕ) (blank : Detail) (raw : List ℕ) → UsableAnswer (trimmed_or ref blank raw)
unfolding trimmed_or secret_err
trimmed_or-UsableAnswer ref blank raw = elim (Bool-cases (length (trim_space raw) == 0)) [
  | inl e ↦ rw e tt
  | inr e ↦ rw e (trim_space-IsTrimmed raw, ground arith)
]

env-UsableAnswer : (f : List ℕ → Option (List ℕ)) (ref : List ℕ) → UsableAnswer (resolve_env f ref)
unfolding resolve_env secret_err
env-UsableAnswer f ref = elim (Bool-cases (length (without_scheme env_scheme ref) == 0)) [
  | inl e ↦ rw e tt
  | inr e ↦ elim (Option-cases (f (without_scheme env_scheme ref))) [
    | inl e' ↦ rw (e, e') tt
    | inr (raw, e') ↦ rw (e, e') (trimmed_or-UsableAnswer ref env_blank raw)
  ]
]

read-UsableAnswer : (ref : List ℕ) (o : FileRead) → UsableAnswer (after_read ref o)
unfolding after_read secret_err
read-UsableAnswer ref (read_bytes raw) = trimmed_or-UsableAnswer ref file_blank raw
read-UsableAnswer ref read_absent = tt
read-UsableAnswer ref read_forbidden = tt
read-UsableAnswer ref read_failed = tt

file-UsableAnswer : (f : List ℕ → FileRead) (ref : List ℕ) → UsableAnswer (resolve_file f ref)
unfolding resolve_file secret_err
file-UsableAnswer f ref = elim (Bool-cases (length (without_scheme file_scheme ref) == 0)) [
  | inl e ↦ rw e tt
  | inr e ↦ rw e (read-UsableAnswer ref (f (without_scheme file_scheme ref)))
]

op-UsableAnswer : (ref : List ℕ) (o : OpOutcome) → UsableAnswer (after_op ref o)
unfolding after_op secret_err
op-UsableAnswer ref (op_printed out) = trimmed_or-UsableAnswer ref op_blank out
op-UsableAnswer ref op_deadline = tt
op-UsableAnswer ref op_wait_delay = tt
op-UsableAnswer ref op_not_found = tt
op-UsableAnswer ref (op_exit code stderr) = tt
op-UsableAnswer ref op_error = tt

vault-UsableAnswer : (f : List ℕ → OpOutcome) (ref : List ℕ) → UsableAnswer (resolve_op f ref)
unfolding resolve_op secret_err
vault-UsableAnswer f ref = elim (Option-cases (parse_op_ref ref)) [
  | inl e ↦ rw e (op-UsableAnswer ref (f ref))
  | inr (d, e) ↦ rw e tt
]

abbrev AllUsable : Cache → Type 0
AllUsable c = All (λ e. IsUsable e.1) c

cached-IsUsable :
    (ref : List ℕ) (c : Cache) {v : List ℕ} → AllUsable c → cached ref c ≡ some v → IsUsable v
unfolding cached
cached-IsUsable ref [] h e = ground arith
cached-IsUsable ref ((r, w) ∷ c) {v} h e = elim (Bool-cases (bytes_eq r ref)) [
  | inl here ↦ subst IsUsable (some_inj (rw here at e)) h.0
  | inr there ↦ cached-IsUsable ref c h.1 (rw there at e)
]

-- Providers that keep the contract of SecretProvider.
abbrev KeepsContract : Providers → Type 0
KeepsContract ps =
    (s : Scheme) (p : List ℕ → Resolution) (ref : List ℕ) → ps s ≡ some p → UsableAnswer (p ref)

abbrev Good : Cache × Resolution → Type 0
Good r = AllUsable r.0 × UsableAnswer r.1

keep-Good :
    (c : Cache) (ref : List ℕ) (r : Resolution) → AllUsable c → UsableAnswer r → Good (keep c ref r)
unfolding keep store secret_err
keep-Good c ref (failed e) h u = (h, tt)
keep-Good c ref (resolved []) h u = (h, tt)
keep-Good c ref (resolved (b ∷ bs)) h u = ((u, h), u)

resolve_once-Good :
    (p : List ℕ → Resolution) (c : Cache) (ref : List ℕ)
    → UsableAnswer (p ref)
    → AllUsable c
    → Good (resolve_once p c ref)
unfolding resolve_once
resolve_once-Good p c ref u h = elim (Option-cases (cached ref c)) [
  | inl miss ↦ rw (miss, resolve_once) (keep-Good c ref (p ref) h u)
  | inr (v, hit) ↦ rw (hit, resolve_once) (h, cached-IsUsable ref c h hit)
]

missed-Good :
    (ps : Providers) (c : Cache) (ref : List ℕ)
    → KeepsContract ps
    → AllUsable c
    → Good (resolve_missed ps c ref)
unfolding resolve_missed secret_err
missed-Good ps c ref k h = elim (Option-cases (ref_scheme ref)) [
  | inl e ↦ rw e (h, tt)
  | inr (s, e) ↦ elim (Option-cases (ps s)) [
    | inl e' ↦ rw (e, e') (h, tt)
    | inr (p, e') ↦ rw (e, e') (resolve_once-Good p c ref (k s p ref e') h)
  ]
]

resolve-Good :
    (ps : Providers) (c : Cache) (ref : List ℕ)
    → KeepsContract ps
    → AllUsable c
    → Good (resolve ps c ref)
unfolding resolve
resolve-Good ps c ref k h = elim (Option-cases (cached ref c)) [
  | inl miss ↦ rw (miss, resolve) (missed-Good ps c ref k h)
  | inr (v, hit) ↦ rw (hit, resolve) (h, cached-IsUsable ref c h hit)
]

answer-Good : (k : Call) (c : Cache) → KeepsContract k.providers → AllUsable c → Good (answer k c)
unfolding answer
answer-Good k c contract h = elim (Bool-cases k.late) [
  | inl e ↦ rw e (missed-Good k.providers c k.ref contract h)
  | inr e ↦ rw e (resolve-Good k.providers c k.ref contract h)
]

run-Good :
    (ks : List Call) (c : Cache)
    → All (λ k. KeepsContract k.providers) ks
    → AllUsable c
    → All UsableAnswer (run ks c).1
unfolding run
run-Good [] c ok h = tt
run-Good (k ∷ ks) c ok h =
    let now = answer-Good k c ok.0 h in (now.1, run-Good ks (answer k c).0 ok.1 now.0)

default_providers-KeepsContract : (w : World) → KeepsContract (default_providers w)
unfolding default_providers
default_providers-KeepsContract w env_scheme p ref e =
    subst (λ q. UsableAnswer (q ref)) (some_inj e) (env-UsableAnswer w.lookup_env ref)
default_providers-KeepsContract w file_scheme p ref e =
    subst (λ q. UsableAnswer (q ref)) (some_inj e) (file-UsableAnswer w.read_file ref)
default_providers-KeepsContract w op_scheme p ref e =
    subst (λ q. UsableAnswer (q ref)) (some_inj e) (vault-UsableAnswer w.run_op ref)

default_calls-KeepContract :
    (cs : List (World × Bool × List ℕ)) → All (λ k. KeepsContract k.providers) (map default_call cs)
unfolding default_call
default_calls-KeepContract [] = tt
default_calls-KeepContract ((w, late, ref) ∷ cs) =
    (default_providers-KeepsContract w, default_calls-KeepContract cs)

-- Whatever the environment, the files and the vault hold at each call, and however calls overlap, the
-- default resolver answers each call by an error or by a value that is trimmed and not empty.
pub run-UsableAnswer :
    (cs : List (World × Bool × List ℕ)) → All UsableAnswer (run (map default_call cs) []).1
run-UsableAnswer cs = run-Good (map default_call cs) [] (default_calls-KeepContract cs) tt
