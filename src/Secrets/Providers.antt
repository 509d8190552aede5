-- ===== src/Secrets/Providers.antt =====
-- The three backends of internal/channel/secret.go: envProvider, fileProvider and onepasswordProvider.
use llm_cluster_router.Prelude.{
  ℕ, ◌%◌, List, [], ◌∷◌, ◌++◌, Option, none, some, not, ltb, ◌==◌, if◌then◌else◌, length, take,
}
use llm_cluster_router.Prelude.Int.{ℤ}
use llm_cluster_router.Prelude.Bytes.{trim_space, starts_with}
use llm_cluster_router.Config.Secret.{scheme_op, has_unusable_byte}
use llm_cluster_router.Connect.Address.{split_at, before_byte}
use llm_cluster_router.Secrets.{
  ref_invalid, not_found, unavailable, timed_out, Detail, env_name_empty, env_not_set, env_blank,
  file_path_empty, file_absent, file_unreadable, file_failed, file_blank, op_no_prefix,
  op_segment_empty, op_segment_unusable, op_segments, op_deadline_passed, op_pipe_held, op_missing,
  op_failed, op_blank, op_exited, Resolution, secret_err, Scheme, env_scheme, file_scheme,
  op_scheme, without_scheme, Shown, safe_ref, trimmed_or, max_cli_err_detail, ellipsis,
}

-- The outcome of reading a file, as `errors.Is` tells them apart.
pub data FileRead : Type 0 where
  read_bytes : List ℕ → FileRead
  read_absent read_forbidden read_failed : FileRead

-- The outcome of `op read` within its time: what it printed, or how it failed.
pub data OpOutcome : Type 0 where
  op_printed : List ℕ → OpOutcome
  op_deadline op_wait_delay op_not_found op_error : OpOutcome
  op_exit : ℤ → List ℕ → OpOutcome

-- What the backends find at the time of a call. The mode of a file is absent where `stat` fails.
pub record World : Type 0 where
  pub lookup_env : List ℕ → Option (List ℕ)
  pub read_file : List ℕ → FileRead
  pub file_mode : List ℕ → Option ℕ
  pub run_op : List ℕ → OpOutcome

-- `envProvider.Resolve`.
unfoldable pub resolve_env : (List ℕ → Option (List ℕ)) → List ℕ → Resolution
unfolding without_scheme secret_err trimmed_or
resolve_env lookup_env ref =
    let name = without_scheme env_scheme ref in
    if length name == 0 then secret_err ref ref_invalid env_name_empty else elim (lookup_env name) [
      | none ↦ secret_err ref not_found env_not_set
      | some raw ↦ trimmed_or ref env_blank raw
    ]

-- What follows a read.
unfoldable pub after_read : List ℕ → FileRead → Resolution
unfolding secret_err trimmed_or
after_read ref (read_bytes raw) = trimmed_or ref file_blank raw
after_read ref read_absent = secret_err ref not_found file_absent
after_read ref read_forbidden = secret_err ref unavailable file_unreadable
after_read ref read_failed = secret_err ref unavailable file_failed

-- `fileProvider.Resolve`.
unfoldable pub resolve_file : (List ℕ → FileRead) → List ℕ → Resolution
unfolding without_scheme secret_err after_read
resolve_file read_file ref =
    let path = without_scheme file_scheme ref in
    if length path == 0
    then secret_err ref ref_invalid file_path_empty
    else after_read ref (read_file path)

-- `warnOnLoosePermissions`: the warning, if the mode has a bit of the group or of others.
unfoldable pub warn_on_loose_permissions : (List ℕ → Option ℕ) → List ℕ → Option (Shown × ℕ)
unfolding without_scheme safe_ref
warn_on_loose_permissions file_mode ref = elim (file_mode (without_scheme file_scheme ref)) [
  | none ↦ none
  | some mode ↦ if mode % 64 == 0 then none else some (safe_ref ref, mode % 512)
]

-- The loop over the segments.
unfoldable pub bad_segment : List (List ℕ) → Option Detail
unfolding has_unusable_byte
bad_segment [] = none
bad_segment (s ∷ ss) =
    if length s == 0
    then some op_segment_empty
    else if has_unusable_byte s
    then some op_segment_unusable
    else bad_segment ss

-- `parseOPRef`: what is wrong with a reference, if anything is.
unfoldable pub parse_op_ref : List ℕ → Option Detail
unfolding starts_with split_at without_scheme bad_segment
parse_op_ref ref =
    if not (starts_with ref scheme_op)
    then some op_no_prefix
    else (let parts = split_at 47 (without_scheme op_scheme ref) in
        if length parts == 3 then bad_segment parts else some (op_segments (length parts)))

-- `boundedDetail`; 10 is the end of a line.
unfoldable pub bounded_detail : List ℕ → List ℕ
unfolding trim_space before_byte
bounded_detail stderr =
    let s = trim_space stderr in
    let line = elim (before_byte 10 s) as (λ _. List ℕ) [
      | none ↦ s
      | some first ↦ trim_space first
    ] in
    if ltb max_cli_err_detail (length line) then take max_cli_err_detail line ++ ellipsis else line

-- What follows `op read`: `opExecError` where it failed.
unfoldable pub after_op : List ℕ → OpOutcome → Resolution
unfolding secret_err trimmed_or bounded_detail
after_op ref (op_printed out) = trimmed_or ref op_blank out
after_op ref op_deadline = secret_err ref timed_out op_deadline_passed
after_op ref op_wait_delay = secret_err ref unavailable op_pipe_held
after_op ref op_not_found = secret_err ref unavailable op_missing
after_op ref (op_exit code stderr) =
    secret_err ref unavailable (op_exited code (bounded_detail stderr))
after_op ref op_error = secret_err ref unavailable op_failed

-- `onepasswordProvider.Resolve`.
unfoldable pub resolve_op : (List ℕ → OpOutcome) → List ℕ → Resolution
unfolding parse_op_ref secret_err after_op
resolve_op run_op ref = elim (parse_op_ref ref) [
  | some detail ↦ secret_err ref ref_invalid detail
  | none ↦ after_op ref (run_op ref)
]

-- The map of `NewDefaultSecretProvider`, in the world of a call.
unfoldable pub default_providers : World → Scheme → Option (List ℕ → Resolution)
unfolding resolve_env resolve_file resolve_op
default_providers w env_scheme = some (resolve_env w.lookup_env)
default_providers w file_scheme = some (resolve_file w.read_file)
default_providers w op_scheme = some (resolve_op w.run_op)
