-- ===== src/Secrets.antt =====
-- Credentials: internal/channel/secret.go. A secret and its reference are bytes; the environment, the
-- file system and the `op` command are functions that a call is given. An error is named by its
-- sentinel and its detail, not by its text; a space is one of ASCII.
pub mod Providers
pub mod Resolver
pub mod Runs
pub mod Sticky
pub mod Malformed
pub mod Pool
pub mod Slots
use llm_cluster_router.Prelude.{
  ℕ, zero, suc, ◌+◌, List, [], ◌∷◌, ◌++◌, Option, none, some, Bool, not, ltb, leb, ◌&&◌, ◌==◌,
  if◌then◌else◌, length, drop, take, get_or,
}
use llm_cluster_router.Prelude.Int.{ℤ}
use llm_cluster_router.Prelude.Bytes.{codes, starts_with, trim_space}
use llm_cluster_router.Config.Secret.{scheme_env, scheme_file, scheme_op}

-- The sentinel errors. `timed_out` is ErrSecretUnavailable joined with the exceeded deadline.
pub data Cause : Type 0 where
  no_secret_source ref_invalid not_found empty_value unavailable timed_out : Cause

-- The details of an error: fixed texts, with the numbers and the bytes that stand in them.
pub data Detail : Type 0 where
  env_name_empty env_not_set env_blank : Detail
  file_path_empty file_absent file_unreadable file_failed file_blank : Detail
  op_no_prefix op_segment_empty op_segment_unusable : Detail
  op_segments : ℕ → Detail
  op_deadline_passed op_pipe_held op_missing op_failed op_blank : Detail
  op_exited : ℤ → List ℕ → Detail
  no_provider scheme_expected provider_blank : Detail

-- `SecretError`. It has no field for a secret.
pub record SecretError : Type 0 where
  pub ref : List ℕ
  pub detail : Detail
  pub cause : Cause

-- What a provider returns.
pub data Resolution : Type 0 where
  failed : SecretError → Resolution
  resolved : List ℕ → Resolution

-- `secretErr`.
unfoldable pub secret_err : List ℕ → Cause → Detail → Resolution
secret_err ref cause detail = failed (record { ref = ref; detail = detail; cause = cause })

pub data Scheme : Type 0 where
  env_scheme file_scheme op_scheme : Scheme

abbrev pub scheme_text : Scheme → List ℕ
scheme_text env_scheme = scheme_env
scheme_text file_scheme = scheme_file
scheme_text op_scheme = scheme_op

-- `refScheme`.
unfoldable pub ref_scheme : List ℕ → Option Scheme
unfolding starts_with
ref_scheme ref =
    if starts_with ref scheme_env
    then some env_scheme
    else if starts_with ref scheme_file
    then some file_scheme
    else if starts_with ref scheme_op
    then some op_scheme
    else none

-- `strings.TrimPrefix` with a scheme.
unfoldable pub without_scheme : Scheme → List ℕ → List ℕ
unfolding starts_with
without_scheme s ref =
    if starts_with ref (scheme_text s) then drop (length (scheme_text s)) ref else ref

-- `maxRefDetail` and `maxCLIErrDetail`.
abbrev pub max_ref_detail : ℕ
max_ref_detail = 96

abbrev pub max_cli_err_detail : ℕ
max_cli_err_detail = 200

-- `utf8.RuneStart`: no byte of the form 10xxxxxx.
unfoldable pub is_rune_start : ℕ → Bool
is_rune_start b = not (leb 128 b && ltb b 192)

-- The loop that steps back to a rune boundary.
unfoldable pub clip_at : ℕ → List ℕ → ℕ
unfolding is_rune_start
clip_at zero rest = 0
clip_at (suc k) rest =
    let back = clip_at k rest in if is_rune_start (get_or rest (suc k) 0) then suc k else back

-- How `safeRef` shows a reference: with no known scheme only its length.
pub data Shown : Type 0 where
  redacted : ℕ → Shown
  shown : List ℕ → Shown

-- `...`.
abbrev pub ellipsis : List ℕ
ellipsis = codes "..."

unfoldable pub clip : List ℕ → List ℕ
unfolding clip_at
clip rest =
    if ltb max_ref_detail (length rest)
    then take (clip_at max_ref_detail rest) rest ++ ellipsis
    else rest

-- `safeRef`.
unfoldable pub safe_ref : List ℕ → Shown
unfolding ref_scheme without_scheme clip
safe_ref ref = elim (ref_scheme ref) [
  | none ↦ redacted (length ref)
  | some s ↦ shown (scheme_text s ++ clip (without_scheme s ref))
]

-- Every backend trims first and tests second.
unfoldable pub trimmed_or : List ℕ → Detail → List ℕ → Resolution
unfolding trim_space secret_err
trimmed_or ref blank raw =
    if length (trim_space raw) == 0
    then secret_err ref empty_value blank
    else resolved (trim_space raw)
