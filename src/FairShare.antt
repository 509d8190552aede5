-- ===== src/FairShare.antt =====
-- The per-user rate limits: internal/fairshare/fairshare.go. The source keeps a float64 count of
-- tokens, refilled by `max * elapsed / window`; the model keeps the exact count in units of a token
-- per nanosecond of the window, so `credit` stands for `tokens * window`. `Acquire` and the `Allow`
-- that it ends with are one step at the instant `now`; the map of buckets is a function.
pub mod Rate
pub mod Recovery
pub mod Users
use llm_cluster_router.Prelude.{
  ℕ, ◌+◌, ◌-◌, ◌*◌, List, [], ◌∷◌, Option, none, some, String, Bool, true, false, ◌&&◌, ltb,
  if◌then◌else◌,
}
use llm_cluster_router.Prelude.Maps.{◌==◌}

-- `Config`, whose numbers `LoadConfig` leaves positive.
pub record Config : Type 0 where
  pub max_requests_per_user : ℕ
  pub window : ℕ
  pub burst : ℕ

pub record Bucket : Type 0 where
  pub credit : ℕ
  pub max_tokens : ℕ
  pub window : ℕ
  pub last_refill : ℕ
  pub last_access : ℕ

-- The credit of one token: a window that is 0 refills nothing, and tokens are whole.
abbrev pub token : ℕ → ℕ
token window = if ltb 0 window then window else 1

-- The tokens that `newBucket` starts with.
abbrev pub initial_tokens : ℕ → ℕ → ℕ
initial_tokens max_requests burst = if ltb max_requests burst then max_requests else burst

-- `newBucket`.
unfoldable pub new_bucket : ℕ → ℕ → ℕ → ℕ → Bucket
new_bucket now max_requests window burst = record {
  credit = initial_tokens max_requests burst * token window;
  max_tokens = max_requests;
  window = window;
  last_refill = now;
  last_access = now;
}

-- The refill of `Allow`: only time that has passed counts, up to the ceiling.
unfoldable pub refill : ℕ → Bucket → Bucket
refill now b =
    let grown = b.credit + b.max_tokens * (now - b.last_refill) in
    if ltb b.last_refill now && ltb 0 b.window
    then record b {
      credit = if ltb (b.max_tokens * b.window) grown then b.max_tokens * b.window else grown;
      last_refill = now;
      last_access = now;
    }
    else record b { last_access = now }

-- `bucket.Allow`.
unfoldable pub allow : ℕ → Bucket → Bucket × Bool
unfolding refill
allow now b =
    let b' = refill now b in
    if ltb b'.credit (token b.window)
    then (b', false)
    else (record b' { credit = b'.credit - token b.window }, true)

pub record Scheduler : Type 0 where
  pub cfg : Config
  pub buckets : String → Option Bucket

-- `New`, without the goroutine that calls `gc`.
unfoldable pub new_scheduler : Config → Scheduler
new_scheduler cfg = record { cfg = cfg; buckets = λ _. none }

-- The bucket found for a user, or a new one.
unfoldable pub bucket_or : ℕ → Config → Option Bucket → Bucket
bucket_or now cfg none = new_bucket now cfg.max_requests_per_user cfg.window cfg.burst
bucket_or now cfg (some b) = b

-- `Acquire`.
unfoldable pub acquire : ℕ → String → Scheduler → Scheduler × Bool
unfolding bucket_or allow
acquire now user s =
    let (b', ok) = allow now (bucket_or now s.cfg (s.buckets user)) in
    (record s { buckets = λ v. if v == user then some b' else s.buckets v }, ok)

-- A bucket that was not used for more than two windows is deleted.
unfoldable pub kept : ℕ → Config → Option Bucket → Option Bucket
kept now cfg none = none
kept now cfg (some b) = if ltb (b.last_access + cfg.window * 2) now then none else some b

-- `gc`.
unfoldable pub gc : ℕ → Scheduler → Scheduler
unfolding kept
gc now s = record s { buckets = λ v. kept now s.cfg (s.buckets v) }

-- A call of `Acquire` for a user, or a tick of the clean-up loop.
pub data Call : Type 0 where
  acquires : String → Call
  collects : Call

-- A run of calls at instants: the scheduler after it, and how many requests of `user` it admitted.
unfoldable pub admitted : String → Scheduler → List (ℕ × Call) → Scheduler × ℕ
unfolding acquire gc
admitted user s [] = (s, 0)
admitted user s ((now, acquires v) ∷ cs) =
    let (s', ok) = acquire now v s in
    let (s'', n) = admitted user s' cs in (s'', if v == user && ok then n + 1 else n)
admitted user s ((now, collects) ∷ cs) = admitted user (gc now s) cs
