-- ===== src/ProbeLimiter.antt =====
-- The token bucket of forced health probes: internal/health/liveprobe.go. The source keeps a
-- float64 count of tokens, refilled by `elapsed / interval`; the model keeps the exact count in units
-- of one token per `interval` nanoseconds, so `credit` stands for `tokens * interval`.
pub mod Rate
use llm_cluster_router.Prelude.{
  ℕ, ◌+◌, ◌-◌, ◌*◌, List, [], ◌∷◌, Option, none, some, Bool, true, false, ltb, if◌then◌else◌,
}
use llm_cluster_router.Prelude.Int.{ℤ, positive_or}

-- `DefaultLiveProbeInterval`, ten seconds, and `DefaultLiveProbeBurst`.
abbrev pub default_interval : ℕ
default_interval = 10_000_000_000

abbrev pub default_burst : ℕ
default_burst = 3

pub record ProbeLimiter : Type 0 where
  pub interval : ℕ
  pub burst : ℕ
  pub credit : ℕ
  pub last : ℕ

-- `NewProbeLimiterWithClock`, at the instant `now`.
unfoldable pub new_limiter : ℤ → ℤ → ℕ → ProbeLimiter
new_limiter interval burst now = record {
  interval = positive_or default_interval interval;
  burst = positive_or default_burst burst;
  credit = positive_or default_burst burst * positive_or default_interval interval;
  last = now;
}

-- The refill: only time that has passed counts, and the count stops at the ceiling.
unfoldable pub refill : ℕ → ProbeLimiter → ProbeLimiter
refill now l =
    if ltb l.last now
    then record l {
      credit =
          if ltb (l.burst * l.interval) (l.credit + (now - l.last))
          then l.burst * l.interval
          else l.credit + (now - l.last);
      last = now;
    }
    else l

-- `Allow` of a limiter that is there.
unfoldable pub take_token : ℕ → ProbeLimiter → ProbeLimiter × Bool
unfolding refill
take_token now l =
    let l' = refill now l in
    if ltb l'.credit l'.interval
    then (l', false)
    else (record l' { credit = l'.credit - l'.interval }, true)

-- `Allow`: a nil limiter answers false.
unfoldable pub allow : ℕ → Option ProbeLimiter → Option ProbeLimiter × Bool
unfolding take_token
allow now none = (none, false)
allow now (some l) = let (l', ok) = take_token now l in (some l', ok)

-- `Allow` at each of these instants in turn, and how many calls it admits.
unfoldable pub admitted : List ℕ → ProbeLimiter → ProbeLimiter × ℕ
unfolding take_token
admitted [] l = (l, 0)
admitted (t ∷ ts) l =
    let (l', ok) = take_token t l in let (l'', n) = admitted ts l' in (l'', if ok then n + 1 else n)
