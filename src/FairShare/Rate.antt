-- ===== src/FairShare/Rate.antt =====
-- How many requests of a user the scheduler admits over a run, clean-up included.
use llm_cluster_router.Prelude.{
  ℕ, ◌+◌, ◌-◌, ◌*◌, ◌≡◌, ◌≤◌, ◌<◌, refl, ◌∙◌, subst, List, [], ◌∷◌, Option, none, some, Bool, true,
  false, ltb, if◌then◌else◌, Bool-cases, inl, inr, arith,
}
use llm_cluster_router.FairShare.{
  Config, Bucket, token, initial_tokens, new_bucket, refill, allow, bucket_or, kept, Call,
}

-- The instants of a run that starts at `t` do not step back, and the instant at which it ends.
abbrev pub Ordered : ℕ → List (ℕ × Call) → Type 0
Ordered t [] = Unit
Ordered t ((now, c) ∷ cs) = (t ≤ now) × Ordered now cs

abbrev pub last_instant : ℕ → List (ℕ × Call) → ℕ
last_instant t [] = t
last_instant t ((now, c) ∷ cs) = last_instant now cs

-- The books of a bucket of these settings at the instant `t`, after `n` admissions since `start`.
pub record IsBalanced (cfg : Config) (start t n : ℕ) (b : Bucket) : Type 0 where
  pub max_same : b.max_tokens ≡ cfg.max_requests_per_user
  pub window_same : b.window ≡ cfg.window
  pub refill_le : b.last_refill ≤ b.last_access
  pub access_le : b.last_access ≤ t
  pub books :
      n * cfg.window + b.credit + cfg.max_requests_per_user * start
      ≤ initial_tokens cfg.max_requests_per_user cfg.burst * cfg.window
        + cfg.max_requests_per_user * b.last_refill

-- The same for a user without a bucket.
abbrev pub IsClear : Config → ℕ → ℕ → ℕ → Type 0
IsClear cfg start t n =
    n * cfg.window + cfg.max_requests_per_user * start ≤ cfg.max_requests_per_user * t

mul-gap : (m a b : ℕ) → a ≤ b → m * b ≡ m * a + m * (b - a)
mul-gap m a b h = let whole : b ≡ a + (b - a) = omega arith in grind (arith, whole)

pub mul_mono : (m a b : ℕ) → a ≤ b → m * a ≤ m * b
mul_mono m a b h = omega (arith, mul-gap m a b h)

-- One more admission costs one more window.
counted : (n w : ℕ) (ok : Bool) → (if ok then n + 1 else n) * w ≡ n * w + (if ok then w else 0)
counted n w true = grind arith
counted n w false = omega arith

refill_credit :
    (now : ℕ) (b : Bucket)
    → (refill now b).credit + b.max_tokens * b.last_refill
      ≤ b.credit + b.max_tokens * (refill now b).last_refill
unfolding refill
refill_credit now b = ground (arith, mul-gap b.max_tokens b.last_refill now)

-- A call pays a token for an admission, out of the refilled credit.
allow_credit :
    (now : ℕ) (b : Bucket)
    → (allow now b).0.credit + (if (allow now b).1 then token b.window else 0)
      ≡ (refill now b).credit
unfolding allow
allow_credit now b = elim (Bool-cases (ltb (refill now b).credit (token b.window))) [
  | inl e ↦ rw e (omega arith)
  | inr e ↦ rw e (ground (arith, e))
]

allow_same :
    (now : ℕ) (b : Bucket)
    → ((allow now b).0.max_tokens ≡ b.max_tokens)
      × ((allow now b).0.window ≡ b.window)
      × ((allow now b).0.last_refill ≡ (refill now b).last_refill)
      × ((allow now b).0.last_access ≡ now)
unfolding allow refill
allow_same now b = ground arith

refill_time : (now : ℕ) (b : Bucket) → b.last_refill ≤ now → (refill now b).last_refill ≤ now
unfolding refill
refill_time now b h = ground arith

-- One admission at most comes out of the credit and the time that has passed.
pub allow-IsBalanced :
    (cfg : Config) (start t n now : ℕ) (b : Bucket)
    → 0 < cfg.window
    → t ≤ now
    → IsBalanced cfg start t n b
    → IsBalanced cfg start now (if (allow now b).1 then n + 1 else n) (allow now b).0
allow-IsBalanced cfg start t n now b w le v =
    let (max_same, window_same, refilled, accessed) = allow_same now b in
    let priced : token b.window ≡ cfg.window = ground (arith, v.window_same) in
    let credit : (refill now b).credit + cfg.max_requests_per_user * b.last_refill
        ≤ b.credit + cfg.max_requests_per_user * (refill now b).last_refill =
      subst
        (λ m. (refill now b).credit + m * b.last_refill ≤ b.credit + m * (refill now b).last_refill)
        v.max_same (refill_credit now b) in
    let paid : (allow now b).0.credit + (if (allow now b).1 then cfg.window else 0)
        ≡ (refill now b).credit =
      subst
        (λ x. (allow now b).0.credit + (if (allow now b).1 then x else 0) ≡ (refill now b).credit)
        priced (allow_credit now b) in
    record {
      max_same = max_same ∙ v.max_same;
      window_same = window_same ∙ v.window_same;
      refill_le =
          omega (
            arith,
            refilled,
            accessed,
            refill_time now b (omega (arith, v.refill_le, v.access_le)),
          );
      access_le = omega (arith, accessed);
      books =
          rw refilled (omega (arith, v.books, credit, paid, counted n cfg.window (allow now b).1));
    }

-- The books of a user, with a bucket or without.
abbrev pub BooksOf : Config → ℕ → ℕ → ℕ → Option Bucket → Type 0
BooksOf cfg start t n none = IsClear cfg start t n
BooksOf cfg start t n (some b) = IsBalanced cfg start t n b

pub weaken_books :
    (cfg : Config) (start t now n : ℕ) (o : Option Bucket)
    → t ≤ now
    → BooksOf cfg start t n o
    → BooksOf cfg start now n o
weaken_books cfg start t now n none le v =
    omega (arith, v, mul_mono cfg.max_requests_per_user t now le)
weaken_books cfg start t now n (some b) le v = record {
  max_same = v.max_same;
  window_same = v.window_same;
  refill_le = v.refill_le;
  access_le = omega (arith, v.access_le);
  books = v.books;
}

new_bucket-IsBalanced :
    (cfg : Config) (start now n : ℕ)
    → 0 < cfg.window
    → IsClear cfg start now n
    → IsBalanced cfg start now n (new_bucket now cfg.max_requests_per_user cfg.window cfg.burst)
unfolding new_bucket
new_bucket-IsBalanced cfg start now n w v =
    let whole : token cfg.window ≡ cfg.window = ground arith in
    record {
      max_same = refl;
      window_same = refl;
      refill_le = omega arith;
      access_le = omega arith;
      books = rw whole (omega (arith, v));
    }

pub bucket_or-IsBalanced :
    (cfg : Config) (start now n : ℕ) (o : Option Bucket)
    → 0 < cfg.window
    → BooksOf cfg start now n o
    → IsBalanced cfg start now n (bucket_or now cfg o)
unfolding bucket_or
bucket_or-IsBalanced cfg start now n none w v = new_bucket-IsBalanced cfg start now n w v
bucket_or-IsBalanced cfg start now n (some b) w v = v

initial_tokens-le :
    (cfg : Config) → initial_tokens cfg.max_requests_per_user cfg.burst ≤ cfg.max_requests_per_user
initial_tokens-le cfg = ground arith

-- A bucket that is deleted has been idle for so long that a new one gives nothing away.
idle-IsClear :
    (cfg : Config) (start t now n : ℕ) (b : Bucket)
    → IsBalanced cfg start t n b
    → b.last_access + cfg.window * 2 < now
    → IsClear cfg start now n
idle-IsClear cfg start t now n b v idle =
    let m = cfg.max_requests_per_user in
    let i = initial_tokens m cfg.burst in
    let later : m * (b.last_refill + cfg.window) ≤ m * now =
      mul_mono m (b.last_refill + cfg.window) now (omega (arith, v.refill_le)) in
    let apart : m * (b.last_refill + cfg.window) ≡ m * b.last_refill + cfg.window * m =
      grind arith in
    let low : cfg.window * i ≤ cfg.window * m = mul_mono cfg.window i m (initial_tokens-le cfg) in
    let turned : i * cfg.window ≡ cfg.window * i = grind arith in
    omega (arith, v.books, later, apart, low, turned)

pub kept-BooksOf :
    (cfg : Config) (start now n : ℕ) (o : Option Bucket)
    → BooksOf cfg start now n o
    → BooksOf cfg start now n (kept now cfg o)
unfolding kept
kept-BooksOf cfg start now n none v = v
kept-BooksOf cfg start now n (some b) v =
    elim (Bool-cases (ltb (b.last_access + cfg.window * 2) now)) [
      | inl old ↦ rw old (idle-IsClear cfg start now now n b v (ground (arith, old)))
      | inr young ↦ rw young v
    ]
