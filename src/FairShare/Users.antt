-- ===== src/FairShare/Users.antt =====
-- Runs of the scheduler: the bound on a user's requests, and the independence of users.
use text.Mathlib.TextEquality.{eq_iff}
use llm_cluster_router.Prelude.{
  ℕ, ◌+◌, ◌*◌, ◌≡◌, ◌≤◌, ◌<◌, refl, sym, ◌∙◌, subst, List, [], ◌∷◌, Option, none, some, String,
  true, false, ◌&&◌, if◌then◌else◌, Bool-cases, inl, inr, arith,
}
use llm_cluster_router.Prelude.Maps.{◌==◌}
use llm_cluster_router.FairShare.{
  Config, Bucket, initial_tokens, Scheduler, new_scheduler, bucket_or, acquire, kept, gc, Call,
  acquires, collects, admitted,
}
use llm_cluster_router.FairShare.Rate.{
  Ordered, last_instant, IsBalanced, IsClear, allow-IsBalanced, BooksOf, weaken_books,
  bucket_or-IsBalanced, kept-BooksOf, mul_mono,
}

acquire-BooksOf :
    (cfg : Config) (start now n : ℕ) (user v : String) (s : Scheduler)
    → 0 < cfg.window
    → s.cfg ≡ cfg
    → BooksOf cfg start now n (s.buckets user)
    → BooksOf cfg start now
        (if v == user && (acquire now v s).1 then n + 1 else n)
        ((acquire now v s).0.buckets user)
unfolding acquire
acquire-BooksOf cfg start now n user v s w same h = elim (Bool-cases (v == user)) [
  | inl here ↦
      let mine : v ≡ user = (eq_iff v user).0 here in
      let back : (user == v) ≡ true = (eq_iff user v).1 (sym mine) in
      let b = bucket_or now s.cfg (s.buckets v) in
      let balanced : IsBalanced cfg start now n b =
        subst (λ u. IsBalanced cfg start now n (bucket_or now s.cfg (s.buckets u))) (sym mine)
          (subst (λ c. IsBalanced cfg start now n (bucket_or now c (s.buckets user))) (sym same)
            (bucket_or-IsBalanced cfg start now n (s.buckets user) w h)) in
      rw (here, back) (allow-IsBalanced cfg start now n now b w (omega arith) balanced)
  | inr other ↦
      let apart : (user == v) ≡ false = ground (arith, other, eq_iff v user, eq_iff user v) in
      rw (other, apart) h
]

gc-BooksOf :
    (cfg : Config) (start now n : ℕ) (user : String) (s : Scheduler)
    → s.cfg ≡ cfg
    → BooksOf cfg start now n (s.buckets user)
    → BooksOf cfg start now n ((gc now s).buckets user)
unfolding gc
gc-BooksOf cfg start now n user s same v =
    subst (λ c. BooksOf cfg start now n (kept now c (s.buckets user))) (sym same)
      (kept-BooksOf cfg start now n (s.buckets user) v)

acquire_cfg : (now : ℕ) (v : String) (s : Scheduler) → (acquire now v s).0.cfg ≡ s.cfg
unfolding acquire
acquire_cfg now v s = refl

gc_cfg : (now : ℕ) (s : Scheduler) → (gc now s).cfg ≡ s.cfg
unfolding gc
gc_cfg now s = refl

admitted-BooksOf :
    (cfg : Config) (start t n : ℕ) (user : String) (s : Scheduler) (cs : List (ℕ × Call))
    → 0 < cfg.window
    → s.cfg ≡ cfg
    → Ordered t cs
    → BooksOf cfg start t n (s.buckets user)
    → BooksOf cfg start
        (last_instant t cs)
        (n + (admitted user s cs).1)
        ((admitted user s cs).0.buckets user)
unfolding admitted
admitted-BooksOf cfg start t n user s [] w same o h =
    subst (λ k. BooksOf cfg start t k (s.buckets user)) (omega arith) h
admitted-BooksOf cfg start t n user s ((now, acquires v) ∷ cs) w same o h =
    let s' = (acquire now v s).0 in
    let now_books = weaken_books cfg start t now n (s.buckets user) o.0 h in
    let here = acquire-BooksOf cfg start now n user v s w same now_books in
    let same' : s'.cfg ≡ cfg = acquire_cfg now v s ∙ same in
    elim (Bool-cases (v == user && (acquire now v s).1)) [
      | inl e ↦
          subst
            (λ k. BooksOf cfg start (last_instant now cs) k ((admitted user s' cs).0.buckets user))
            (ground (arith, e))
            (admitted-BooksOf cfg start now (n + 1) user s' cs w same' o.1 (rw e at here))
      | inr e ↦ rw e (admitted-BooksOf cfg start now n user s' cs w same' o.1 (rw e at here))
    ]
admitted-BooksOf cfg start t n user s ((now, collects) ∷ cs) w same o h =
    admitted-BooksOf cfg start now n user (gc now s) cs w (gc_cfg now s ∙ same) o.1 (
      gc-BooksOf cfg start now n user s same
        (weaken_books cfg start t now n (s.buckets user) o.0 h))

BooksOf-rate :
    (cfg : Config) (start t n : ℕ) (o : Option Bucket)
    → BooksOf cfg start t n o
    → n * cfg.window + cfg.max_requests_per_user * start
      ≤ initial_tokens cfg.max_requests_per_user cfg.burst * cfg.window
        + cfg.max_requests_per_user * t
BooksOf-rate cfg start t n none h = omega (arith, h)
BooksOf-rate cfg start t n (some b) h = omega (
  arith,
  h.books,
  mul_mono cfg.max_requests_per_user b.last_refill t (omega (arith, h.refill_le, h.access_le)),
)

-- Over any run whose clock does not step back, with all users interleaved and the clean-up at any
-- instants, a user's admitted requests are at most the burst (cut to the maximum) and the maximum
-- for each window that has passed.
pub admitted-bound :
    (cfg : Config) (start : ℕ) (user : String) (cs : List (ℕ × Call))
    → 0 < cfg.window
    → Ordered start cs
    → (admitted user (new_scheduler cfg) cs).1 * cfg.window + cfg.max_requests_per_user * start
      ≤ initial_tokens cfg.max_requests_per_user cfg.burst * cfg.window
        + cfg.max_requests_per_user * last_instant start cs
unfolding new_scheduler
admitted-bound cfg start user cs w o =
    let s = new_scheduler cfg in
    let begun : IsClear cfg start start 0 = omega arith in
    let books : BooksOf cfg start (last_instant start cs) (0 + (admitted user s cs).1)
        ((admitted user s cs).0.buckets user) =
      admitted-BooksOf cfg start start 0 user s cs w refl o begun in
    let rate =
      BooksOf-rate cfg start (last_instant start cs) (0 + (admitted user s cs).1)
        ((admitted user s cs).0.buckets user) books in
    grind (arith, rate)

-- The calls that concern a user: its own and the clean-up.
unfoldable pub own_calls : String → List (ℕ × Call) → List (ℕ × Call)
own_calls user [] = []
own_calls user ((now, acquires v) ∷ cs) =
    if v == user then (now, acquires v) ∷ own_calls user cs else own_calls user cs
own_calls user ((now, collects) ∷ cs) = (now, collects) ∷ own_calls user cs

acquire_other :
    (now : ℕ) (user v : String) (s : Scheduler)
    → (v == user) ≡ false
    → (acquire now v s).0.buckets user ≡ s.buckets user
unfolding acquire
acquire_other now user v s other =
    let apart : (user == v) ≡ false = ground (arith, other, eq_iff v user, eq_iff user v) in
    rw apart refl

-- Two schedulers that agree on a user's bucket.
abbrev Agrees : String → Scheduler → Scheduler → Type 0
Agrees user s s' = (s.cfg ≡ s'.cfg) × (s.buckets user ≡ s'.buckets user)

acquire-Agrees :
    (now : ℕ) (user : String) (s s' : Scheduler)
    → Agrees user s s'
    → Agrees user (acquire now user s).0 (acquire now user s').0
      × ((acquire now user s).1 ≡ (acquire now user s').1)
unfolding acquire
acquire-Agrees now user s s' (same, bucket) =
    let self : (user == user) ≡ true = (eq_iff user user).1 refl in
    ((same, rw (self, same, bucket) refl), rw (same, bucket) refl)

gc-Agrees :
    (now : ℕ) (user : String) (s s' : Scheduler)
    → Agrees user s s'
    → Agrees user (gc now s) (gc now s')
unfolding gc
gc-Agrees now user s s' (same, bucket) = (same, rw (same, bucket) refl)

admitted-own :
    (user : String) (s s' : Scheduler) (cs : List (ℕ × Call))
    → Agrees user s s'
    → (admitted user s cs).1 ≡ (admitted user s' (own_calls user cs)).1
unfolding admitted own_calls
admitted-own user s s' [] h = refl
admitted-own user s s' ((now, acquires v) ∷ cs) h = elim (Bool-cases (v == user)) [
  | inl here ↦
      let mine : user ≡ v = sym ((eq_iff v user).0 here) in
      let both : Agrees user (acquire now v s).0 (acquire now v s').0
          × ((acquire now v s).1 ≡ (acquire now v s').1) =
        subst
          (λ u.
            Agrees user (acquire now u s).0 (acquire now u s').0
            × ((acquire now u s).1 ≡ (acquire now u s').1))
          mine (acquire-Agrees now user s s' h) in
      let rest = admitted-own user (acquire now v s).0 (acquire now v s').0 cs both.0 in
      rw (here, admitted, both.1, here, rest) refl
  | inr other ↦
      let agrees : Agrees user (acquire now v s).0 s' =
        (acquire_cfg now v s ∙ h.0, acquire_other now user v s other ∙ h.1) in
      rw other (admitted-own user (acquire now v s).0 s' cs agrees)
]
admitted-own user s s' ((now, collects) ∷ cs) h =
    admitted-own user (gc now s) (gc now s') cs (gc-Agrees now user s s' h)

-- What other users ask for, and how often, makes no difference to how many requests of a user are
-- admitted.
pub admitted_alone :
    (user : String) (s : Scheduler) (cs : List (ℕ × Call))
    → (admitted user s cs).1 ≡ (admitted user s (own_calls user cs)).1
admitted_alone user s cs = admitted-own user s s cs (refl, refl)
