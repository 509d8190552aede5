-- ===== src/Proxy/Admission/Counts.antt =====
-- The counters of the admission of main.go are what its handlers hold.
use llm_cluster_router.Prelude.{
  ℕ, zero, suc, ◌+◌, ◌≡◌, ◌≤◌, refl, ◌∙◌, ap, List, [], ◌∷◌, ◌++◌, some, true, ltb, get_elem?,
  modify, Option-cases, Bool-cases, inl, inr, arith,
}
use llm_cluster_router.Proxy.Admission.{
  Limits, Phase, leaving_queue, admitted, waiting, acquired, running, finishing, Gate, Move,
  leaves_queue, begins_buffering, abandons, acquires, dequeues, cancels, ends, releases_buffer,
  is_ready, has_room, target, count, Event, arrives, moves, arrive, move, step, run, idle,
}

-- What a handler holds in a phase.
unfoldable pub slots : Phase → ℕ
slots leaving_queue = 1
slots admitted = 1
slots waiting = 1
slots acquired = 1
slots p = 0

unfoldable pub places : Phase → ℕ
places admitted = 1
places waiting = 1
places acquired = 1
places p = 0

unfoldable pub bodies : Phase → ℕ
bodies waiting = 1
bodies acquired = 1
bodies running = 1
bodies finishing = 1
bodies p = 0

unfoldable pub tokens : Phase → ℕ
tokens acquired = 1
tokens running = 1
tokens p = 0

unfoldable pub ending : Phase → ℕ
ending finishing = 1
ending p = 0

unfoldable pub total : (Phase → ℕ) → List Phase → ℕ
total w [] = 0
total w (p ∷ ps) = w p + total w ps

total-append :
    (w : Phase → ℕ) (ps : List Phase) (p : Phase) → total w (ps ++ p ∷ []) ≡ total w ps + w p
unfolding total
total-append w [] p = omega arith
total-append w (x ∷ ps) p = omega (arith, total-append w ps p)

total-modify :
    (w : Phase → ℕ) (ps : List Phase) (i : ℕ) (p p' : Phase)
    → get_elem? ps i ≡ some p
    → total w (modify ps i (λ _. p')) + w p ≡ total w ps + w p'
unfolding total
total-modify w [] i p p' h = ground arith
total-modify w (x ∷ ps) zero p p' h = ground arith
total-modify w (x ∷ ps) (suc i) p p' h = omega (arith, total-modify w ps i p p' h)

-- The counters are what the handlers hold, and the places and the tokens are within the limits.
pub record IsGate (l : Limits) (g : Gate) : Type 0 where
  pub counts_slots : g.queue_depth ≡ total slots g.handlers
  pub counts_bodies : g.buffering ≡ total bodies g.handlers
  pub counts_tokens : g.semaphore ≡ total tokens g.handlers
  pub within_queue : total places g.handlers ≤ l.max_queue_depth
  pub within_tokens : total tokens g.handlers ≤ l.max_concurrency

places-slots : (ps : List Phase) → total places ps ≤ total slots ps
unfolding total places slots
places-slots [] = omega arith
places-slots (p ∷ ps) = ground (arith, places-slots ps)

arrive-IsGate : (l : Limits) (g : Gate) → IsGate l g → IsGate l (arrive l g)
unfolding arrive slots places bodies tokens
arrive-IsGate l g v = elim (Bool-cases (ltb l.max_queue_depth (g.queue_depth + 1))) [
  | inl full ↦ rw full (record {
    counts_slots = omega (arith, total-append slots g.handlers leaving_queue, v.counts_slots);
    counts_bodies = omega (arith, total-append bodies g.handlers leaving_queue, v.counts_bodies);
    counts_tokens = omega (arith, total-append tokens g.handlers leaving_queue, v.counts_tokens);
    within_queue = omega (arith, total-append places g.handlers leaving_queue, v.within_queue);
    within_tokens = omega (arith, total-append tokens g.handlers leaving_queue, v.within_tokens);
  })
  | inr space ↦ rw space (record {
    counts_slots = omega (arith, total-append slots g.handlers admitted, v.counts_slots);
    counts_bodies = omega (arith, total-append bodies g.handlers admitted, v.counts_bodies);
    counts_tokens = omega (arith, total-append tokens g.handlers admitted, v.counts_tokens);
    within_queue = ground (
      arith,
      space,
      total-append places g.handlers admitted,
      places-slots g.handlers,
      v.counts_slots,
    );
    within_tokens = omega (arith, total-append tokens g.handlers admitted, v.within_tokens);
  })
]

-- The phase from which a move starts.
unfoldable source : Move → Phase
source leaves_queue = leaving_queue
source begins_buffering = admitted
source abandons = waiting
source acquires = waiting
source dequeues = acquired
source cancels = waiting
source ends = running
source releases_buffer = finishing

is_ready-source : (m : Move) (p : Phase) → is_ready m p ≡ true → p ≡ source m
unfolding is_ready source
is_ready-source leaves_queue p h = ground arith
is_ready-source begins_buffering p h = ground arith
is_ready-source abandons p h = ground arith
is_ready-source acquires p h = ground arith
is_ready-source dequeues p h = ground arith
is_ready-source cancels p h = ground arith
is_ready-source ends p h = ground arith
is_ready-source releases_buffer p h = ground arith

-- The counters that a move leaves, from those before it.
abbrev Balances : Limits → Move → Gate → Type 0
Balances l m g =
    ((count m g).queue_depth + slots (source m) ≡ g.queue_depth + slots (target m))
    × ((count m g).buffering + bodies (source m) ≡ g.buffering + bodies (target m))
    × ((count m g).semaphore + tokens (source m) ≡ g.semaphore + tokens (target m))
    × (places (target m) ≤ places (source m))
    × (g.semaphore + tokens (target m) ≤ l.max_concurrency + tokens (source m))

held_by :
    (w : Phase → ℕ) (ps : List Phase) (i : ℕ) (p : Phase)
    → get_elem? ps i ≡ some p
    → w p ≤ total w ps
unfolding total
held_by w [] i p h = ground arith
held_by w (x ∷ ps) zero p h = ground arith
held_by w (x ∷ ps) (suc i) p h = omega (arith, held_by w ps i p h)

-- A handler in the phase that a move needs holds what the move takes back.
move-Balances :
    (l : Limits) (m : Move) (g : Gate)
    → has_room l m g ≡ true
    → slots (source m) ≤ g.queue_depth
    → bodies (source m) ≤ g.buffering
    → tokens (source m) ≤ g.semaphore
    → g.semaphore ≤ l.max_concurrency
    → Balances l m g
unfolding has_room count source target slots bodies tokens places
move-Balances l leaves_queue g o a b c d = ground (arith, o, a, b, c, d)
move-Balances l begins_buffering g o a b c d = ground (arith, o, a, b, c, d)
move-Balances l abandons g o a b c d = ground (arith, o, a, b, c, d)
move-Balances l acquires g o a b c d = ground (arith, o, a, b, c, d)
move-Balances l dequeues g o a b c d = ground (arith, o, a, b, c, d)
move-Balances l cancels g o a b c d = ground (arith, o, a, b, c, d)
move-Balances l ends g o a b c d = ground (arith, o, a, b, c, d)
move-Balances l releases_buffer g o a b c d = ground (arith, o, a, b, c, d)

move-IsGate :
    (l : Limits) (i : ℕ) (m : Move) (p : Phase) (g : Gate)
    → get_elem? g.handlers i ≡ some p
    → IsGate l g
    → IsGate l (move l i m p g)
unfolding move
move-IsGate l i m p g at v = elim (Bool-cases (is_ready m p)) [
  | inr blocked ↦ rw blocked v
  | inl ready ↦ elim (Bool-cases (has_room l m g)) [
    | inr shut ↦ rw (ready, shut) v
    | inl open_now ↦ rw (ready, open_now) (moved (is_ready-source m p ready) open_now)
  ]
]
  where
    moved :
        p ≡ source m
        → has_room l m g ≡ true
        → IsGate l (record (count m g) { handlers = modify g.handlers i (λ _. target m) })
    moved same o =
        let here : get_elem? g.handlers i ≡ some (source m) = at ∙ ap some same in
        let ps = g.handlers in
        let (s, b, t, pl, free) =
          move-Balances l m g o (omega (arith, v.counts_slots, held_by slots ps i (source m) here))
            (omega (arith, v.counts_bodies, held_by bodies ps i (source m) here))
            (omega (arith, v.counts_tokens, held_by tokens ps i (source m) here))
            (omega (arith, v.counts_tokens, v.within_tokens)) in
        record {
          counts_slots =
              omega (arith, s, v.counts_slots, total-modify slots ps i (source m) (target m) here);
          counts_bodies =
              omega
                (arith, b, v.counts_bodies, total-modify bodies ps i (source m) (target m) here);
          counts_tokens =
              omega
                (arith, t, v.counts_tokens, total-modify tokens ps i (source m) (target m) here);
          within_queue =
              omega
                (arith, pl, v.within_queue, total-modify places ps i (source m) (target m) here);
          within_tokens =
              omega
                (arith, free, v.counts_tokens, total-modify tokens ps i (source m) (target m) here);
        }

step-IsGate : (l : Limits) (g : Gate) (e : Event) → IsGate l g → IsGate l (step l g e)
unfolding step
step-IsGate l g arrives v = arrive-IsGate l g v
step-IsGate l g (moves i m) v = elim (Option-cases (get_elem? g.handlers i)) [
  | inl nobody ↦ rw (nobody, step) v
  | inr (p, at) ↦ rw (at, step) (move-IsGate l i m p g at v)
]

pub run-IsGate : (l : Limits) (g : Gate) (es : List Event) → IsGate l g → IsGate l (run l g es)
unfolding run
run-IsGate l g [] v = v
run-IsGate l g (e ∷ es) v = run-IsGate l (step l g e) es (step-IsGate l g e v)

pub idle-IsGate : (l : Limits) → IsGate l idle
unfolding total
idle-IsGate l = record {
  counts_slots = refl;
  counts_bodies = refl;
  counts_tokens = refl;
  within_queue = omega arith;
  within_tokens = omega arith;
}
