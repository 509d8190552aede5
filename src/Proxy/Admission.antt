-- ===== src/Proxy/Admission.antt =====
-- The admission of requests by `handleProxy` in main.go: the counted queue, the buffered body and
-- the semaphore, for handlers that run at the same time under one configuration. A step is one
-- atomic operation of one handler; the counters are those of the router, `queueDepth` and
-- `buffering`, and the tokens in the channel `semaphore`.
pub mod Counts
pub mod Bounds
use llm_cluster_router.Prelude.{
  ℕ, ◌+◌, ◌-◌, List, [], ◌∷◌, ◌++◌, none, some, Bool, true, false, ltb, if◌then◌else◌, get_elem?,
  modify,
}

-- `MaxQueueDepth` and `MaxConcurrency`.
pub record Limits : Type 0 where
  pub max_queue_depth : ℕ
  pub max_concurrency : ℕ

-- Where a handler stands: `leaving_queue` has only its queue slot left, `admitted` a slot within the
-- limit, `waiting` a slot and the body, `acquired` a slot, the body and a token, `running` the body
-- and a token, `finishing` only the body.
pub data Phase : Type 0 where
  leaving_queue admitted waiting acquired running finishing gone : Phase

-- The counters, and the handlers in the order of their arrival.
pub record Gate : Type 0 where
  pub queue_depth : ℕ
  pub buffering : ℕ
  pub semaphore : ℕ
  pub handlers : List Phase

-- What a handler does next: the deferred `dequeue`, `beginBuffering`, a return before the semaphore
-- (which gives the body back), the send to the semaphore, `dequeue` behind it, the end of the
-- context, the receive from the semaphore, and `releaseBuffer`.
pub data Move : Type 0 where
  leaves_queue begins_buffering abandons acquires dequeues cancels ends releases_buffer : Move

-- The phase in which a handler makes a move.
unfoldable pub is_ready : Move → Phase → Bool
is_ready leaves_queue leaving_queue = true
is_ready begins_buffering admitted = true
is_ready abandons waiting = true
is_ready acquires waiting = true
is_ready dequeues acquired = true
is_ready cancels waiting = true
is_ready ends running = true
is_ready releases_buffer finishing = true
is_ready m p = false

unfoldable pub has_room : Limits → Move → Gate → Bool
has_room l acquires g = ltb g.semaphore l.max_concurrency
has_room l m g = true

unfoldable pub target : Move → Phase
target leaves_queue = gone
target begins_buffering = waiting
target abandons = leaving_queue
target acquires = acquired
target dequeues = running
target cancels = finishing
target ends = finishing
target releases_buffer = gone

-- What a move does to the counters.
unfoldable pub count : Move → Gate → Gate
count leaves_queue g = record g { queue_depth = g.queue_depth - 1 }
count begins_buffering g = record g { buffering = g.buffering + 1 }
count abandons g = record g { buffering = g.buffering - 1 }
count acquires g = record g { semaphore = g.semaphore + 1 }
count dequeues g = record g { queue_depth = g.queue_depth - 1 }
count cancels g = record g { queue_depth = g.queue_depth - 1 }
count ends g = record g { semaphore = g.semaphore - 1 }
count releases_buffer g = record g { buffering = g.buffering - 1 }

-- A request arrives, or a handler moves.
pub data Event : Type 0 where
  arrives : Event
  moves : ℕ → Move → Event

-- A request takes its queue slot first and is refused by the depth that this returns.
unfoldable pub arrive : Limits → Gate → Gate
arrive l g = record g {
  queue_depth = g.queue_depth + 1;
  handlers =
      g.handlers
      ++ (if ltb l.max_queue_depth (g.queue_depth + 1) then leaving_queue else admitted) ∷ [];
}

-- The move of handler `i` in phase `p`; one that is not ready, or waits for a token, stays.
unfoldable pub move : Limits → ℕ → Move → Phase → Gate → Gate
unfolding is_ready has_room target count
move l i m p g =
    if is_ready m p
    then if has_room l m g
      then record (count m g) { handlers = modify g.handlers i (λ _. target m) }
      else g
    else g

unfoldable pub step : Limits → Gate → Event → Gate
unfolding arrive move
step l g arrives = arrive l g
step l g (moves i m) = elim (get_elem? g.handlers i) [ none ↦ g | some p ↦ move l i m p g ]

unfoldable pub run : Limits → Gate → List Event → Gate
unfolding step
run l g [] = g
run l g (e ∷ es) = run l (step l g e) es

-- The router before its first request.
abbrev pub idle : Gate
idle = record { queue_depth = 0; buffering = 0; semaphore = 0; handlers = [] }
