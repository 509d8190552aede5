-- ===== src/Gateway/Request.antt =====
-- One request of the reverse-proxy leg: handleProxy and settleLease of internal/channel/server.go,
-- and leaseFor, retryAfter, retire and retireUntil of internal/channel/auth.go, for a pooled route.
use llm_cluster_router.Prelude.{
  ℕ, List, [], Option, none, some, String, Bool, false, ltb, if◌then◌else◌, length,
}
use llm_cluster_router.Prelude.Int.{ℤ, pos}
use llm_cluster_router.Rotation.Types.{UsageSample, outcome_failed, reason_quota, Budget, KeyState}
use llm_cluster_router.Rotation.Route.{
  Reservation, granted, refused_drained, refused_admission, min_retry_after,
}
use llm_cluster_router.Rotation.Store.{
  Store, KeyLease, settle_lease, retire_with_reason_at, retire_for_window_at, retry_after_at,
  reserve_at,
}
use llm_cluster_router.VendorError.{VendorSignal, retires, reason}
use llm_cluster_router.VendorError.Parse.{parse_vendor_signal, vendor_retire_until}
use llm_cluster_router.Usage.{observe_all, result}
use llm_cluster_router.Gateway.{
  chargeable_sample, charged_tokens_for, is_quota_status, RefusalCode, refusal_answer_for,
  retry_after_seconds,
}

-- A pooled route: its name, its keys, and the budget of its rotation block.
pub record PoolRoute : Type 0 where
  pub name : String
  pub keys : List String
  pub budget : Option Budget

-- The instants at which a request reserves its key, reads the vendor's signal and settles.
pub record Times : Type 0 where
  pub reserved : ℕ
  pub signalled : ℕ
  pub settled : ℕ

-- What the forward to the upstream came to: an error, or a status and the reads of the body.
pub data Forwarded : Type 0 where
  forward_failed : Forwarded
  answered : ℕ → List (List ℕ) → Forwarded

-- The answer of the gateway, with what its audit line records of the key.
pub data Reply : Type 0 where
  unavailable : RefusalCode → ℕ → Reply
  bad_gateway : ℕ → Reply
  relayed : ℕ → ℕ → ℤ → Bool → Reply

abbrev pub failed_sample : UsageSample
failed_sample = record { outcome = outcome_failed; tokens = pos 0; estimated = false }

pub data Leasing : Type 0 where
  leased : KeyLease → Leasing
  refused : Reservation → Leasing

module _ {P : Type 0} where
  -- `retryAfter`: a store that names no wait means the least one.
  unfoldable pub wait_of : ℕ → String → Store P → Store P × ℕ
  wait_of now name st =
      let (st', wait) = retry_after_at now name st in
      (st', elim wait [ none ↦ min_retry_after | some w ↦ w ])

  -- `denyUnavailable`: only a drained pool asks its store for a wait.
  unfoldable pub deny_unavailable : ℕ → String → Reservation → Store P → Store P × Reply
  unfolding wait_of
  deny_unavailable now name refused_admission st =
      let (code, wait) = refusal_answer_for refused_admission 0 in
      (st, unavailable code (retry_after_seconds wait))
  deny_unavailable now name refusal st =
      let (st', w) = wait_of now name st in
      let (code, wait) = refusal_answer_for refusal w in
      (st', unavailable code (retry_after_seconds wait))

  -- The retirement in `settleLease`: the vendor's own code wins over the status.
  unfoldable pub retire_on : ℕ → String → KeyLease → ℕ → Option VendorSignal → Store P → Store P
  retire_on now name l status (some v) st =
      if retires v
      then (retire_with_reason_at now name (pos l.index) (vendor_retire_until v now 0)
          (some (reason v)) st).0
      else st
  retire_on now name l status none st =
      if is_quota_status status
      then (retire_for_window_at now name (pos l.index) (some reason_quota) st).0
      else st

  unfoldable pub signal_key : ℕ → String → KeyLease → ℕ → List ℕ → Store P → Store P
  unfolding retire_on
  signal_key now name l status tail st =
      retire_on now name l status (parse_vendor_signal now tail) st

  -- The answered branch of `handleProxy`, with `settleLease`.
  unfoldable pub answer_request :
      Times → PoolRoute → KeyLease → ℕ → List (List ℕ) → Store P → Store P × KeyLease × Reply
  unfolding signal_key
  answer_request t route l status chunks st =
      let tail = observe_all [] chunks in
      let sample = chargeable_sample status (result tail) in
      let (st', l', events) =
        settle_lease t.settled sample l (signal_key t.signalled route.name l status tail st) in
      (st', l', relayed status l.index (charged_tokens_for route.budget sample) sample.estimated)

  -- `handleProxy` behind the lease; the deferred settlement runs last.
  unfoldable pub forward_request :
      Times → PoolRoute → KeyLease → Forwarded → Store P → Store P × Reply
  unfolding answer_request
  forward_request t route l forward_failed st =
      ((settle_lease t.settled failed_sample l st).0, bad_gateway l.index)
  forward_request t route l (answered status chunks) st =
      let (st', l', reply) = answer_request t route l status chunks st in
      ((settle_lease t.settled failed_sample l' st').0, reply)

  -- `leaseFor` on the answer of the store: an index that no key has is settled and read as a
  -- drained pool.
  unfoldable pub leasing_of : ℕ → PoolRoute → Store P × Reservation → Store P × Leasing
  leasing_of now route (st, granted i) =
      let l : KeyLease = record { route = route.name; index = i; once = false } in
      if ltb i (length route.keys)
      then (st, leased l)
      else ((settle_lease now failed_sample l st).0, refused refused_drained)
  leasing_of now route (st, refused_drained) = (st, refused refused_drained)
  leasing_of now route (st, refused_admission) = (st, refused refused_admission)

  -- `handleProxy` once the pool has answered.
  unfoldable pub serve_leasing : Times → PoolRoute → Forwarded → Store P × Leasing → Store P × Reply
  unfolding forward_request deny_unavailable
  serve_leasing t route forwarded (st, leased l) = forward_request t route l forwarded st
  serve_leasing t route forwarded (st, refused refusal) =
      deny_unavailable t.reserved route.name refusal st

module _ {P : Type 0} (select : P → List KeyState → P × ℤ) where
  unfoldable pub lease_for : ℕ → PoolRoute → Store P → Store P × Leasing
  unfolding leasing_of
  lease_for now route st = leasing_of now route (reserve_at select now route.name st)

  -- `handleProxy` for a request of this route.
  unfoldable pub serve : Times → PoolRoute → Forwarded → Store P → Store P × Reply
  unfolding lease_for serve_leasing
  serve t route forwarded st = serve_leasing t route forwarded (lease_for t.reserved route st)
