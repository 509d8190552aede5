-- ===== src/Proxy.antt =====
-- The upstreams of main.go behind their nodes: doUpstream and nextAPIKeyIdx, with isFailoverStatus
-- and the quota detector of a node. A request to an upstream can always be built here, since its
-- method and its address come from parsed ones.
pub mod Failover
pub mod Bodies
pub mod Accounts
pub mod Flags
pub mod Locality
pub mod Admission
use llm_cluster_router.Prelude.{
  ℕ, ◌+◌, ◌%◌, List, [], ◌∷◌, Option, none, some, String, Bool, true, false, ◌||◌, ltb, leb, ◌==◌,
  if◌then◌else◌, length, get_or, take,
}
use llm_cluster_router.Prelude.Int.{ℤ, pos, negsuc}
use llm_cluster_router.Prelude.Maps.{◌==◌ as str_eq}
use llm_cluster_router.KeyPool.{uint64_mod, Pool, next, size}

-- The fields of `upstreamNode` that the proxy reads and the selection does not. The detector is a
-- compiled regular expression, and stands for its matches.
pub record Upstream : Type 0 where
  pub keys : Option Pool
  pub api_keys : List String
  pub key_idx : ℕ
  pub api_key : String
  pub detector : Option (List ℕ → Bool)

-- An upstream without a key.
abbrev pub no_upstream : Upstream
no_upstream = record { keys = none; api_keys = []; key_idx = 0; api_key = ""; detector = none }

-- The branches of `nextAPIKeyIdx` behind the pool's.
unfoldable pub static_key : Upstream → Upstream × String × ℤ
static_key u =
    let i = u.key_idx % uint64_mod % length u.api_keys in
    if ltb 0 (length u.api_keys)
    then (record u { key_idx = (u.key_idx + 1) % uint64_mod }, get_or u.api_keys i "", pos i)
    else (u, u.api_key, negsuc 0)

-- `nextAPIKeyIdx`.
unfoldable pub next_api_key : ℕ → Upstream → Upstream × String × ℤ
unfolding static_key
next_api_key now u = elim u.keys [
  | none ↦ static_key u
  | some p ↦
      let (p', key, i) = next now p in
      if ltb 0 (size p) then (record u { keys = some p' }, key, i) else static_key u
]

-- What `client.Do` came to: an error, with `isRetryableConnError` of it, or a response with its
-- status and the bytes of its body.
pub data Result : Type 0 where
  failed : Bool → Result
  responded : ℕ → List ℕ → Result

-- One attempt: the instant at which it is sent, the results of the request and of its transparent
-- retry, and the instant at which it is scored.
pub record Exchange : Type 0 where
  pub sent : ℕ
  pub first : Result
  pub second : Result
  pub scored : ℕ

-- `usedKeyIdx` after a request was built with this key.
abbrev pub used_index : String → ℤ → ℤ → ℤ
used_index key i before = if str_eq key "" then before else i

-- `doUpstream`.
unfoldable pub do_upstream : Exchange → Upstream → Upstream × Result × ℤ
unfolding next_api_key
do_upstream e u =
    let (u1, key1, i1) = next_api_key e.sent u in
    let (u2, key2, i2) = next_api_key e.sent u1 in
    let used = used_index key1 i1 (negsuc 0) in
    elim e.first [
      | failed retryable ↦
          if retryable then (u2, e.second, used_index key2 i2 used) else (u1, failed false, used)
      | responded status body ↦ (u1, responded status body, used)
    ]

-- `isFailoverStatus`.
unfoldable pub is_failover_status : ℕ → Bool
is_failover_status code = code == 429 || leb 500 code

abbrev pub peek_bytes : ℕ
peek_bytes = 65_536

-- `quotaHit`: the status, or a detector that matches the first bytes of the body.
unfoldable pub is_quota_hit : Upstream → ℕ → List ℕ → Bool
is_quota_hit u status body = elim u.detector [
  | none ↦ status == 429
  | some matches ↦ status == 429 || matches (take peek_bytes body)
]
