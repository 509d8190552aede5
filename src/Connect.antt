-- ===== src/Connect.antt =====
-- The CONNECT leg of the gateway: handleConnect and authorizeConnect of internal/channel/server.go,
-- with the addresses of internal/channel/connect_target.go. Text is a list of bytes, and the case of a
-- letter is that of ASCII.
pub mod Address
pub mod Numeric
pub mod Target
pub mod Spelling
pub mod Deadlines
pub mod Linger
pub mod Admitted
use llm_cluster_router.Prelude.{
  ℕ, List, [], ◌∷◌, Option, none, some, Bool, true, false, ◌&&◌, ◌||◌, not, ltb, leb, ◌==◌,
  if◌then◌else◌, length, drop,
}
use llm_cluster_router.VendorError.{has_prefix, is_one_of}
use llm_cluster_router.Prelude.Bytes.{bytes_eq, lower, trim_space}
use llm_cluster_router.Connect.Address.{ListenScope, DialRefusal, connect_dial_refusal}

-- The bytes of "Bearer ".
abbrev bearer_prefix : List ℕ
bearer_prefix = 66 ∷ 101 ∷ 97 ∷ 114 ∷ 101 ∷ 114 ∷ 32 ∷ []

-- `authorizeConnect` for the token of the configuration and the header.
unfoldable pub authorize_connect : List ℕ → List ℕ → Bool
unfolding bytes_eq has_prefix trim_space
authorize_connect token header =
    let got = trim_space (drop (length bearer_prefix) header) in
    if length token == 0 || not (has_prefix header bearer_prefix)
    then false
    else if length got == 0
    then false
    else bytes_eq got token

-- What the handler reads of the configuration and the server. `allowed` has the hosts in lower case.
pub record ConnectLeg : Type 0 where
  pub enabled : Bool
  pub token : List ℕ
  pub allowed : List (List ℕ)
  pub max_concurrent : ℕ
  pub scope : ListenScope

-- What becomes of taking the client's connection over.
pub data Hijack : Type 0 where
  unsupported hijack_fails write_fails hijacked : Hijack

-- A request: its header, its target, the addresses of the dialled connection, if it was dialled.
pub record ConnectRequest : Type 0 where
  pub authorization : List ℕ
  pub target : List ℕ
  pub dialled : Option (Option ℕ × Option ℕ)
  pub hijack : Hijack

pub data Denial : Type 0 where
  connect_disabled bad_token host_not_allowlisted dial_failed : Denial
  dial_refused : DialRefusal → Denial
  hijack_unsupported hijack_failed : Denial

pub data Connected : Type 0 where
  denied : ℕ → Denial → Connected
  at_capacity client_gone established : Connected

unfoldable pub is_listed : List (List ℕ) → List ℕ → Bool
unfolding bytes_eq
is_listed [] host = false
is_listed (h ∷ hs) host = if bytes_eq h host then true else is_listed hs host

-- From the hijack on.
unfoldable pub take_over : Hijack → Connected
take_over unsupported = denied 500 hijack_unsupported
take_over hijack_fails = denied 500 hijack_failed
take_over write_fails = client_gone
take_over hijacked = established

-- From the dial on.
unfoldable pub dial_target : ListenScope → Hijack → Option (Option ℕ × Option ℕ) → Connected
unfolding take_over connect_dial_refusal
dial_target scope h none = denied 502 dial_failed
dial_target scope h (some (local, remote)) = elim (connect_dial_refusal scope local remote) [
  | none ↦ take_over h
  | some refusal ↦ denied 403 (dial_refused refusal)
]

-- `handleConnect`, when this many tunnels are carried already.
unfoldable pub handle_connect : ConnectLeg → ℕ → ConnectRequest → Connected
unfolding authorize_connect is_listed dial_target lower
handle_connect c in_use r =
    if not c.enabled
    then denied 405 connect_disabled
    else if not (authorize_connect c.token r.authorization)
    then denied 407 bad_token
    else if not (is_listed c.allowed (lower r.target))
    then denied 403 host_not_allowlisted
    else if leb c.max_concurrent in_use
    then at_capacity
    else dial_target c.scope r.hijack r.dialled
