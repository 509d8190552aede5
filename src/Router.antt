-- ===== src/Router.antt =====
-- The router beside its selection and its failover: internal/router/helpers.go and
-- internal/router/minimax.go, the bearer tokens of internal/proxy/helpers.go, and of main.go
-- setUpstreamAuth and handleModels. A JSON object is a list of keys and values, as SmartRoute has it.
pub mod Body
pub mod Access
pub mod Models
pub mod UpstreamAuth
pub mod Kept
pub mod Listed
pub mod Entitled
use llm_cluster_router.Prelude.{
  ℕ, List, [], ◌∷◌, ◌++◌, Option, none, some, Bool, true, false, not, ◌||◌, ◌==◌, if◌then◌else◌,
  length,
}
use llm_cluster_router.Prelude.Bytes.{codes, bytes_eq, lower, trim_space}

unfoldable pub equals_any : List (List ℕ) → List ℕ → Bool
unfolding bytes_eq
equals_any [] x = false
equals_any (y ∷ ys) x = if bytes_eq x y then true else equals_any ys x

-- `NodeEnabled`.
unfoldable pub node_enabled : List ℕ → Bool
unfolding equals_any lower trim_space
node_enabled value =
    let v = trim_space (lower value) in
    length v == 0 || equals_any (codes "1" ∷ codes "true" ∷ codes "yes" ∷ codes "on" ∷ []) v

-- `MetricLabel`.
unfoldable pub metric_label : List ℕ → List ℕ → List ℕ
unfolding trim_space
metric_label value fallback = if length (trim_space value) == 0 then fallback else trim_space value

-- `MinChatBase` and `MinChatCompletionPath`, and the denied bases.
abbrev pub min_chat_base : List ℕ
min_chat_base = codes "https://api.minimaxi.com/v1"

abbrev pub forbidden_minimax_bases : List (List ℕ)
forbidden_minimax_bases =
    codes "https://api.minimax.io/v1" ∷ codes "https://api.minimax.com/v1" ∷ []

-- `MinChatURL`: none is ErrMinForbiddenHost. The base ends in no slash, so that `url.JoinPath` puts one.
unfoldable pub min_chat_url : List ℕ → Option (List ℕ)
unfolding equals_any bytes_eq
min_chat_url base =
    if equals_any forbidden_minimax_bases base
    then none
    else if length base == 0 || bytes_eq base min_chat_base
    then some (min_chat_base ++ codes "/text/chatcompletion_v2")
    else none

-- `MinChatAuthorizationHeader`: none is ErrMinEmptyAPIKey.
unfoldable pub min_chat_authorization_header : List ℕ → Option (List ℕ)
unfolding trim_space
min_chat_authorization_header api_key =
    if length (trim_space api_key) == 0 then none else some (codes "Bearer " ++ trim_space api_key)

-- `IsMinChatModel`.
unfoldable pub is_min_chat_model : List ℕ → Bool
unfolding equals_any trim_space
is_min_chat_model model =
    equals_any
      (codes "MiniMax-M3"
        ∷ codes "MiniMax-Text-01"
        ∷ codes "minimax-M3"
        ∷ codes "minimax-Text-01"
        ∷ [])
      (trim_space model)
